-- ===== src/Workgroup/Order.antt =====
-- What `try_continue_` of archive/path2.0/include/hypercomm/workgroup.hpp makes of a queue with one
-- more payload.
use charm_experiments.Common.{
  update_twice, deref, update_self, >>=_mono, Outcome, update, ℕ, zero, suc, ◌≤◌, ◌≡◌, ap, fun_ext,
  ◌∙◌, Bool, true, false, Option, none, some, List, [], ◌∷◌, ◌++◌, arith, ◌==◌, if◌then◌else◌, ok,
  nat_eq,
}
use charm_experiments.Workgroup.{
  resume_task, buffer_payload, with_queue, Workgroup, continue_round, popped, try_continue, Payload,
  Registry, TaskId, task_id_eq,
}

module _ {P T : Type 0} (rt : Registry P T) where
  popped_mono :
      (n1 n2 : Workgroup P T → Outcome (Workgroup P T)) (tid : TaskId) (id : ℕ)
      (rest : List (Payload P)) (w w' : Workgroup P T)
      → ((v : Workgroup P T) → n1 v ≡ ok w' → n2 v ≡ ok w')
      → (r : Option (Bool × Workgroup P T)) → popped rt n1 tid id rest w r ≡ ok w'
      → popped rt n2 tid id rest w r ≡ ok w'
  unfolding popped
  popped_mono n1 n2 tid id rest w w' h none e = e
  popped_mono n1 n2 tid id rest w w' h (some (true, v)) e = h (with_queue tid id rest v) e
  popped_mono n1 n2 tid id rest w w' h (some (false, v)) e = e

  continue_round_mono :
      (n1 n2 : Workgroup P T → Outcome (Workgroup P T)) (id : ℕ) (ps : List (Payload P))
      (w w' : Workgroup P T)
      → ((v : Workgroup P T) → n1 v ≡ ok w' → n2 v ≡ ok w')
      → continue_round rt n1 id ps w ≡ ok w'
      → continue_round rt n2 id ps w ≡ ok w'
  unfolding continue_round
  continue_round_mono n1 n2 id [] w w' h e = e
  continue_round_mono n1 n2 id (p ∷ ps) w w' h e =
      >>=_mono (resume_task rt (w.tasks w.active) w.active p w) _ _
        (popped_mono n1 n2 w.active id ps w w' h) e

  -- More fuel gives the same result.
  pub try_continue_mono :
      (n N : ℕ) (tid : TaskId) (w w' : Workgroup P T)
      → n ≤ N
      → try_continue rt n tid w ≡ ok w'
      → try_continue rt N tid w ≡ ok w'
  unfolding try_continue
  try_continue_mono zero N tid w w' le e = cc
  try_continue_mono (suc n) zero tid w w' le e = elim le [ ]
  try_continue_mono (suc n) (suc N) tid w w' le e =
      >>=_mono (deref (w.tasks tid)) _ _
        (λ t.
          continue_round_mono (try_continue rt n tid) (try_continue rt N tid) t.continuation
            (w.buffers w.active t.continuation) w w'
            (λ v. try_continue_mono n N tid v w' (omega arith)))
        e

-- The queues of one task: one payload is taken from queue `c` and `q` is added to its own.
module _ {P : Type 0} (f : ℕ → List (Payload P)) (c : ℕ) (q : Payload P)
    (rest : List (Payload P)) where
  abbrev pub added : List (Payload P)
  added = if c == q.ref then rest ++ (q ∷ []) else rest

  pub queues_comm :
      update c added (update q.ref (f q.ref ++ (q ∷ [])) f)
      ≡ update q.ref (update c rest f q.ref ++ (q ∷ [])) (update c rest f)
  unfolding update
  queues_comm = fun_ext (λ i. ground (arith))

  pub queue_front :
      (p : Payload P) → f c ≡ p ∷ rest → update q.ref (f q.ref ++ (q ∷ [])) f c ≡ p ∷ added
  unfolding update
  queue_front p e = ground (arith, e)

module _ {P T : Type 0} (tid : TaskId) (w : Workgroup P T) where
  pub two_queues :
      (i j : ℕ) (a b : List (Payload P))
      → (with_queue tid i a (with_queue tid j b w)).buffers
        ≡ update tid (update i a (update j b (w.buffers tid))) w.buffers
  two_queues i j a b =
      ap (λ g. update tid (update i a g) (with_queue tid j b w).buffers)
        (update_self tid (update j b (w.buffers tid)) w.buffers)
      ∙ update_twice tid _ _ w.buffers

  pub buffered_own :
      (q : Payload P)
      → (buffer_payload tid q w).buffers tid
        ≡ update q.ref (w.buffers tid q.ref ++ (q ∷ [])) (w.buffers tid)
  buffered_own q = update_self tid _ w.buffers
