-- ===== src/Workgroup/Settle.antt =====
-- `try_continue_` of archive/path2.0/include/hypercomm/workgroup.hpp: one round of it, and the
-- payloads that are queued for a task.
use charm_experiments.Workgroup.{
  popped, task_id_eq, after_call, with_queue, Sent, Task, continue_round, TaskId, resume_task,
  try_continue, Payload, Registry, Workgroup,
}
use charm_experiments.Common.{
  update_self, ==_refl, eq_or_ne, update_ne, ==_ne, All, get_elem?, length, update, ℕ, zero, suc,
  ◌+◌, ◌≤◌, ◌<◌, ◌≡◌, refl, ap, ap₂, subst, ◌≢◌, inl, inr, true, Option, none, some, List, [], ◌∷◌,
  arith, if◌then◌else◌, ok, nat_eq, ℤ,
}

-- the payloads queued for the first `n` continuations
abbrev pub queued : {P : Type 0} → ℕ → (ℕ → List (Payload P)) → ℕ
queued zero f = 0
queued (suc n) f = length (f n) + queued n f

queued-update_above :
    {P : Type 0} (n i : ℕ) (q : List (Payload P)) (f : ℕ → List (Payload P))
    → n ≤ i
    → queued n (update i q f) ≡ queued n f
queued-update_above zero i q f h = refl
queued-update_above (suc n) i q f h =
    ap₂ (λ xs l. length xs + l) (update_ne i n q f (ground arith))
      (queued-update_above n i q f (omega arith))

pub queued_pop :
    {P : Type 0} (n i : ℕ) (p : Payload P) (rest : List (Payload P)) (f : ℕ → List (Payload P))
    → i < n
    → f i ≡ p ∷ rest
    → queued n (update i rest f) + 1 ≡ queued n f
queued_pop zero i p rest f lt e = elim lt [ ]
queued_pop (suc n) i p rest f lt e = elim (eq_or_ne i n) [
  | inl same ↦
      let front : f n ≡ p ∷ rest = subst (λ j. f j ≡ p ∷ rest) same e in
      let own : update i rest f n ≡ rest =
        subst (λ j. update i rest f j ≡ rest) same (update_self i rest f) in
      omega (arith, queued-update_above n i rest f (omega arith), ap length front, ap length own)
  | inr other ↦ omega (
    arith,
    queued_pop n i p rest f (ground arith) e,
    ap length (update_ne i n rest f (ground arith)),
  )
]

-- The payloads of every queue have its number.
abbrev pub IsFiled : {P T : Type 0} → Workgroup P T → Type 0
IsFiled {P} w = (tid : TaskId) (id : ℕ) → All (λ p. p.ref ≡ id) (w.buffers tid id)

module _ {P T : Type 0} (rt : Registry P T) where
  -- A task is active, waits for a registered continuation, and no payload for it is queued.
  pub record IsReady (w : Workgroup P T) (tid : TaskId) (t : Task T) : Type 0 where
    pub live : t.active ≡ true
    pub registered : t.continuation < length rt.continuations
    pub drained : w.buffers tid t.continuation ≡ []

  abbrev pub IsSettled : Workgroup P T → Type 0
  IsSettled w = (tid : TaskId) (t : Task T) → w.tasks tid ≡ some t → IsReady w tid t

  -- The user's code names registered continuations only; a task that a constructor leaves active has
  -- named one.
  pub record IsProper : Type 0 where
    pub continues :
        (i : ℕ) (k : ℤ → TaskId → Task T → Payload P → Task T × List (Sent P))
        → get_elem? rt.continuations i ≡ some k
        → (index : ℤ) (tid : TaskId) (t : Task T) (p : Payload P)
        → t.continuation < length rt.continuations
        → (k index tid t p).0.continuation < length rt.continuations
    pub creates :
        (i : ℕ) (k : ℤ → TaskId → Payload P → Task T × List (Sent P))
        → get_elem? rt.creators i ≡ some k
        → (index : ℤ) (tid : TaskId) (p : Payload P) → (k index tid p).0.active ≡ true
        → (k index tid p).0.continuation < length rt.continuations

  module _ (tid : TaskId) (t : Task T) (p : Payload P)
      (k : ℤ → TaskId → Task T → Payload P → Task T × List (Sent P)) (w : Workgroup P T)
      (here : w.tasks tid ≡ some t) where
    pub resume_task_accept :
        t.continuation ≡ p.ref
        → get_elem? rt.continuations p.ref ≡ some k
        → resume_task rt (w.tasks tid) tid p w
          ≡ ok (some ((k w.this_index tid t p).0.active, after_call tid (k w.this_index tid t p) w))
    unfolding resume_task
    resume_task_accept c f = simp (resume_task, here, c, ==_refl p.ref, f)

  pub resume_task_reject :
      (o : Option (Task T)) (tid : TaskId) (p : Payload P) (w : Workgroup P T)
      → ((t : Task T) → o ≡ some t → t.continuation ≢ p.ref)
      → resume_task rt o tid p w ≡ ok none
  unfolding resume_task
  resume_task_reject none tid p w h = refl
  resume_task_reject (some t) tid p w h = rw (==_ne t.continuation p.ref (h t refl))

  -- the state after a payload was taken from its queue
  abbrev pub advanced :
      TaskId → ℕ → List (Payload P) → Task T × List (Sent P) → Workgroup P T → Workgroup P T
  advanced tid id rest r w = with_queue tid id rest (after_call tid r w)

  pub try_continue_stop :
      (fuel : ℕ) (tid : TaskId) (t : Task T) (w : Workgroup P T)
      → w.active ≡ tid
      → w.tasks tid ≡ some t
      → w.buffers tid t.continuation ≡ []
      → try_continue rt (suc fuel) tid w ≡ ok w
  unfolding try_continue continue_round
  try_continue_stop fuel tid t w a here q = simp (here, a, q)

  pub try_continue_step :
      (fuel : ℕ) (tid : TaskId) (t : Task T) (w : Workgroup P T) (p : Payload P)
      (rest : List (Payload P)) (k : ℤ → TaskId → Task T → Payload P → Task T × List (Sent P))
      → w.active ≡ tid
      → w.tasks tid ≡ some t
      → w.buffers tid t.continuation ≡ p ∷ rest
      → p.ref ≡ t.continuation
      → get_elem? rt.continuations t.continuation ≡ some k
      → try_continue rt (suc fuel) tid w ≡ (
          if (k w.this_index tid t p).0.active
          then try_continue rt fuel tid
              (advanced tid t.continuation rest (k w.this_index tid t p) w)
          else ok (advanced tid t.continuation rest (k w.this_index tid t p) w))
  unfolding try_continue continue_round popped resume_task
  try_continue_step fuel tid t w p rest k a here q c f =
      simp (here, a, q, resume_task, c, ==_refl t.continuation, f)
