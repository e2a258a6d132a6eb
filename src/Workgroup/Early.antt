-- ===== src/Workgroup/Early.antt =====
-- The order of arrival in archive/path2.0/include/hypercomm/workgroup.hpp: payloads for different
-- continuations of a task, and payloads before and after the task's creation.
use charm_experiments.Common.{
  All, update_ne, ok-injective, List-cases, if_mono, some-injective, Bool-cases, get_elem?,
  get_elem?-lt, eq_or_ne, update_self, update_id, update_twice, update, length, ℕ, zero, suc, ◌+◌,
  ◌≤◌, ◌<◌, ◌≡◌, refl, sym, ap, subst, ◌∙◌, ◌≢◌, inl, inr, some, List, [], ◌∷◌, ◌++◌, arith,
  if◌then◌else◌, ok, nat_eq,
}
use charm_experiments.Workgroup.{
  keep_task, after_call, resume, buffer_payload, Workgroup, Sent, Task, try_continue, Payload,
  TaskId, Registry, task_id_eq,
}
use charm_experiments.Workgroup.Settle.{
  try_continue_stop, try_continue_step, IsFiled, advanced, IsProper,
}
use charm_experiments.Workgroup.Total.{with_queue-IsFiled, advanced_kept}
use charm_experiments.Workgroup.Operations.{resume_reject, resume_accept}
use charm_experiments.Workgroup.Order.{
  queue_front, try_continue_mono, buffered_own, queues_comm, two_queues, added,
}

module _ {P T : Type 0} (rt : Registry P T) (tid : TaskId) (q : Payload P) where
  pub add_over :
      (g : ℕ → List (Payload P)) (b : TaskId → ℕ → List (Payload P))
      → update tid
          (update q.ref (update tid g b tid q.ref ++ (q ∷ [])) (update tid g b tid))
          (update tid g b)
        ≡ update tid (update q.ref (g q.ref ++ (q ∷ [])) g) b
  add_over g b =
      ap (λ h. update tid (update q.ref (h q.ref ++ (q ∷ [])) h) (update tid g b))
        (update_self tid g b)
      ∙ update_twice tid (update q.ref (g q.ref ++ (q ∷ [])) g) g b

  advanced_comm :
      (c : ℕ) (rest : List (Payload P)) (r : Task T × List (Sent P)) (w : Workgroup P T)
      → advanced rt tid c (added (w.buffers tid) c q rest) r (buffer_payload tid q w)
        ≡ buffer_payload tid q (advanced rt tid c rest r w)
  advanced_comm c rest r w =
      ap (λ b. record (after_call tid r w) { buffers = b })
        (two_queues tid w c q.ref (added (w.buffers tid) c q rest) (w.buffers tid q.ref ++ (q ∷ []))
          ∙ ap (λ g. update tid g w.buffers) (queues_comm (w.buffers tid) c q rest)
          ∙ sym (add_over (update c rest (w.buffers tid)) w.buffers))

  advanced_empty :
      (r : Task T × List (Sent P)) (w : Workgroup P T)
      → w.buffers tid q.ref ≡ []
      → advanced rt tid q.ref [] r (buffer_payload tid q w) ≡ after_call tid r w
  advanced_empty r w e =
      ap (λ b. record (after_call tid r w) { buffers = b })
        (two_queues tid w q.ref q.ref [] (w.buffers tid q.ref ++ (q ∷ []))
          ∙ ap (λ g. update tid g w.buffers)
              (update_twice q.ref [] (w.buffers tid q.ref ++ (q ∷ [])) (w.buffers tid)
                ∙ ap (λ xs. update q.ref xs (w.buffers tid)) (sym e)
                ∙ update_id q.ref (w.buffers tid))
          ∙ update_id tid w.buffers)

  -- The case of an empty queue: the payload is read at once or stays queued.
  late_stop :
      (m N : ℕ) (w w2 : Workgroup P T) (t : Task T)
      → m ≤ N
      → w.active ≡ tid
      → w.tasks tid ≡ some t
      → t.continuation < length rt.continuations
      → w.buffers tid t.continuation ≡ []
      → resume rt m tid q w ≡ ok w2
      → try_continue rt (suc N) tid (buffer_payload tid q w) ≡ ok w2
  late_stop m N w w2 t le a here reg e late = elim (eq_or_ne t.continuation q.ref) [
    | inl c ↦
        let (k, known) = get_elem?-lt rt.continuations t.continuation reg in
        let r = k w.this_index tid t q in
        let empty = subst (λ i. w.buffers tid i ≡ []) c e in
        let early : try_continue rt (suc N) tid (buffer_payload tid q w) ≡ (
            if r.0.active
            then try_continue rt N tid (after_call tid r w)
            else ok (after_call tid r w)) =
          try_continue_step rt N tid t (buffer_payload tid q w) q [] k a here
            (ap (λ g. g t.continuation) (buffered_own tid w q)
              ∙ ap (update q.ref (w.buffers tid q.ref ++ (q ∷ [])) (w.buffers tid)) c
              ∙ update_self q.ref (w.buffers tid q.ref ++ (q ∷ [])) (w.buffers tid)
              ∙ ap (λ xs. xs ++ (q ∷ [])) empty)
            (sym c) known
          ∙ ap (λ v. if r.0.active then try_continue rt N tid v else ok v)
              (ap (λ i. advanced rt tid i [] r (buffer_payload tid q w)) c
                ∙ advanced_empty r w empty) in
        let direct =
          sym (
            resume_accept rt m tid t q k w here c
              (subst (λ i. get_elem? rt.continuations i ≡ some k) c known))
          ∙ late in
        early
        ∙ if_mono r.0.active (try_continue rt m tid (after_call tid r w))
            (try_continue rt N tid (after_call tid r w)) (ok (after_call tid r w))
            (try_continue_mono rt m N tid (after_call tid r w) w2 le) direct
    | inr d ↦
        try_continue_stop rt N tid t (buffer_payload tid q w) a here (
          ap (λ g. g t.continuation) (buffered_own tid w q)
          ∙ update_ne q.ref t.continuation (w.buffers tid q.ref ++ (q ∷ [])) (w.buffers tid) d
          ∙ e)
        ∙ sym (
            resume_reject rt m tid q w
              (λ t' h. subst (λ u. u.continuation ≢ q.ref) (some-injective (sym here ∙ h)) d))
        ∙ late
  ]

  -- A payload that is queued before the rounds of `try_continue_` has the effect of one that
  -- arrives after them.
  pub try_continue_late :
      (proper : IsProper rt) (n m N : ℕ) (w w1 w2 : Workgroup P T) (t : Task T)
      → n + m ≤ N
      → w.active ≡ tid
      → w.tasks tid ≡ some t
      → t.continuation < length rt.continuations
      → IsFiled w
      → try_continue rt n tid w ≡ ok w1
      → resume rt m tid q w1 ≡ ok w2
      → try_continue rt N tid (buffer_payload tid q w) ≡ ok w2
  unfolding try_continue
  try_continue_late proper zero m N w w1 w2 t le a here reg filed run late = cc
  try_continue_late proper (suc n) m zero w w1 w2 t le a here reg filed run late = ground arith
  try_continue_late proper (suc n) m (suc N) w w1 w2 t le a here reg filed run late =
      elim (List-cases (w.buffers tid t.continuation)) [
        | inl e ↦
            let same = ok-injective (sym (try_continue_stop rt n tid t w a here e) ∙ run) in
            late_stop m N w w2 t (omega arith) a here reg e
              (subst (λ v. resume rt m tid q v ≡ ok w2) (sym same) late)
        | inr (p, rest, e) ↦
            let (k, known) = get_elem?-lt rt.continuations t.continuation reg in
            let r = k w.this_index tid t p in
            let c = t.continuation in
            let next = advanced rt tid c rest r w in
            let head = subst (All (λ p'. p'.ref ≡ c)) e (filed tid c) in
            let direct =
              sym (try_continue_step rt n tid t w p rest k a here e head.0 known) ∙ run in
            let early : try_continue rt (suc N) tid (buffer_payload tid q w) ≡ (
                if r.0.active
                then try_continue rt N tid (buffer_payload tid q next)
                else ok (buffer_payload tid q next)) =
              try_continue_step rt N tid t (buffer_payload tid q w) p
                (added (w.buffers tid) c q rest) k a here
                (ap (λ g. g c) (buffered_own tid w q) ∙ queue_front (w.buffers tid) c q rest p e)
                head.0 known
              ∙ ap (λ v. if r.0.active then try_continue rt N tid v else ok v)
                  (advanced_comm c rest r w) in
            early ∙ (elim (Bool-cases r.0.active) [
              | inl kept ↦
                  ap
                    (λ b.
                      if b
                      then try_continue rt N tid (buffer_payload tid q next)
                      else ok (buffer_payload tid q next))
                    kept
                  ∙ try_continue_late proper n m N next w1 w2 r.0 (omega arith) refl
                      (advanced_kept rt tid c rest r w kept)
                      (proper.continues c k known w.this_index tid t p reg)
                      (with_queue-IsFiled tid c rest (after_call tid r w) filed head.1)
                      (sym (ap (λ b. if b then try_continue rt n tid next else ok next) kept)
                        ∙ direct)
                      late
              | inr ended ↦
                  ap
                    (λ b.
                      if b
                      then try_continue rt N tid (buffer_payload tid q next)
                      else ok (buffer_payload tid q next))
                    ended
                  ∙ sym (
                      resume_reject rt m tid q next
                        (λ t' h c'. ground (arith, update_self tid (keep_task r.0) w.tasks)))
                  ∙ subst (λ v. resume rt m tid q v ≡ ok w2)
                      (sym (
                        ok-injective (
                          sym (ap (λ b. if b then try_continue rt n tid next else ok next) ended)
                          ∙ direct)))
                      late
            ])
      ]
