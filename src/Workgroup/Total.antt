-- ===== src/Workgroup/Total.antt =====
-- The rounds of `try_continue_` of archive/path2.0/include/hypercomm/workgroup.hpp until a task has
-- no payload to read.
use charm_experiments.Common.{
  some-injective, update_pointwise, Bool-cases, get_elem?-lt, List-cases, length, update_ne,
  update_self, All-append, All, update, ℕ, zero, suc, ◌<◌, ◌≡◌, refl, sym, ap, subst, ◌∙◌, ◌≢◌, inl,
  inr, true, false, some, List, [], ◌∷◌, arith, if◌then◌else◌, ok, nat_eq,
}
use charm_experiments.Workgroup.{
  after_call, try_continue, keep_task, with_queue, Sent, buffer_payload, Task, Payload, Workgroup,
  Registry, TaskId, task_id_eq,
}
use charm_experiments.Workgroup.Settle.{
  queued_pop, try_continue_step, try_continue_stop, IsProper, advanced, IsReady, IsFiled, queued,
}

pub with_queue-IsFiled :
    {P T : Type 0} (tid : TaskId) (id : ℕ) (q : List (Payload P)) (w : Workgroup P T)
    → IsFiled w
    → All (λ p. p.ref ≡ id) q
    → IsFiled (with_queue tid id q w)
with_queue-IsFiled tid id q w f h =
    update_pointwise (λ j g. (i : ℕ) → All (λ p. p.ref ≡ i) (g i)) tid _ w.buffers
      (update_pointwise (λ i xs. All (λ p. p.ref ≡ i) xs) id q (w.buffers tid) h (f tid)) f

pub buffer_payload-IsFiled :
    {P T : Type 0} (tid : TaskId) (p : Payload P) (w : Workgroup P T)
    → IsFiled w
    → IsFiled (buffer_payload tid p w)
buffer_payload-IsFiled tid p w f =
    with_queue-IsFiled tid p.ref _ w f
      (All-append (λ q. q.ref ≡ p.ref) (w.buffers tid p.ref) (p ∷ []) (f tid p.ref) (refl, tt))

module _ {P T : Type 0} (rt : Registry P T) (tid : TaskId) where
  -- The task `tid` is settled in `w'`, and the other tasks are as they were in `w`.
  pub record Drained (w w' : Workgroup P T) : Type 0 where
    pub ready : (t : Task T) → w'.tasks tid ≡ some t → IsReady rt w' tid t
    pub filed : IsFiled w'
    pub same_active : w'.active ≡ tid
    pub other_tasks : (j : TaskId) → j ≢ tid → w'.tasks j ≡ w.tasks j
    pub other_buffers : (j : TaskId) → j ≢ tid → w'.buffers j ≡ w.buffers j

  module _ (id : ℕ) (rest : List (Payload P)) (r : Task T × List (Sent P)) (w : Workgroup P T) where
    advanced_queues : (advanced rt tid id rest r w).buffers tid ≡ update id rest (w.buffers tid)
    advanced_queues = update_self tid _ w.buffers

    advanced_others : (w' : Workgroup P T) → Drained (advanced rt tid id rest r w) w' → Drained w w'
    advanced_others w' d = record {
      ready = d.ready;
      filed = d.filed;
      same_active = d.same_active;
      other_tasks = λ j h. d.other_tasks j h ∙ update_ne tid j (keep_task r.0) w.tasks h;
      other_buffers = λ j h. d.other_buffers j h ∙ update_ne tid j _ w.buffers h;
    }

    -- The task ended.
    advanced_ended :
        r.0.active ≡ false
        → IsFiled (advanced rt tid id rest r w)
        → Drained w (advanced rt tid id rest r w)
    advanced_ended e f = record {
      ready = λ t h. ground (arith, update_self tid (keep_task r.0) w.tasks);
      filed = f;
      same_active = refl;
      other_tasks = λ j h. update_ne tid j (keep_task r.0) w.tasks h;
      other_buffers = λ j h. update_ne tid j _ w.buffers h;
    }

    pub advanced_kept : r.0.active ≡ true → (advanced rt tid id rest r w).tasks tid ≡ some r.0
    advanced_kept e = ground (arith, update_self tid (keep_task r.0) w.tasks)

  fewer :
      {fuel : ℕ} (id : ℕ) (p : Payload P) (rest : List (Payload P)) (r : Task T × List (Sent P))
      (w : Workgroup P T)
      → id < length rt.continuations
      → w.buffers tid id ≡ p ∷ rest
      → queued (length rt.continuations) (w.buffers tid) < suc fuel
      → queued (length rt.continuations) ((advanced rt tid id rest r w).buffers tid) < fuel
  fewer id p rest r w reg e lt = omega (
    arith,
    ap (queued (length rt.continuations)) (advanced_queues id rest r w),
    queued_pop (length rt.continuations) id p rest (w.buffers tid) reg e,
  )

  at_rest :
      (w : Workgroup P T) (t : Task T)
      → w.tasks tid ≡ some t
      → t.active ≡ true
      → t.continuation < length rt.continuations
      → w.buffers tid t.continuation ≡ []
      → (t' : Task T) → w.tasks tid ≡ some t'
      → IsReady rt w tid t'
  at_rest w t here live reg e t' h =
      subst (IsReady rt w tid) (some-injective (sym here ∙ h))
        (record { live = live; registered = reg; drained = e })

  -- With fuel above the number of payloads queued for a task, `try_continue_` returns and leaves
  -- none for its continuation.
  pub try_continue-Drained :
      (proper : IsProper rt) (fuel : ℕ) (w : Workgroup P T) (t : Task T)
      → w.active ≡ tid
      → w.tasks tid ≡ some t
      → t.active ≡ true
      → t.continuation < length rt.continuations
      → IsFiled w
      → queued (length rt.continuations) (w.buffers tid) < fuel
      → (w' : Workgroup P T) × (try_continue rt fuel tid w ≡ ok w') × Drained w w'
  try_continue-Drained proper zero w t a here live reg filed lt = elim lt [ ]
  try_continue-Drained proper (suc fuel) w t a here live reg filed lt =
      elim (List-cases (w.buffers tid t.continuation)) [
        | inl e ↦ (
          w,
          try_continue_stop rt fuel tid t w a here e,
          record {
            ready = at_rest w t here live reg e;
            filed = filed;
            same_active = a;
            other_tasks = λ j h. refl;
            other_buffers = λ j h. refl;
          },
        )
        | inr (p, rest, e) ↦
            let (k, known) = get_elem?-lt rt.continuations t.continuation reg in
            let r = k w.this_index tid t p in
            let head = subst (All (λ q. q.ref ≡ t.continuation)) e (filed tid t.continuation) in
            let filed' : IsFiled (advanced rt tid t.continuation rest r w) =
              with_queue-IsFiled tid t.continuation rest (after_call tid r w) filed head.1 in
            let step = try_continue_step rt fuel tid t w p rest k a here e head.0 known in
            let next = advanced rt tid t.continuation rest r w in
            elim (Bool-cases r.0.active) [
              | inl kept ↦
                  let (w', run, d) =
                    try_continue-Drained proper fuel (advanced rt tid t.continuation rest r w) r.0
                      refl (advanced_kept t.continuation rest r w kept) kept
                      (proper.continues t.continuation k known w.this_index tid t p reg) filed'
                      (fewer t.continuation p rest r w reg e lt) in
                  (
                    w',
                    step
                        ∙ ap (λ b. if b then try_continue rt fuel tid next else ok next) kept
                        ∙ run,
                    advanced_others t.continuation rest r w w' d,
                  )
              | inr ended ↦ (
                advanced rt tid t.continuation rest r w,
                step ∙ ap (λ b. if b then try_continue rt fuel tid next else ok next) ended,
                advanced_ended t.continuation rest r w ended filed',
              )
            ]
      ]
