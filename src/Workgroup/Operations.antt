-- ===== src/Workgroup/Operations.antt =====
-- `resume` and `create` of archive/path2.0/include/hypercomm/workgroup.hpp, and settled workgroups.
use charm_experiments.Common.{
  some-injective, eq_or_ne, Bool-cases, Outcome, get_elem?-lt, length, Option-cases, update,
  update_ne, update_self, get_elem?, key_cases, ℕ, ◌<◌, ◌≡◌, refl, sym, ap, subst, ◌∙◌, ◌≢◌, ◌⊎◌,
  inl, inr, Bool, false, none, some, List, [], ◌∷◌, ◌++◌, arith, if◌then◌else◌, ◌>>=◌, ok, nat_eq,
  ℤ,
}
use charm_experiments.Workgroup.{
  insert_task, create, keep_task, try_continue, after_call, Sent, buffer_payload, Payload, Task,
  Workgroup, resumed, TaskId, resume, Registry, task_id_eq,
}
use charm_experiments.Workgroup.Settle.{
  IsProper, resume_task_accept, IsReady, IsFiled, resume_task_reject, IsSettled, queued,
}
use charm_experiments.Workgroup.Total.{buffer_payload-IsFiled, try_continue-Drained, Drained}

module _ {P T : Type 0} (rt : Registry P T) where
  Drained-IsSettled :
      (tid : TaskId) (w w' : Workgroup P T) → IsSettled rt w → Drained rt tid w w' → IsSettled rt w'
  Drained-IsSettled tid w w' s d j t h = elim (key_cases j tid) [
    | inl same ↦
        subst (λ i. IsReady rt w' i t) (sym same)
          (d.ready t (subst (λ i. w'.tasks i ≡ some t) same h))
    | inr other ↦
        let old = s j t (sym (d.other_tasks j other) ∙ h) in
        record {
          live = old.live;
          registered = old.registered;
          drained = ap (λ f. f t.continuation) (d.other_buffers j other) ∙ old.drained;
        }
  ]

  -- A payload that its task does not wait for is put away.
  queue_unread :
      (tid : TaskId) (p : Payload P) (w : Workgroup P T)
      → ((t : Task T) → w.tasks tid ≡ some t → t.continuation ≢ p.ref)
      → (j : TaskId) (t : Task T) → w.tasks j ≡ some t
      → (buffer_payload tid p w).buffers j t.continuation ≡ w.buffers j t.continuation
  queue_unread tid p w unread j t h = elim (key_cases j tid) [
    | inl same ↦
        ap (λ f. f t.continuation)
          (subst
            (λ i.
              (buffer_payload tid p w).buffers i
              ≡ update p.ref (w.buffers tid p.ref ++ (p ∷ [])) (w.buffers tid))
            (sym same) (update_self tid _ w.buffers))
        ∙ update_ne p.ref t.continuation _ (w.buffers tid)
            (unread t (subst (λ i. w.tasks i ≡ some t) same h))
        ∙ ap (λ i. w.buffers i t.continuation) (sym same)
    | inr other ↦ ap (λ f. f t.continuation) (update_ne tid j _ w.buffers other)
  ]

  buffer_payload-IsSettled :
      (tid : TaskId) (p : Payload P) (w : Workgroup P T)
      → IsSettled rt w
      → ((t : Task T) → w.tasks tid ≡ some t → t.continuation ≢ p.ref)
      → IsSettled rt (buffer_payload tid p w)
  buffer_payload-IsSettled tid p w s unread j t h =
      let old = s j t h in
      record {
        live = old.live;
        registered = old.registered;
        drained = queue_unread tid p w unread j t h ∙ old.drained;
      }

  pub resume_reject :
      (fuel : ℕ) (tid : TaskId) (p : Payload P) (w : Workgroup P T)
      → ((t : Task T) → w.tasks tid ≡ some t → t.continuation ≢ p.ref)
      → resume rt fuel tid p w ≡ ok (buffer_payload tid p w)
  unfolding resume resumed
  resume_reject fuel tid p w h =
      ap (λ o. o >>= resumed rt fuel tid p w) (resume_task_reject rt (w.tasks tid) tid p w h)

  pub resume_accept :
      (fuel : ℕ) (tid : TaskId) (t : Task T) (p : Payload P)
      (k : ℤ → TaskId → Task T → Payload P → Task T × List (Sent P)) (w : Workgroup P T)
      → w.tasks tid ≡ some t
      → t.continuation ≡ p.ref
      → get_elem? rt.continuations p.ref ≡ some k
      → resume rt fuel tid p w ≡ (
          if (k w.this_index tid t p).0.active
          then try_continue rt fuel tid (after_call tid (k w.this_index tid t p) w)
          else ok (after_call tid (k w.this_index tid t p) w))
  unfolding resume resumed
  resume_accept fuel tid t p k w here c f =
      ap (λ o. o >>= resumed rt fuel tid p w) (resume_task_accept rt tid t p k w here c f)

  after_call-Drained :
      (tid : TaskId) (r : Task T × List (Sent P)) (w : Workgroup P T)
      → IsFiled w
      → r.0.active ≡ false
      → Drained rt tid w (after_call tid r w)
  after_call-Drained tid r w f e = record {
    ready = λ t h. ground (arith, update_self tid (keep_task r.0) w.tasks);
    filed = f;
    same_active = refl;
    other_tasks = λ j h. update_ne tid j (keep_task r.0) w.tasks h;
    other_buffers = λ j h. refl;
  }

  after_call_others :
      (tid : TaskId) (r : Task T × List (Sent P)) (w w' : Workgroup P T)
      → Drained rt tid (after_call tid r w) w'
      → Drained rt tid w w'
  after_call_others tid r w w' d = record {
    ready = d.ready;
    filed = d.filed;
    same_active = d.same_active;
    other_tasks = λ j h. d.other_tasks j h ∙ update_ne tid j (keep_task r.0) w.tasks h;
    other_buffers = d.other_buffers;
  }

  inserted_others :
      (tid : TaskId) (t : Task T) (w next w' : Workgroup P T)
      → next.tasks ≡ update tid (some t) w.tasks
      → next.buffers ≡ w.buffers
      → Drained rt tid next w'
      → Drained rt tid w w'
  inserted_others tid t w next w' e b d = record {
    ready = d.ready;
    filed = d.filed;
    same_active = d.same_active;
    other_tasks = λ j h. d.other_tasks j h ∙ ap (λ f. f j) e ∙ update_ne tid j (some t) w.tasks h;
    other_buffers = λ j h. d.other_buffers j h ∙ ap (λ f. f j) b;
  }

  -- whether the task waits for a payload
  pub waits_or_not :
      (tid : TaskId) (p : Payload P) (w : Workgroup P T)
      → ((t : Task T) × (w.tasks tid ≡ some t) × (t.continuation ≡ p.ref))
        ⊎ ((t : Task T) → w.tasks tid ≡ some t → t.continuation ≢ p.ref)
  waits_or_not tid p w = elim (Option-cases (w.tasks tid)) [
    | inl e ↦ inr (λ t h c. cc)
    | inr (t, e) ↦ elim (eq_or_ne t.continuation p.ref) [
      | inl c ↦ inl (t, e, c)
      | inr d ↦ inr (λ t' h. subst (λ u. u.continuation ≢ p.ref) (some-injective (sym e ∙ h)) d)
    ]
  ]

  module _ (proper : IsProper rt) (fuel : ℕ) (tid : TaskId) (p : Payload P) (w : Workgroup P T)
      (settled : IsSettled rt w) (filed : IsFiled w)
      (enough : queued (length rt.continuations) (w.buffers tid) < fuel) where
    resume_run :
        (t : Task T)
        → w.tasks tid ≡ some t
        → t.continuation ≡ p.ref
        → (w' : Workgroup P T) × (resume rt fuel tid p w ≡ ok w') × Drained rt tid w w'
    resume_run t here c =
        let registered =
          subst (λ i. i < length rt.continuations) c (settled tid t here).registered in
        let (k, known) = get_elem?-lt rt.continuations p.ref registered in
        let r = k w.this_index tid t p in
        let next = after_call tid r w in
        let step = resume_accept fuel tid t p k w here c known in
        let branch : Bool → Outcome (Workgroup P T) =
          λ b. if b then try_continue rt fuel tid next else ok next in
        elim (Bool-cases r.0.active) [
          | inl kept ↦
              let (w', run, d) =
                try_continue-Drained rt tid proper fuel next r.0 refl
                  (ground (arith, update_self tid (keep_task r.0) w.tasks)) kept
                  (proper.continues p.ref k known w.this_index tid t p
                    (settled tid t here).registered)
                  filed enough in
              (w', step ∙ ap branch kept ∙ run, after_call_others tid r w w' d)
          | inr ended ↦ (next, step ∙ ap branch ended, after_call-Drained tid r w filed ended)
        ]

    -- If the tasks' code names registered continuations only: from a settled workgroup (each task
    -- is active, waits for a registered continuation, and has no payload for it queued) whose
    -- queues are in order (each holds payloads of its own number), and with fuel above the number
    -- of payloads queued for the task, `resume` returns; it leaves the workgroup settled, its
    -- queues in order, and the tasks and the queues of all other task ids unchanged.
    pub resume_settles :
        (w' : Workgroup P T) × (resume rt fuel tid p w ≡ ok w')
        × IsSettled rt w'
        × IsFiled w'
        × ((j : TaskId) → j ≢ tid → w'.tasks j ≡ w.tasks j)
        × ((j : TaskId) → j ≢ tid → w'.buffers j ≡ w.buffers j)
    resume_settles = elim (waits_or_not tid p w) [
      | inl (t, here, c) ↦
          let (w', run, d) = resume_run t here c in
          (w', run, Drained-IsSettled tid w w' settled d, d.filed, d.other_tasks, d.other_buffers)
      | inr unread ↦ (
        buffer_payload tid p w,
        resume_reject fuel tid p w unread,
        buffer_payload-IsSettled tid p w settled unread,
        buffer_payload-IsFiled tid p w filed,
        λ j h. refl,
        λ j h. update_ne tid j _ w.buffers h,
      )
    ]

    -- If the tasks' code names registered continuations only: from a settled workgroup whose queues
    -- are in order and that does not have the task, and with fuel above the number of payloads
    -- queued for it, `create` with a registered kind returns a settled workgroup with its queues in
    -- order.
    pub create_settles :
        (kind : ℕ)
        → kind < length rt.creators
        → w.tasks tid ≡ none
        → (w' : Workgroup P T) × (create rt fuel tid kind p w ≡ ok w')
          × IsSettled rt w'
          × IsFiled w'
    unfolding create insert_task
    create_settles kind lt absent =
        let (k, known) = get_elem?-lt rt.creators kind lt in
        let r = k w.this_index tid p in
        let w1 = record w { active = tid; net = w.net ++ r.1 } in
        let branch : Bool → Outcome (Workgroup P T) =
          λ b. if b then insert_task rt fuel tid none r.0 w1 else ok w1 in
        let step : create rt fuel tid kind p w ≡ branch r.0.active = simp (create, known, absent) in
        elim (Bool-cases r.0.active) [
          | inl kept ↦
              let next = record w1 { tasks = update tid (some r.0) w1.tasks } in
              let (w', run, d) =
                try_continue-Drained rt tid proper fuel next r.0 refl
                  (update_self tid (some r.0) w1.tasks) kept
                  (proper.creates kind k known w.this_index tid p kept) filed enough in
              (
                w',
                step ∙ ap branch kept ∙ run,
                Drained-IsSettled tid w w' settled (inserted_others tid r.0 w next w' refl refl d),
                d.filed,
              )
          | inr ended ↦ (
            w1,
            step ∙ ap branch ended,
            (λ j t h. record {
              live = (settled j t h).live;
              registered = (settled j t h).registered;
              drained = (settled j t h).drained;
            }),
            filed,
          )
        ]
