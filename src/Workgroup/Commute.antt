-- ===== src/Workgroup/Commute.antt =====
-- Orders of arrival in archive/path2.0/include/hypercomm/workgroup.hpp.
use charm_experiments.Workgroup.Order.{try_continue_mono}
use charm_experiments.Common.{
  get_elem?, update_ne, Outcome, update_comm, update, update_self, ok-injective, some-injective,
  get_elem?-lt, >>=_mono, if_mono, length, ℕ, suc, ◌+◌, ◌≤◌, ◌<◌, ◌≡◌, refl, sym, ap, subst, ◌∙◌,
  ◌≢◌, inl, inr, Bool, true, false, Option, none, some, List, [], ◌∷◌, ◌++◌, arith, if◌then◌else◌,
  ◌>>=◌, ok, nat_eq, ℤ,
}
use charm_experiments.Workgroup.{
  insert_task, Sent, create, keep_task, after_call, resume_task, try_continue, buffer_payload, Task,
  Workgroup, Payload, resume, resumed, TaskId, Registry, task_id_eq,
}
use charm_experiments.Workgroup.Settle.{IsFiled, IsSettled, IsProper, queued}
use charm_experiments.Workgroup.Operations.{
  create_settles, resume_reject, resume_settles, waits_or_not, resume_accept,
}
use charm_experiments.Workgroup.Early.{add_over, try_continue_late}

module _ {P T : Type 0} (rt : Registry P T) (tid : TaskId) where
  resumed_mono :
      (n N : ℕ) (p : Payload P) (w w' : Workgroup P T)
      → n ≤ N
      → (r : Option (Bool × Workgroup P T)) → resumed rt n tid p w r ≡ ok w'
      → resumed rt N tid p w r ≡ ok w'
  unfolding resumed
  resumed_mono n N p w w' le none e = e
  resumed_mono n N p w w' le (some (keep, v)) e =
      if_mono keep (try_continue rt n tid v) (try_continue rt N tid v) (ok v)
        (try_continue_mono rt n N tid v w' le) e

  resume_mono :
      (n N : ℕ) (p : Payload P) (w w' : Workgroup P T)
      → n ≤ N
      → resume rt n tid p w ≡ ok w'
      → resume rt N tid p w ≡ ok w'
  unfolding resume
  resume_mono n N p w w' le e =
      >>=_mono (resume_task rt (w.tasks tid) tid p w) _ _ (resumed_mono n N p w w' le) e

  module _ (proper : IsProper rt) (q : Payload P) (n m N : ℕ) (le : n + m ≤ N) where
    late_branch :
        (b : Bool) (t : Task T) (x w1 w2 : Workgroup P T)
        → x.active ≡ tid
        → x.tasks tid ≡ (if b then some t else none)
        → t.continuation < length rt.continuations
        → IsFiled x
        → (if b then try_continue rt n tid x else ok x) ≡ ok w1
        → resume rt m tid q w1 ≡ ok w2
        → (if b
            then try_continue rt N tid (buffer_payload tid q x)
            else ok (buffer_payload tid q x))
          ≡ ok w2
    late_branch true t x w1 w2 a here reg filed run late =
        try_continue_late rt tid q proper n m N x w1 w2 t le a here reg filed run late
    late_branch false t x w1 w2 a here reg filed run late =
        sym (resume_reject rt m tid q x (λ t' h c. cc))
        ∙ subst (λ v. resume rt m tid q v ≡ ok w2) (sym (ok-injective run)) late

    -- A payload that the task does not wait for comes before one that it waits for.
    overtaken :
        (p : Payload P) (t : Task T) (w w1 w2 : Workgroup P T)
        → w.tasks tid ≡ some t
        → t.continuation ≡ p.ref
        → p.ref < length rt.continuations
        → IsFiled w
        → resume rt n tid p w ≡ ok w1
        → resume rt m tid q w1 ≡ ok w2
        → resume rt N tid p (buffer_payload tid q w) ≡ ok w2
    overtaken p t w w1 w2 here c reg filed run late =
        let (k, known) = get_elem?-lt rt.continuations p.ref reg in
        let r = k w.this_index tid t p in
        resume_accept rt N tid t p k (buffer_payload tid q w) here c known
        ∙ late_branch r.0.active r.0 (after_call tid r w) w1 w2 refl
            (update_self tid (keep_task r.0) w.tasks)
            (proper.continues p.ref k known w.this_index tid t p
              (subst (λ i. i < length rt.continuations) (sym c) reg))
            filed (sym (resume_accept rt n tid t p k w here c known) ∙ run) late

  -- what `create` does where the task is not there
  abbrev entered : ℕ → Bool → Task T → List (Sent P) → Workgroup P T → Outcome (Workgroup P T)
  entered fuel kept t out w =
      if kept
      then try_continue rt fuel tid
          (record w { active = tid; tasks = update tid (some t) w.tasks; net = w.net ++ out })
      else ok (record w { active = tid; net = w.net ++ out })

  create_lem :
      (fuel kind : ℕ) (p : Payload P) (k : ℤ → TaskId → Payload P → Task T × List (Sent P))
      (w : Workgroup P T)
      → get_elem? rt.creators kind ≡ some k
      → w.tasks tid ≡ none
      → create rt fuel tid kind p w
        ≡ (let r = k w.this_index tid p in entered fuel r.0.active r.0 r.1 w)
  unfolding create insert_task
  create_lem fuel kind p k w known absent = simp (create, known, absent)

  create_mono :
      (n N kind : ℕ) (p : Payload P) (w w' : Workgroup P T)
      → n ≤ N
      → kind < length rt.creators
      → w.tasks tid ≡ none
      → create rt n tid kind p w ≡ ok w'
      → create rt N tid kind p w ≡ ok w'
  create_mono n N kind p w w' le lt absent run =
      let (k, known) = get_elem?-lt rt.creators kind lt in
      let r = k w.this_index tid p in
      create_lem N kind p k w known absent
      ∙ if_mono r.0.active _ _ _ (try_continue_mono rt n N tid _ w' le)
          (sym (create_lem n kind p k w known absent) ∙ run)

  entered_late :
      (proper : IsProper rt) (q : Payload P) (n m N : ℕ) (le : n + m ≤ N) (kept : Bool) (t : Task T)
      (out : List (Sent P)) (w w1 w2 : Workgroup P T)
      → (kept ≡ true → t.continuation < length rt.continuations)
      → w.tasks tid ≡ none
      → IsFiled w
      → entered n kept t out w ≡ ok w1
      → resume rt m tid q w1 ≡ ok w2
      → entered N kept t out (buffer_payload tid q w) ≡ ok w2
  entered_late proper q n m N le true t out w w1 w2 reg absent filed run late =
      try_continue_late rt tid q proper n m N
        (record w { active = tid; tasks = update tid (some t) w.tasks; net = w.net ++ out }) w1 w2 t
        le refl (update_self tid (some t) w.tasks) (reg refl) filed run late
  entered_late proper q n m N le false t out w w1 w2 reg absent filed run late =
      sym (resume_reject rt m tid q (record w { active = tid; net = w.net ++ out }) (λ t' h c. cc))
      ∙ subst (λ v. resume rt m tid q v ≡ ok w2) (sym (ok-injective run)) late

  create_late :
      (proper : IsProper rt) (q : Payload P) (n m N : ℕ) (le : n + m ≤ N) (kind : ℕ) (p : Payload P)
      (w w1 w2 : Workgroup P T)
      → kind < length rt.creators
      → w.tasks tid ≡ none
      → IsFiled w
      → create rt n tid kind p w ≡ ok w1
      → resume rt m tid q w1 ≡ ok w2
      → create rt N tid kind p (buffer_payload tid q w) ≡ ok w2
  create_late proper q n m N le kind p w w1 w2 lt absent filed run late =
      let (k, known) = get_elem?-lt rt.creators kind lt in
      let r = k w.this_index tid p in
      create_lem N kind p k (buffer_payload tid q w) known absent
      ∙ entered_late proper q n m N le r.0.active r.0 r.1 w w1 w2
          (proper.creates kind k known w.this_index tid p) absent filed
          (sym (create_lem n kind p k w known absent) ∙ run) late

  buffer_twice :
      (p q : Payload P) (w : Workgroup P T)
      → q.ref ≢ p.ref
      → (buffer_payload tid q (buffer_payload tid p w)).buffers
        ≡ update tid
            (update q.ref
              (w.buffers tid q.ref ++ (q ∷ []))
              (update p.ref (w.buffers tid p.ref ++ (p ∷ [])) (w.buffers tid)))
            w.buffers
  buffer_twice p q w ne =
      let g = update p.ref (w.buffers tid p.ref ++ (p ∷ [])) (w.buffers tid) in
      add_over rt tid q g w.buffers
      ∙ ap (λ xs. update tid (update q.ref (xs ++ (q ∷ [])) g) w.buffers)
          (update_ne p.ref q.ref (w.buffers tid p.ref ++ (p ∷ [])) (w.buffers tid) ne)

  buffer_comm :
      (p q : Payload P) (w : Workgroup P T)
      → p.ref ≢ q.ref
      → buffer_payload tid q (buffer_payload tid p w)
        ≡ buffer_payload tid p (buffer_payload tid q w)
  buffer_comm p q w ne =
      ap (λ b. record w { buffers = b })
        (buffer_twice p q w (λ e. ne (sym e))
          ∙ ap (λ g. update tid g w.buffers)
              (update_comm q.ref p.ref (w.buffers tid q.ref ++ (q ∷ []))
                (w.buffers tid p.ref ++ (p ∷ [])) (w.buffers tid) (λ e. ne (sym e)))
          ∙ sym (buffer_twice q p w ne))

  -- The two orders of arrival of two payloads, with any fuel from `N` on, give `w'`.
  pub SameEither : Payload P → Payload P → Workgroup P T → ℕ → Workgroup P T → Type 0
  SameEither p q w N w' =
      (fuel : ℕ)
      → N ≤ fuel
      → ((resume rt fuel tid p w >>= resume rt fuel tid q) ≡ ok w')
        × ((resume rt fuel tid q w >>= resume rt fuel tid p) ≡ ok w')

  module _ (proper : IsProper rt) (w : Workgroup P T) (settled : IsSettled rt w)
      (filed : IsFiled w) where
    one_waits :
        (p q : Payload P) (t : Task T)
        → w.tasks tid ≡ some t
        → t.continuation ≡ p.ref
        → p.ref ≢ q.ref
        → (N : ℕ) × (w' : Workgroup P T) × SameEither p q w N w'
    unfolding SameEither
    one_waits p q t here c ne =
        let n = suc (queued (length rt.continuations) (w.buffers tid)) in
        let (w1, run, settled1, filed1, _, _) =
          resume_settles rt proper n tid p w settled filed (omega arith) in
        let m = suc (queued (length rt.continuations) (w1.buffers tid)) in
        let (w2, late, _, _, _, _) =
          resume_settles rt proper m tid q w1 settled1 filed1 (omega arith) in
        let unread : (t' : Task T) → w.tasks tid ≡ some t' → t'.continuation ≢ q.ref = λ t' h.
          subst (λ u. u.continuation ≢ q.ref) (some-injective (sym here ∙ h))
            (subst (λ i. i ≢ q.ref) (sym c) ne) in
        (
          n + m,
          w2,
          λ fuel le. (
            ap (λ o. o >>= resume rt fuel tid q) (resume_mono n fuel p w w1 (omega arith) run)
                ∙ resume_mono m fuel q w1 w2 (omega arith) late,
            ap (λ o. o >>= resume rt fuel tid p) (resume_reject rt fuel tid q w unread)
                ∙ overtaken proper q n m fuel le p t w w1 w2 here c
                    (subst (λ i. i < length rt.continuations) c (settled tid t here).registered)
                    filed run late,
          ),
        )

    -- If the tasks' code names registered continuations only: in a settled workgroup whose queues
    -- are in order, two payloads for different continuations of one task have the same effect in
    -- both orders of arrival, whatever the task does with them: from some fuel on, both orders
    -- return the same workgroup.
    pub resume_comm :
        (p q : Payload P) → p.ref ≢ q.ref → (N : ℕ) × (w' : Workgroup P T) × SameEither p q w N w'
    unfolding SameEither
    resume_comm p q ne = elim (waits_or_not rt tid p w) [
      | inl (t, here, c) ↦ one_waits p q t here c ne
      | inr no_p ↦ elim (waits_or_not rt tid q w) [
        | inl (t, here, c) ↦
            let (N, w', same) = one_waits q p t here c (λ e. ne (sym e)) in
            (N, w', λ fuel le. ((same fuel le).1, (same fuel le).0))
        | inr no_q ↦ (
          0,
          buffer_payload tid q (buffer_payload tid p w),
          λ fuel le. (
            ap (λ o. o >>= resume rt fuel tid q) (resume_reject rt fuel tid p w no_p)
                ∙ resume_reject rt fuel tid q (buffer_payload tid p w) no_q,
            ap (λ o. o >>= resume rt fuel tid p) (resume_reject rt fuel tid q w no_q)
                ∙ resume_reject rt fuel tid p (buffer_payload tid q w) no_p
                ∙ ap ok (sym (buffer_comm p q w ne)),
          ),
        )
      ]
    ]

    -- If the tasks' code names registered continuations only: in a settled workgroup whose queues
    -- are in order and that does not have the task, a payload for it may come before or after the
    -- message that creates it: from some fuel on, `resume` then `create` returns the workgroup that
    -- `create` then `resume` returns.
    pub create_comm :
        (p q : Payload P) (kind : ℕ)
        → kind < length rt.creators
        → w.tasks tid ≡ none
        → (N : ℕ) × (w' : Workgroup P T) × ((fuel : ℕ)
            → N ≤ fuel
            → ((create rt fuel tid kind p w >>= resume rt fuel tid q) ≡ ok w')
              × ((resume rt fuel tid q w >>= create rt fuel tid kind p) ≡ ok w'))
    create_comm p q kind lt absent =
        let n = suc (queued (length rt.continuations) (w.buffers tid)) in
        let (w1, run, settled1, filed1) =
          create_settles rt proper n tid p w settled filed (omega arith) kind lt absent in
        let m = suc (queued (length rt.continuations) (w1.buffers tid)) in
        let (w2, late, _, _, _, _) =
          resume_settles rt proper m tid q w1 settled1 filed1 (omega arith) in
        (
          n + m,
          w2,
          λ fuel le. (
            ap (λ o. o >>= resume rt fuel tid q)
                  (create_mono n fuel kind p w w1 (omega arith) lt absent run)
                ∙ resume_mono m fuel q w1 w2 (omega arith) late,
            ap (λ o. o >>= create rt fuel tid kind p) (resume_reject rt fuel tid q w (λ t h c. cc))
                ∙ create_late proper q n m fuel le kind p w w1 w2 lt absent filed run late,
          ),
        )
