-- ===== src/Warp/Once.antt =====
-- `__run_once` of warp/warp.hpp with the tasks of warp/pingpong.cpp.
use charm_experiments.Warp.Probes.{run_probes-HasStopped}
use charm_experiments.Warp.Turns.{requests}
use charm_experiments.Warp.Answers.{HasCalled, received}
use charm_experiments.Warp.Tally.{IsIn, IsBounded, IsQuiet, IsTally, IsQuiet-trans, IsQuiet-refl}
use charm_experiments.Warp.Pingpong.{pingpong_entry, receive, Pingpong, Settings}
use charm_experiments.Common.{
  length-append, ◌++◌, get_elem?-lt, get_elem?, set, length, ℕ, zero, suc, ◌+◌, ◌*◌, ◌≤◌, ◌<◌, ◌≡◌,
  refl, sym, ap, subst, ◌∙◌, ◌⊎◌, inl, inr, none, some, List, [], ◌∷◌, arith, ◌>>=◌, ok, deref,
  nat_eq,
}
use charm_experiments.Warp.{
  run_once, foreach_send, run_probes, run_entry, EntryInfo, Message, Mpi, Rank,
}
use charm_experiments.Warp.Returns.{foreach_receive-Returns, IsSteady}

length-set : {A : Type 0} (xs : List A) (i : ℕ) (x : A) → length (set xs i x) ≡ length xs
length-set [] i x = refl
length-set (y ∷ ys) zero x = refl
length-set (y ∷ ys) (suc i) x = ap suc (length-set ys i x)

module _ {M V : Type 0} (mpi : Mpi M V) (budget : M → ℕ) (c : Settings) (n : ℕ)
    (bounded : IsBounded mpi budget c.receive_index n) (tested : M → ℕ → Type 0) (come went : M → ℕ)
    (tally : IsTally mpi tested come went) where
  -- Where the loop over the receives is that `s0` entered: of the requests that were ahead of it then,
  -- MPI_Test has been called for all but those that still are, each message that has come has been
  -- answered by one, and a request is only lost with its message.
  pub record IsUnderWay (s0 s : Rank M V Pingpong) : Type 0 where
    pub has_tasks : length s.tasks ≡ n
    pub same_probes : s.probes ≡ s0.probes
    pub answered : come s.mpi + went s0.mpi ≡ come s0.mpi + went s.mpi
    pub at_most : requests s ≤ requests s0
    pub at_least : requests s0 + come s0.mpi ≤ requests s + come s.mpi
    pub seen : (e : ℕ × Message V) → IsIn e s0.ahead → IsIn e s.ahead ⊎ tested s.mpi e.0

  module _ (table : List (EntryInfo M V Pingpong))
      (entry : get_elem? table c.receive_index ≡ some (pingpong_entry mpi c)) where
    ran :
        (m : Message V) (s : Rank M V Pingpong) (t t' : Pingpong) (s1 : Rank M V Pingpong)
        → m.ep ≡ c.receive_index
        → get_elem? s.tasks m.obj ≡ some t
        → receive mpi c t m s ≡ ok (t', s1)
        → run_entry mpi table m s ≡ ok (record s1 { tasks = set s1.tasks m.obj t' })
    unfolding run_entry
    ran m s t t' s1 ep found returns =
        ap
          (λ o. deref o >>= λ e. deref (get_elem? s.tasks m.obj) >>= λ t.
            e.fn t m s >>= λ r. ok (record r.1 { tasks = set r.1.tasks m.obj r.0 }))
          (ap (get_elem? table) ep ∙ entry)
        ∙ ap
            (λ o. deref o >>= λ t.
              receive mpi c t m s >>= λ r. ok (record r.1 { tasks = set r.1.tasks m.obj r.0 }))
            found
        ∙ ap (λ o. o >>= λ r. ok (record r.1 { tasks = set r.1.tasks m.obj r.0 })) returns

    entered :
        (m : Message V) (s : Rank M V Pingpong)
        → m.ep ≡ c.receive_index
        → m.obj < n
        → length s.tasks ≡ n
        → (t' : Pingpong) × (s1 : Rank M V Pingpong) × (run_entry mpi table m s
            ≡ ok (record s1 { tasks = set s1.tasks m.obj t' }))
          × HasCalled mpi budget c n bounded tested come went tally 1 1 s s1
    entered m s ep obj tasks =
        let (t, found) = get_elem?-lt s.tasks m.obj (omega (arith, obj, tasks)) in
        let (t', s1, returns, called) =
          received mpi budget c n bounded tested come went tally t m s in
        (t', s1, ran m s t t' s1 ep found returns, called)

    passed_on_lem :
        (s0 s : Rank M V Pingpong) (e : ℕ × Message V) (rest : List (ℕ × Message V))
        → s.ahead ≡ e ∷ rest
        → IsUnderWay s0 s
        → (mpi.test_receive e.0 s.mpi).0 ≡ none
        → IsUnderWay s0 (record s {
          passed = s.passed ++ (e ∷ []);
          ahead = rest;
          mpi = (mpi.test_receive e.0 s.mpi).1;
        })
    passed_on_lem s0 s e rest ahead inv none_yet =
        let quiet = tally.waits_quiet e.0 s.mpi none_yet in
        let size : length s.ahead ≡ suc (length rest) = ap length ahead in
        record {
          has_tasks = inv.has_tasks;
          same_probes = inv.same_probes;
          answered = omega (arith, inv.answered, quiet.same_come, quiet.same_went);
          at_most = omega (arith, inv.at_most, size, length-append s.passed (e ∷ []));
          at_least =
              omega (arith, inv.at_least, size, length-append s.passed (e ∷ []), quiet.same_come);
          seen = λ x h. elim (inv.seen x h) [
            | inl there ↦ elim (subst (IsIn x) ahead there) [
              | inl same ↦ inr (
                  subst (λ y. tested (mpi.test_receive e.0 s.mpi).1 y.0) (sym same)
                    (tally.now_tested e.0 s.mpi))
              | inr later ↦ inl later
            ]
            | inr done ↦ inr (tally.receive_tested e.0 s.mpi x.0 done)
          ];
        }

    handled_lem :
        (s0 s : Rank M V Pingpong) (e : ℕ × Message V) (rest : List (ℕ × Message V)) (m : Message V)
        (t' : Pingpong) (s1 : Rank M V Pingpong)
        → s.ahead ≡ e ∷ rest
        → IsUnderWay s0 s
        → (mpi.test_receive e.0 s.mpi).0 ≡ some m
        → HasCalled mpi budget c n bounded tested come went tally 1 1
            (record s { ahead = rest; mpi = (mpi.test_receive e.0 s.mpi).1 })
            s1
        → IsUnderWay s0 (record s1 { tasks = set s1.tasks m.obj t' })
    handled_lem s0 s e rest m t' s1 ahead inv come_now called =
        let size : length s.ahead ≡ suc (length rest) = ap length ahead in
        let more = tally.come_more e.0 s.mpi m come_now in
        record {
          has_tasks = length-set s1.tasks m.obj t' ∙ ap length called.same_tasks ∙ inv.has_tasks;
          same_probes = called.same_probes ∙ inv.same_probes;
          answered = omega (
            arith,
            inv.answered,
            more,
            called.same_come,
            called.went_more,
            tally.receive_went e.0 s.mpi,
          );
          at_most = omega (arith, inv.at_most, size, called.at_most);
          at_least = omega (arith, inv.at_least, size, called.at_least, more, called.same_come);
          seen = λ x h. elim (inv.seen x h) [
            | inl there ↦ elim (subst (IsIn x) ahead there) [
              | inl same ↦ inr (
                  called.still_tested x.0 (
                    subst (λ y. tested (mpi.test_receive e.0 s.mpi).1 y.0) (sym same)
                      (tally.now_tested e.0 s.mpi)))
              | inr later ↦ inl (called.ahead_kept x later)
            ]
            | inr done ↦ inr (called.still_tested x.0 (tally.receive_tested e.0 s.mpi x.0 done))
          ];
        }

    pingpong-IsSteady : (s0 : Rank M V Pingpong) → IsSteady mpi table (IsUnderWay s0) budget
    pingpong-IsSteady s0 = record {
      waits = λ s e rest ahead inv none_yet.
          (passed_on_lem s0 s e rest ahead inv none_yet, bounded.test_receive_keeps e.0 s.mpi);
      comes = λ s e rest m ahead inv come_now.
          let (less, ep, obj) = bounded.test_receive_some e.0 s.mpi m come_now in
          let (t', s1, ret, called) =
            entered m (record s { ahead = rest; mpi = (mpi.test_receive e.0 s.mpi).1 }) ep obj
              inv.has_tasks in
          (
            record s1 { tasks = set s1.tasks m.obj t' },
            ret,
            handled_lem s0 s e rest m t' s1 ahead inv come_now called,
            omega (arith, less, called.in_budget),
            called.few,
          );
    }

    foreach_send-IsQuiet :
        (l : List (ℕ × Message V)) (w : M) → IsQuiet tested come went w (foreach_send mpi l w).1
    unfolding foreach_send
    foreach_send-IsQuiet [] w = IsQuiet-refl tested come went w
    foreach_send-IsQuiet ((req, m) ∷ rest) w =
        IsQuiet-trans tested come went w (mpi.test_send req w).1 _ (tally.test_send_quiet req w)
          (foreach_send-IsQuiet rest (mpi.test_send req w).1)

    budget-foreach_send :
        (l : List (ℕ × Message V)) (w : M) → budget (foreach_send mpi l w).1 ≤ budget w
    unfolding foreach_send
    budget-foreach_send [] w = omega arith
    budget-foreach_send ((req, m) ∷ rest) w =
        omega
          (arith, budget-foreach_send rest (mpi.test_send req w).1, bounded.test_send_keeps req w)

    -- What `__run_once` has made of a rank.
    pub record IsDone (s s' : Rank M V Pingpong) : Type 0 where
      pub has_tasks : length s'.tasks ≡ n
      pub all_tested : (e : ℕ × Message V) → IsIn e (s.passed ++ s.ahead) → tested s'.mpi e.0
      pub answered : come s'.mpi + went s.mpi ≡ come s.mpi + went s'.mpi
      pub none_new : requests s' + length s'.probes ≤ requests s + length s.probes
      pub none_lost :
          requests s + length s.probes + come s.mpi ≤ requests s' + length s'.probes + come s'.mpi
      pub stopped :
          (s'.probes ≡ [])
          ⊎ ((w : M) × (p : ℕ × ℕ × ℕ) × (rest : List (ℕ × ℕ × ℕ)) × (s'.probes ≡ p ∷ rest)
              × ((mpi.iprobe p.2 w).0 ≡ none)
              × (s'.mpi ≡ (mpi.iprobe p.2 w).1))

    all_seen :
        (s0 s : Rank M V Pingpong)
        → IsUnderWay s0 s
        → s.ahead ≡ []
        → (e : ℕ × Message V) → IsIn e s0.ahead
        → tested s.mpi e.0
    all_seen s0 s inv none_left e h = elim (inv.seen e h) [
      | inl there ↦ elim (subst (IsIn e) none_left there) [ ]
      | inr done ↦ done
    ]

    -- With `n` tasks, the entry of `receive` in the table and messages that are bounded by the budget,
    -- `__run_once` returns on fuel above the number of receives and twice the budget. The `n` tasks are
    -- there; MPI_Test has been called for each receive that there was; as many messages have been sent
    -- as have come; there are not more receives and probes than before, and fewer at most by the messages
    -- that have come; and no probe is left, or the last call of MPI told that the message of the first
    -- one left has not come. `tested`, `come` and `went` are any record of the calls of MPI.
    pub run_once-IsDone :
        (fuel : ℕ) (s : Rank M V Pingpong)
        → length s.tasks ≡ n
        → length s.passed + length s.ahead + 2 * budget s.mpi < fuel
        → (s' : Rank M V Pingpong) × (run_once mpi table fuel s ≡ ok s') × IsDone s s'
    unfolding run_once
    run_once-IsDone fuel s tasks lt =
        let w = (foreach_send mpi s.sends s.mpi).1 in
        let less = budget-foreach_send s.sends s.mpi in
        let quiet = foreach_send-IsQuiet s.sends s.mpi in
        let s0 : Rank M V Pingpong = record s {
          sends = (foreach_send mpi s.sends s.mpi).0;
          mpi = w;
          passed = [];
          ahead = s.passed ++ s.ahead;
        } in
        let (s1, returns, inv, none_left) =
          foreach_receive-Returns mpi table (IsUnderWay s0) budget (pingpong-IsSteady s0) fuel s0
            (omega (arith, lt, less, length-append s.passed s.ahead))
            (record {
              has_tasks = tasks;
              same_probes = refl;
              answered = refl;
              at_most = omega arith;
              at_least = omega arith;
              seen = λ e h. inl h;
            }) in
        let s2 : Rank M V Pingpong = record s1 { passed = []; ahead = s1.passed } in
        let p = run_probes-HasStopped mpi tested come went tally s1.probes s2 in
        let empty : length s1.ahead ≡ 0 = ap length none_left in
        let probes : length s1.probes ≡ length s.probes = ap length inv.same_probes in
        let size = length-append s.passed s.ahead in
        (
          run_probes mpi s1.probes s2,
          ap (λ o. o >>= λ s. ok (run_probes mpi s.probes s)) returns,
          record {
            has_tasks = ap length p.same_tasks ∙ inv.has_tasks;
            all_tested = λ e h. p.quiet.still_tested e.0 (all_seen s0 s1 inv none_left e h);
            answered = omega (
              arith, inv.answered, quiet.same_come, quiet.same_went, p.quiet.same_come,
              p.quiet.same_went,
            );
            none_new = omega (arith, p.none_lost, inv.at_most, empty, probes, size);
            none_lost = omega (
              arith, p.none_lost, inv.at_least, empty, probes, size, quiet.same_come,
              p.quiet.same_come,
            );
            stopped = p.stopped;
          },
        )
