-- ===== src/Lfq/Tester/Orders.antt =====
-- archive/lfq/tester.cc in every order of the turns of its processes, and that it ends.
use charm_experiments.Common.{
  ℕ, zero, suc, ◌+◌, ◌≤◌, ◌<◌, ◌≡◌, refl, ap, subst, ◌∙◌, ◌⊎◌, inl, inr, true, List, [], ◌∷◌, ◌++◌,
  arith, if◌then◌else◌, leb, ok, ◌>>=◌, nat_eq,
}
use charm_experiments.Lfq.{enqueue, dequeue}
use charm_experiments.Lfq.Tester.{
  Proc, TestRun, peer_of, proc_eq, proc_0, proc_1, sent_turn, received_turn, proc_turn, test_turns,
  test_start,
}
use charm_experiments.Lfq.Tester.Course.{IsOnCourse, received_in, length-numbers_from}
use charm_experiments.Lfq.Tester.Progress.{progress, IsStuck, stuck_lem, progress_lem}
use charm_experiments.Lfq.Tester.Turns.{turn_goes}

pub start-IsOnCourse : IsOnCourse test_start
start-IsOnCourse = record {
  channels = λ u. record {
    left = 0;
    adds_up = refl;
    held = record {
      counted = refl;
      bounded = omega arith;
      in_range = omega arith;
      front = refl;
      values = λ i lt. refl;
    };
    head_is = refl;
  };
  loops = λ u. ground arith;
}

turns-IsOnCourse :
    (ps : List Proc) (t : TestRun)
    → IsOnCourse t
    → (r : TestRun) × (test_turns ps t ≡ ok r) × IsOnCourse r
turns-IsOnCourse [] t inv = (t, refl, inv)
turns-IsOnCourse (p ∷ ps) t inv =
    let turn = turn_goes p t inv in
    let (r, goes, stays) = turns-IsOnCourse ps turn.next turn.stays in
    (r, ap (λ o. o >>= test_turns ps) turn.goes ∙ goes, stays)

-- In every order of the turns of the two processes no assertion fails, neither the test of the number
-- that was received nor those of the queue, and afterwards each queue holds just the numbers, in the
-- order of their sending, that its owner's peer has sent and the owner has not received.
pub test_turns-IsOnCourse :
    (ps : List Proc) → (r : TestRun) × (test_turns ps test_start ≡ ok r) × IsOnCourse r
test_turns-IsOnCourse ps = turns-IsOnCourse ps test_start start-IsOnCourse

-- Each process takes a turn, `n` times.
abbrev pub rounds : ℕ → List Proc
rounds zero = []
rounds (suc n) = proc_0 ∷ proc_1 ∷ rounds n

-- Both processes have ended, and nothing is left in the queues.
pub record IsOver (t : TestRun) : Type 0 where
  pub ends_0 : (t.places proc_0).iteration ≡ 16
  pub ends_1 : (t.places proc_1).iteration ≡ 16
  pub empties : (u : Proc) → (t.mine u).count ≡ 0

on_course_over_lem :
    (t : TestRun)
    → IsOnCourse t
    → ((t.places proc_0).iteration ≡ 16) × ((t.places proc_1).iteration ≡ 16)
    → IsOver t
on_course_over_lem t inv (a, b) = record { ends_0 = a; ends_1 = b; empties = λ u. emptied u }
  where
    emptied : (u : Proc) → (t.mine u).count ≡ 0
    emptied proc_0 =
        let ch = inv.channels proc_0 in
        ground (
          arith,
          ch.held.counted,
          ch.adds_up,
          length-numbers_from (received_in (t.places proc_0)) ch.left,
          inv.loops proc_0,
          inv.loops proc_1,
          a,
          b,
        )
    emptied proc_1 =
        let ch = inv.channels proc_1 in
        ground (
          arith,
          ch.held.counted,
          ch.adds_up,
          length-numbers_from (received_in (t.places proc_1)) ch.left,
          inv.loops proc_0,
          inv.loops proc_1,
          a,
          b,
        )

-- One round moves on, unless both processes have ended.
round_lem :
    (t : TestRun) (inv : IsOnCourse t)
    → IsOver t
      ⊎ (progress t
          < progress
              (turn_goes proc_1 (turn_goes proc_0 t inv).next (turn_goes proc_0 t inv).stays).next)
round_lem t inv =
    let first = turn_goes proc_0 t inv in
    let second = turn_goes proc_1 first.next first.stays in
    elim first.moves [
      | inl (same, stuck_0) ↦ elim second.moves [
        | inl (same', stuck_1) ↦ inl (
            on_course_over_lem t inv
              (stuck_lem t inv stuck_0 (subst (IsStuck proc_1) same stuck_1)))
        | inr more ↦ inr (omega (arith, more, ap progress same))
      ]
      | inr more ↦ elim second.moves [
        | inl (same', stuck_1) ↦ inr (omega (arith, more, ap progress same'))
        | inr more' ↦ inr (omega (arith, more, more'))
      ]
    ]

ended_turn : (p : Proc) (t : TestRun) → (t.places p).iteration ≡ 16 → proc_turn p t ≡ ok t
unfolding proc_turn
ended_turn p t over =
    let done : leb 16 (t.places p).iteration ≡ true = ground (arith, over) in
    ap
      (λ b.
        if b
        then ok t
        else if (t.places p).sending
        then (enqueue 16 (t.places p).number_at (t.mine (peer_of p)) >>= λ a. ok (sent_turn p t a))
        else (dequeue 16 (t.mine p) >>= received_turn p t))
      done

over_rounds : (n : ℕ) (t : TestRun) → IsOver t → test_turns (rounds n) t ≡ ok t
over_rounds zero t over = refl
over_rounds (suc n) t over =
    ap (λ o. o >>= test_turns (proc_1 ∷ rounds n)) (ended_turn proc_0 t over.ends_0)
    ∙ ap (λ o. o >>= test_turns (rounds n)) (ended_turn proc_1 t over.ends_1)
    ∙ over_rounds n t over

rounds-IsOver :
    (n : ℕ) (t : TestRun)
    → IsOnCourse t
    → 1024 ≤ n + progress t
    → (r : TestRun) × (test_turns (rounds n) t ≡ ok r) × IsOver r
rounds-IsOver zero t inv many =
    (t, refl, on_course_over_lem t inv (progress_lem t inv (omega (arith, many))))
rounds-IsOver (suc n) t inv many = elim (round_lem t inv) [
  | inl over ↦ (t, over_rounds (suc n) t over, over)
  | inr more ↦
      let first = turn_goes proc_0 t inv in
      let second = turn_goes proc_1 first.next first.stays in
      let (r, goes, over) = rounds-IsOver n second.next second.stays (omega (arith, many, more)) in
      (
        r,
        ap (λ o. o >>= test_turns (proc_1 ∷ rounds n)) first.goes
            ∙ ap (λ o. o >>= test_turns (rounds n)) second.goes
            ∙ goes,
        over,
      )
]

turns-IsOver :
    (ps : List Proc) (n : ℕ) (t : TestRun)
    → IsOnCourse t
    → 1024 ≤ n
    → (r : TestRun) × (test_turns (ps ++ rounds n) t ≡ ok r) × IsOver r
turns-IsOver [] n t inv enough = rounds-IsOver n t inv (omega (arith, enough))
turns-IsOver (p ∷ ps) n t inv enough =
    let turn = turn_goes p t inv in
    let (r, goes, over) = turns-IsOver ps n turn.next turn.stays enough in
    (r, ap (λ o. o >>= test_turns (ps ++ rounds n)) turn.goes ∙ goes, over)

-- After any order of turns, 1024 or more rounds in which each process takes a turn bring both processes
-- to the end of their 16 iterations, with nothing left in the queues: the processes never wait for
-- each other for ever.
pub test_turns-IsOver :
    (ps : List Proc) (n : ℕ)
    → 1024 ≤ n
    → (r : TestRun) × (test_turns (ps ++ rounds n) test_start ≡ ok r) × IsOver r
test_turns-IsOver ps n enough = turns-IsOver ps n test_start start-IsOnCourse enough
