-- ===== src/Relay/Course.antt =====
-- The course of archive/xpmem-experiments/tester.cc in every order of the turns of its two sides.
use charm_experiments.Relay.Sides.{msg_of, other, turn_suc, IsOver, one_of_two, turn, IsFlying}
use charm_experiments.Relay.Turn.{
  poll-other, last-IsOver, poll_last, last_state, poll_next, next_state, next-IsFlying,
}
use charm_experiments.Relay.{
  polled, send_queue, in_queue, main_side, new_lfq, send_msg, Sm, dequeue, neighbor_side, schedule,
  start_relay, write_data, poll, same_side, Processes, num_msgs, side_eq, queue_name_eq, Side,
}
use charm_experiments.Lfq.Fifo.{enqueue_room, with_value, with_value-IsFifo, IsFifo}
use charm_experiments.Common.{
  update_self, ℕ, ◌+◌, ◌<◌, ◌≡◌, refl, sym, ap, subst, ◌∙◌, ◌⊎◌, inl, inr, Bool, true, false, ◌&&◌,
  List, [], ◌∷◌, arith, if◌then◌else◌, ◌>>=◌, ok, nat_eq, update, ltb,
}

-- The number of messages that have been received after the turns: one more at each turn of the side
-- whose turn it is.
abbrev pub after_turn : ℕ → Side → ℕ
after_turn k side = if ltb k num_msgs && same_side side (turn k) then k + 1 else k

abbrev pub received : ℕ → List Side → ℕ
received k [] = k
received k (side ∷ sides) = received (after_turn k side) sides

module _ (segid_of data_of : Side → ℕ) where
  -- Message `k` is on its way, or all have been received.
  abbrev pub IsStage : ℕ → Processes → Type 0
  IsStage k w =
      IsFlying segid_of data_of k (turn k) w ⊎ ((k ≡ num_msgs) × IsOver segid_of data_of w)

  abbrev Moves : ℕ → Side → Processes → Type 0
  Moves k side w = (w' : Processes) × (poll segid_of data_of side w ≡ ok w') × IsStage k w'

  at_turn :
      (k : ℕ) (w : Processes) → IsFlying segid_of data_of k (turn k) w → Moves (k + 1) (turn k) w
  at_turn k w fly = elim (lt_or_last k fly.small) [
    | inl lt ↦ (
      next_state segid_of data_of k (turn k) w fly,
      poll_next segid_of data_of k (turn k) w fly lt,
      inl (
          subst
            (λ t.
              IsFlying segid_of data_of (k + 1) t (next_state segid_of data_of k (turn k) w fly))
            (turn_suc k) (next-IsFlying segid_of data_of k (turn k) w fly lt)),
    )
    | inr last ↦ (
      last_state segid_of data_of k (turn k) w fly,
      poll_last segid_of data_of k (turn k) w fly last,
      inr (last, last-IsOver segid_of data_of k (turn k) w fly last),
    )
  ]
    where
      lt_or_last : (k : ℕ) → k < num_msgs → (k + 1 < num_msgs) ⊎ (k + 1 ≡ num_msgs)
      lt_or_last k lt = ground arith

  stays :
      (k : ℕ) (side : Side) (b : Bool)
      → ltb k num_msgs && same_side side (turn k) ≡ b
      → after_turn k side ≡ (if b then k + 1 else k)
  stays k side b e = ap (λ b. if b then k + 1 else k) e

  poll_stopped :
      (side : Side) (w : Processes)
      → IsOver segid_of data_of w
      → poll segid_of data_of side w ≡ ok w
  unfolding poll
  poll_stopped side w over =
      ap
        (λ b.
          if b
          then dequeue num_msgs (w.queues (in_queue side)) >>= polled segid_of data_of side w
          else ok w)
        (over.stopped side)

  stage-Moves :
      (k : ℕ) (side : Side) (w : Processes) → IsStage k w → Moves (after_turn k side) side w
  stage-Moves k side w (inl fly) = elim (one_of_two (turn k) side) [
    | inl e ↦
        subst (λ u. Moves (after_turn k u) u w) (sym e)
          (subst (λ j. Moves j (turn k) w) (sym (stays k (turn k) true (in_turn k fly.small)))
            (at_turn k w fly))
    | inr e ↦
        subst (λ u. Moves (after_turn k u) u w) (sym e)
          (subst (λ j. Moves j (other (turn k)) w)
            (sym (stays k (other (turn k)) false (out_of_turn k)))
            (w, poll-other segid_of data_of k (turn k) w fly, inl fly))
  ]
    where
      same_self : (t : Side) → same_side t t ≡ true
      same_self t = ground arith

      in_turn : (k : ℕ) → k < num_msgs → ltb k num_msgs && same_side (turn k) (turn k) ≡ true
      in_turn k lt = ground (arith, same_self (turn k), lt)

      not_same : (t : Side) → same_side (other t) t ≡ false
      not_same t = ground arith

      out_of_turn : (k : ℕ) → ltb k num_msgs && same_side (other (turn k)) (turn k) ≡ false
      out_of_turn k = ground (arith, not_same (turn k))
  stage-Moves k side w (inr (e, over)) =
      subst (λ j. Moves j side w) (sym (stays k side false (ground (arith, e))))
        (w, poll_stopped side w over, inr (e, over))

  schedule-IsStage :
      (k : ℕ) (sides : List Side) (w : Processes)
      → IsStage k w
      → (w' : Processes) × (schedule segid_of data_of sides w ≡ ok w')
        × IsStage (received k sides) w'
  schedule-IsStage k [] w stage = (w, refl, stage)
  schedule-IsStage k (side ∷ sides) w stage =
      let (w1, polls, stage1) = stage-Moves k side w stage in
      let (w', runs, stage') = schedule-IsStage (after_turn k side) sides w1 stage1 in
      (w', ap (λ o. o >>= schedule segid_of data_of sides) polls ∙ runs, stage')

  new_lfq-IsFifo : IsFifo {V = Sm} num_msgs new_lfq []
  new_lfq-IsFifo = record {
    counted = refl;
    bounded = omega arith;
    in_range = omega arith;
    front = refl;
    values = λ i lt. refl;
  }

  abbrev first_msg : Sm
  first_msg = msg_of segid_of data_of main_side

  abbrev started : (ℕ → ℕ → ℕ) → Processes
  started memory =
      let w =
        write_data segid_of data_of main_side 0
          (record { queues = λ name. new_lfq; memory = memory; running = λ side. true }) in
      record w {
        queues =
            update send_queue (with_value num_msgs new_lfq [] new_lfq-IsFifo first_msg) w.queues;
      }

  start_relay_lem : (memory : ℕ → ℕ → ℕ) → start_relay segid_of data_of memory ≡ ok (started memory)
  unfolding start_relay send_msg
  start_relay_lem memory =
      let w =
        write_data segid_of data_of main_side 0
          (record { queues = λ name. new_lfq; memory = memory; running = λ side. true }) in
      ap (λ o. o >>= λ r. ok (record w { queues = update send_queue r.1 w.queues }))
        (enqueue_room num_msgs new_lfq [] new_lfq-IsFifo first_msg (omega arith) (omega arith)
          (omega arith))

  started-IsFlying :
      (memory : ℕ → ℕ → ℕ) → IsFlying segid_of data_of 0 neighbor_side (started memory)
  unfolding update
  started-IsFlying memory = record {
    small = omega arith;
    whose = refl;
    full = with_value-IsFifo num_msgs new_lfq [] new_lfq-IsFifo first_msg (omega arith);
    empty = new_lfq-IsFifo;
    few_in = omega arith;
    few_out = omega arith;
    number =
        ap (λ m. m (data_of main_side))
          (update_self (segid_of main_side)
            (update (data_of main_side) 0 (memory (segid_of main_side))) memory)
        ∙ update_self (data_of main_side) 0 (memory (segid_of main_side));
    main_runs = refl;
    neighbor_runs = refl;
  }

  -- In every order of the turns of the two loops the program goes on without a fault: after as many
  -- turns of the side whose turn it is as there are messages, all have been received and both loops
  -- have ended; before that, the next message is on its way, and the other queue is empty.
  pub schedule-start_relay :
      (sides : List Side) (memory : ℕ → ℕ → ℕ)
      → (w' : Processes) × ((start_relay segid_of data_of memory
            >>= schedule segid_of data_of sides)
          ≡ ok w')
        × IsStage (received 0 sides) w'
  schedule-start_relay sides memory =
      let (w', runs, stage) =
        schedule-IsStage 0 sides (started memory) (inl (started-IsFlying memory)) in
      (w', ap (λ o. o >>= schedule segid_of data_of sides) (start_relay_lem memory) ∙ runs, stage)
