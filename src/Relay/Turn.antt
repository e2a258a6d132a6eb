-- ===== src/Relay/Turn.antt =====
-- One turn of a side of archive/xpmem-experiments/tester.cc.
use charm_experiments.Relay.Sides.{
  ne_other, other_ne, one_of_two, other-other, out_queue-in_queue, turn_suc, IsOver, other, msg_of,
  sides_differ, turn, IsFlying,
}
use charm_experiments.Ipc.Address.Window.{window_holds}
use charm_experiments.Relay.{
  neighbor_side, Sm, enqueue, main_side, recv_msg, sizeof_int, Lfq, dequeue, handle_number,
  in_queue, num_msgs, polled, send_msg, write_data, Processes, is_attached, poll, side_eq,
  queue_name_eq, Side,
}
use charm_experiments.Lfq.Fifo.{
  enqueue_room, with_value-IsFifo, without_first-IsFifo, dequeue_empty, dequeue_first, with_value,
  without_first, IsFifo,
}
use charm_experiments.Common.{
  update_id, update_ne, update_self, ℕ, ◌+◌, ◌-◌, ◌<◌, ◌≡◌, refl, sym, ap, subst, ◌∙◌, ◌≢◌, inl,
  inr, Bool, true, false, [], ◌∷◌, arith, if◌then◌else◌, ◌>>=◌, ok, fault, Outcome, nat_eq, update,
  leb, ltb,
}

module _ (segid_of data_of : Side → ℕ) where
  attached : (side : Side) → is_attached (msg_of segid_of data_of side) ≡ true
  attached side = ground (arith, window_holds (data_of side) sizeof_int (omega arith) (omega arith))

  abbrev poll_branch : Side → Processes → Bool → Outcome Processes
  poll_branch side w b =
      if b
      then dequeue num_msgs (w.queues (in_queue side)) >>= polled segid_of data_of side w
      else ok w

  -- A side that is not at its turn finds no message.
  pub poll-other :
      (k : ℕ) (t : Side) (w : Processes)
      → IsFlying segid_of data_of k t w
      → poll segid_of data_of (other t) w ≡ ok w
  unfolding poll polled
  poll-other k t w fly = either (w.running (other t))
    where
      nothing :
          dequeue num_msgs (w.queues (in_queue (other t))) >>= polled segid_of data_of (other t) w
          ≡ ok w
      nothing =
          ap (λ o. o >>= polled segid_of data_of (other t) w)
            (dequeue_empty num_msgs (w.queues (in_queue (other t))) fly.empty)
          ∙ ap (λ qs. ok (record w { queues = qs })) (update_id (in_queue (other t)) w.queues)

      either : (b : Bool) → poll_branch (other t) w b ≡ ok w
      either true = nothing
      either false = refl

  running_turn :
      (k : ℕ) (t : Side) (w : Processes) → IsFlying segid_of data_of k t w → w.running t ≡ true
  running_turn k main_side w fly = fly.main_runs
  running_turn k neighbor_side w fly = fly.neighbor_runs ∙ ground (arith, fly.small, not_last)
    where
      not_last : k ≢ 31
      not_last e = sides_differ (sym (fly.whose ∙ ap turn e))

  -- the processes when `t` has taken the message
  abbrev taken_by : Side → Processes → Processes
  taken_by t w = record w {
    queues = update (in_queue t) (without_first num_msgs (w.queues (in_queue t))) w.queues;
  }

  poll_turn :
      (k : ℕ) (t : Side) (w : Processes)
      → IsFlying segid_of data_of k t w
      → poll segid_of data_of t w ≡ (
          handle_number segid_of data_of t k (taken_by t w) >>= λ r.
          ok (record r.1 { running = update t r.0 r.1.running }))
  unfolding poll polled recv_msg
  poll_turn k t w fly =
      ap (poll_branch t w) (running_turn k t w fly)
      ∙ ap (λ o. o >>= polled segid_of data_of t w)
          (dequeue_first num_msgs (w.queues (in_queue t)) (msg_of segid_of data_of (other t)) []
            fly.full)
      ∙ ap
          (λ b.
            (if b
              then handle_number segid_of data_of t
                  (w.memory (segid_of (other t)) (data_of (other t))) (taken_by t w)
              else fault)
            >>= λ r. ok (record r.1 { running = update t r.0 r.1.running }))
          (attached (other t))
      ∙ ap
          (λ v. handle_number segid_of data_of t v (taken_by t w) >>= λ r.
            ok (record r.1 { running = update t r.0 r.1.running }))
          fly.number

  abbrev flagged : Bool → Processes → Outcome (Bool × Processes)
  flagged b w = ok (b, w)

  abbrev with_flag : Side → Bool × Processes → Outcome Processes
  with_flag t r = ok (record r.1 { running = update t r.0 r.1.running })

  abbrev ending : Side → Bool → Outcome Processes → Outcome Processes
  ending t b o = (o >>= flagged b) >>= with_flag t

  module _ (k : ℕ) (t : Side) (w : Processes) (fly : IsFlying segid_of data_of k t w) where
    abbrev filled : Lfq Sm
    filled =
        with_value num_msgs (w.queues (in_queue (other t))) [] fly.empty (msg_of segid_of data_of t)

    -- the processes when `t` has also sent the message with number `k + 1`
    abbrev sent_by : Processes
    sent_by =
        let w1 = write_data segid_of data_of t (k + 1) (taken_by t w) in
        record w1 { queues = update (in_queue (other t)) filled w1.queues }

    send_msg_lem :
        k + 1 < num_msgs
        → send_msg segid_of data_of t (write_data segid_of data_of t (k + 1) (taken_by t w))
          ≡ ok sent_by
    unfolding send_msg
    send_msg_lem lt =
        let w1 = write_data segid_of data_of t (k + 1) (taken_by t w) in
        ap
          (λ name. enqueue num_msgs (msg_of segid_of data_of t) (w1.queues name) >>= λ r.
            ok (record w1 { queues = update name r.1 w1.queues }))
          (out_queue-in_queue t)
        ∙ ap
            (λ q. enqueue num_msgs (msg_of segid_of data_of t) q >>= λ r.
              ok (record w1 { queues = update (in_queue (other t)) r.1 w1.queues }))
            (update_ne (in_queue t) (in_queue (other t))
              (without_first num_msgs (w.queues (in_queue t))) w.queues (λ e. other_ne t (sym e)))
        ∙ ap (λ o. o >>= λ r. ok (record w1 { queues = update (in_queue (other t)) r.1 w1.queues }))
            (enqueue_room num_msgs (w.queues (in_queue (other t))) [] fly.empty
              (msg_of segid_of data_of t) (omega arith) (omega (arith, fly.few_out, lt))
              (omega arith))

    -- the processes after the turn
    abbrev pub next_state : Processes
    next_state = record sent_by { running = update t (ltb k 30) w.running }

    pub poll_next : k + 1 < num_msgs → poll segid_of data_of t w ≡ ok next_state
    unfolding handle_number
    poll_next lt =
        let passed_on : ltb k (num_msgs - 1) ≡ true = ground (arith, lt) in
        poll_turn k t w fly
        ∙ ap
            (λ b. ending t (ltb k 30) (
              if b
              then send_msg segid_of data_of t
                  (write_data segid_of data_of t (k + 1) (taken_by t w))
              else ok (taken_by t w)))
            passed_on
        ∙ ap (ending t (ltb k 30)) (send_msg_lem lt)

    pub poll_last :
        k + 1 ≡ num_msgs
        → poll segid_of data_of t w
          ≡ ok (record (taken_by t w) { running = update t false w.running })
    unfolding handle_number
    poll_last last =
        let no_more : ltb k (num_msgs - 1) ≡ false = ground (arith, last) in
        let stop : ltb k 30 ≡ false = ground (arith, last) in
        poll_turn k t w fly
        ∙ ap
            (λ b. ending t (ltb k 30) (
              if b
              then send_msg segid_of data_of t
                  (write_data segid_of data_of t (k + 1) (taken_by t w))
              else ok (taken_by t w)))
            no_more
        ∙ ap (λ b. ending t b (ok (taken_by t w))) stop

    -- Side `t` runs on exactly while there is another turn for it.
    runs_after :
        k + 1 < num_msgs
        → (next_state.running main_side ≡ true)
          × (next_state.running neighbor_side ≡ leb (k + 1) 30)
    runs_after lt = by_side t fly.whose
      where
        by_side :
            (u : Side)
            → u ≡ turn k
            → (update u (ltb k 30) w.running main_side ≡ true)
              × (update u (ltb k 30) w.running neighbor_side ≡ leb (k + 1) 30)
        by_side main_side e =
            let few : k ≢ 30 = λ e30. sides_differ (e ∙ ap turn e30) in
            (
              update_self main_side (ltb k 30) w.running ∙ ground (arith, few, lt),
              update_ne main_side neighbor_side (ltb k 30) w.running (λ e. sides_differ (sym e))
                  ∙ fly.neighbor_runs
                  ∙ ground (arith, few, lt),
            )
        by_side neighbor_side e = (
          update_ne neighbor_side main_side (ltb k 30) w.running sides_differ ∙ fly.main_runs,
          update_self neighbor_side (ltb k 30) w.running ∙ ground (arith, lt),
        )

    queue_to : next_state.queues (in_queue (other t)) ≡ filled
    queue_to = update_self (in_queue (other t)) filled (taken_by t w).queues

    queue_from :
        next_state.queues (in_queue (other (other t)))
        ≡ without_first num_msgs (w.queues (in_queue t))
    queue_from =
        ap (λ u. next_state.queues (in_queue u)) (other-other t)
        ∙ update_ne (in_queue (other t)) (in_queue t) filled (taken_by t w).queues (other_ne t)
        ∙ update_self (in_queue t) (without_first num_msgs (w.queues (in_queue t))) w.queues

    pub next-IsFlying : k + 1 < num_msgs → IsFlying segid_of data_of (k + 1) (other t) next_state
    next-IsFlying lt = record {
      small = lt;
      whose = ap other fly.whose ∙ turn_suc k;
      full =
          subst
            (λ u.
              IsFifo num_msgs (next_state.queues (in_queue (other t)))
                (msg_of segid_of data_of u ∷ []))
            (sym (other-other t))
            (subst (λ q. IsFifo num_msgs q (msg_of segid_of data_of t ∷ [])) (sym queue_to)
              (with_value-IsFifo num_msgs (w.queues (in_queue (other t))) [] fly.empty
                (msg_of segid_of data_of t) (omega arith)));
      empty =
          subst (λ q. IsFifo num_msgs q []) (sym queue_from)
            (without_first-IsFifo num_msgs (w.queues (in_queue t))
              (msg_of segid_of data_of (other t)) [] fly.full);
      few_in = omega (arith, ap (λ q. q.head) queue_to, fly.few_out);
      few_out = omega (arith, ap (λ q. q.head) queue_from, fly.few_in);
      number =
          ap (λ u. next_state.memory (segid_of u) (data_of u)) (other-other t)
          ∙ ap (λ m. m (data_of t))
              (update_self (segid_of t) (update (data_of t) (k + 1) (w.memory (segid_of t)))
                w.memory)
          ∙ update_self (data_of t) (k + 1) (w.memory (segid_of t));
      main_runs = (runs_after lt).0;
      neighbor_runs = (runs_after lt).1;
    }

    abbrev pub last_state : Processes
    last_state = record (taken_by t w) { running = update t false w.running }

    other_stopped : (u : Side) → u ≡ turn k → k + 1 ≡ num_msgs → w.running (other u) ≡ false
    other_stopped main_side e last = fly.neighbor_runs ∙ ground (arith, last)
    other_stopped neighbor_side e last =
        let at : k ≡ 31 = omega (arith, last) in elim (sides_differ (sym (e ∙ ap turn at))) [ ]

    pub last-IsOver : k + 1 ≡ num_msgs → IsOver segid_of data_of last_state
    last-IsOver last = record {
      no_message = λ u. elim (one_of_two t u) [
        | inl e ↦
            subst (λ u. IsFifo num_msgs (last_state.queues (in_queue u)) []) (sym e)
              (subst (λ q. IsFifo num_msgs q [])
                (sym (
                  update_self (in_queue t) (without_first num_msgs (w.queues (in_queue t)))
                    w.queues))
                (without_first-IsFifo num_msgs (w.queues (in_queue t))
                  (msg_of segid_of data_of (other t)) [] fly.full))
        | inr e ↦
            subst (λ u. IsFifo num_msgs (last_state.queues (in_queue u)) []) (sym e)
              (subst (λ q. IsFifo num_msgs q [])
                (sym (
                  update_ne (in_queue t) (in_queue (other t))
                    (without_first num_msgs (w.queues (in_queue t))) w.queues
                    (λ e. other_ne t (sym e))))
                fly.empty)
      ];
      stopped = λ u. elim (one_of_two t u) [
        | inl e ↦ ap last_state.running e ∙ update_self t false w.running
        | inr e ↦
            ap last_state.running e
            ∙ update_ne t (other t) false w.running (ne_other t)
            ∙ other_stopped t fly.whose last
      ];
    }
