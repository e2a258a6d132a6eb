-- ===== src/Lfq/Tester/Turns.antt =====
-- Every turn of archive/lfq/tester.cc.
use charm_experiments.Common.{
  update_ne, update_self, ℕ, suc, ◌+◌, ◌-◌, ◌≤◌, ◌<◌, ◌≡◌, refl, sym, ap, ap₂, subst, ◌∙◌, ◌⊎◌, inl,
  inr, Bool, Bool-cases, true, false, arith, if◌then◌else◌, leb, ◌==◌, ok, ◌>>=◌, abort, Outcome,
  nat_eq, ==_iff, eq_or_ne, update,
}
use charm_experiments.Lfq.{enqueue, dequeue}
use charm_experiments.Lfq.Tester.{
  Proc, Place, TestRun, peer_of, proc_eq, after_send, after_receive, sent_turn, received_turn,
  proc_turn,
}
use charm_experiments.Lfq.Tester.Course.{
  IsOnCourse, IsChannel, sent_in, received_in, number_after, numbers_from, length-numbers_from,
  peer_ne, moved-IsOnCourse, after_send_lem, after_receive_lem,
}
use charm_experiments.Lfq.Tester.Progress.{
  progress, progress_more, IsStuck, ended, no_room, no_number,
}
use charm_experiments.Lfq.Fifo.{
  IsFifo, with_value, without_first, enqueue_room, enqueue_full, dequeue_first, dequeue_empty,
}
use charm_experiments.Lfq.Tester.Channels.{
  into, out, unchanged_lem, added-IsChannel, taken-IsChannel,
}

pub record Goes (p : Proc) (t : TestRun) : Type 0 where
  pub next : TestRun
  pub goes : proc_turn p t ≡ ok next
  pub stays : IsOnCourse next
  pub moves : ((next ≡ t) × IsStuck p t) ⊎ (progress next ≡ progress t + 1)

module _ (p : Proc) (t : TestRun) (inv : IsOnCourse t) where
  abbrev at : Place
  at = t.places p

  abbrev peer_at : Place
  peer_at = t.places (peer_of p)

  abbrev turn_branch : Bool → Bool → Outcome TestRun
  turn_branch done sends =
      if done
      then ok t
      else if sends
      then (enqueue 16 at.number_at (t.mine (peer_of p)) >>= λ a. ok (sent_turn p t a))
      else (dequeue 16 (t.mine p) >>= received_turn p t)

  turn-turn_branch : proc_turn p t ≡ turn_branch (leb 16 at.iteration) at.sending
  unfolding proc_turn
  turn-turn_branch = refl

  small_count : sent_in at ≤ 272
  small_count = ground (arith, inv.loops p)

  kept_full : leb 16 at.iteration ≡ false → at.sending ≡ true → (out p t inv).left ≡ 16 → Goes p t
  unfolding sent_turn
  kept_full going sends full =
      let ch = out p t inv in
      record {
        next = t;
        goes =
            turn-turn_branch
            ∙ ap₂ turn_branch going sends
            ∙ ap (λ o. o >>= λ a. ok (sent_turn p t a))
                (enqueue_full 16 (t.mine (peer_of p)) (numbers_from (received_in peer_at) ch.left)
                  ch.held at.number_at (length-numbers_from (received_in peer_at) ch.left ∙ full))
            ∙ ap ok (unchanged_lem t (peer_of p));
        stays = inv;
        moves = inl (refl, no_room sends (omega (arith, ch.adds_up, full)));
      }

  kept_empty : leb 16 at.iteration ≡ false → at.sending ≡ false → (into p t inv).left ≡ 0 → Goes p t
  unfolding received_turn
  kept_empty going receives empty =
      let ch = into p t inv in
      record {
        next = t;
        goes =
            turn-turn_branch
            ∙ ap₂ turn_branch going receives
            ∙ ap (λ o. o >>= received_turn p t)
                (dequeue_empty 16 (t.mine p) (
                  subst (λ n. IsFifo 16 (t.mine p) (numbers_from (received_in at) n)) empty
                    ch.held))
            ∙ ap ok (unchanged_lem t p);
        stays = inv;
        moves = inl (refl, no_number receives (omega (arith, ch.adds_up, empty)));
      }

  sends_one : leb 16 at.iteration ≡ false → at.sending ≡ true → (out p t inv).left < 16 → Goes p t
  unfolding sent_turn
  sends_one going sends room =
      let ch = out p t inv in
      let xs = numbers_from (received_in peer_at) ch.left in
      let (loop, one_more, as_before, number) =
        after_send_lem at (inv.loops p) (ground (arith, going)) sends in
      let q = with_value 16 (t.mine (peer_of p)) xs ch.held at.number_at in
      record {
        next = record {
          mine = update (peer_of p) q t.mine;
          places = update p (after_send at) t.places;
        };
        goes =
            turn-turn_branch
            ∙ ap₂ turn_branch going sends
            ∙ ap (λ o. o >>= λ a. ok (sent_turn p t a))
                (enqueue_room 16 (t.mine (peer_of p)) xs ch.held at.number_at
                  (omega (arith, length-numbers_from (received_in peer_at) ch.left, room))
                  (omega (arith, ch.head_is, small_count)) (omega arith));
        stays =
            moved-IsOnCourse p t (after_send at) (update (peer_of p) q t.mine) inv loop
              (subst (λ u. IsChannel (sent_in peer_at) (received_in (after_send at)) u)
                (sym (update_ne (peer_of p) p q t.mine (λ e. peer_ne p (sym e))))
                (subst (λ r. IsChannel (sent_in peer_at) r (t.mine p)) (sym as_before)
                  (into p t inv)))
              (subst (λ u. IsChannel (sent_in (after_send at)) (received_in peer_at) u)
                (sym (update_self (peer_of p) q t.mine))
                (subst (λ s. IsChannel s (received_in peer_at) q) (sym one_more)
                  (subst
                    (λ v.
                      IsChannel (sent_in at + 1) (received_in peer_at)
                        (with_value 16 (t.mine (peer_of p)) xs ch.held v))
                    (sym number)
                    (added-IsChannel (sent_in at) (received_in peer_at) (t.mine (peer_of p)) ch
                      room))));
        moves = inr (
            progress_more p t (after_send at) (update (peer_of p) q t.mine)
              (omega (arith, one_more, as_before)));
      }

  receives_one :
      (n : ℕ)
      → leb 16 at.iteration ≡ false
      → at.sending ≡ false
      → (into p t inv).left ≡ suc n
      → Goes p t
  unfolding received_turn
  receives_one n going receives some_left =
      let ch = into p t inv in
      let (loop, as_before, one_more, number) =
        after_receive_lem at (inv.loops p) (ground (arith, going)) receives in
      let held =
        subst (λ k. IsFifo 16 (t.mine p) (numbers_from (received_in at) k)) some_left ch.held in
      let q = without_first 16 (t.mine p) in
      let xs = numbers_from (received_in at + 1) n in
      let right : (at.number_at == number_after (received_in at)) ≡ true =
        (==_iff at.number_at (number_after (received_in at))).1 number in
      let after : TestRun = record {
        mine = update p q t.mine;
        places = update p (after_receive at) t.places;
      } in
      record {
        next = after;
        goes =
            turn-turn_branch
            ∙ ap₂ turn_branch going receives
            ∙ ap (λ o. o >>= received_turn p t)
                (dequeue_first 16 (t.mine p) (number_after (received_in at)) xs held)
            ∙ ap (λ b. if b then ok after else abort) right;
        stays =
            moved-IsOnCourse p t (after_receive at) (update p q t.mine) inv loop
              (subst (λ u. IsChannel (sent_in peer_at) (received_in (after_receive at)) u)
                (sym (update_self p q t.mine))
                (subst (λ r. IsChannel (sent_in peer_at) r q) (sym one_more)
                  (taken-IsChannel (sent_in peer_at) (received_in at) n (t.mine p)
                    (omega (arith, ch.adds_up, some_left)) held ch.head_is)))
              (subst (λ u. IsChannel (sent_in (after_receive at)) (received_in peer_at) u)
                (sym (update_ne p (peer_of p) q t.mine (peer_ne p)))
                (subst (λ s. IsChannel s (received_in peer_at) (t.mine (peer_of p))) (sym as_before)
                  (out p t inv)));
        moves = inr (
            progress_more p t (after_receive at) (update p q t.mine)
              (omega (arith, one_more, as_before)));
      }

  pub turn_goes : Goes p t
  turn_goes = elim (Bool-cases (leb 16 at.iteration)) [
    | inl over ↦ record {
      next = t;
      goes = turn-turn_branch ∙ ap (λ b. turn_branch b at.sending) over;
      stays = inv;
      moves = inl (refl, ended (ground (arith, over, inv.loops p)));
    }
    | inr going ↦ elim (Bool-cases at.sending) [
      | inl sends ↦ elim (Bool-cases (leb 16 (out p t inv).left)) [
        | inl full ↦ kept_full going sends (ground (arith, full, left_le_16))
        | inr room ↦ sends_one going sends (ground (arith, room))
      ]
      | inr receives ↦ elim (eq_or_ne (into p t inv).left 0) [
        | inl empty ↦ kept_empty going receives empty
        | inr some_left ↦
            receives_one ((into p t inv).left - 1) going receives (omega (arith, some_left))
      ]
    ]
  ]
    where
      left_le_16 : (out p t inv).left ≤ 16
      left_le_16 =
          let ch = out p t inv in
          omega (arith, ch.held.bounded, length-numbers_from (received_in peer_at) ch.left)
