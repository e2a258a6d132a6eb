-- ===== src/Lfq/Threads/Dequeuing.antt =====
-- The steps of the consumer of the queue of archive/lfq/ipc_lfq.hh.
use charm_experiments.Lfq.Threads.Invariant.{found_in_order, fetch-IsPlaced, IsPlaced}
use charm_experiments.Lfq.Threads.{
  resting, consumer_after, finish_step, Consumer, looking, taken, Shared,
}
use charm_experiments.Common.{
  append_assoc, length-append, get_elem?, length, update_id, ℕ, ◌+◌, ◌%◌, ◌^◌, ◌<◌, ◌≡◌, refl, sym,
  ap, subst, ◌∙◌, Bool, false, Option, none, some, List, [], ◌∷◌, ◌++◌, arith, if◌then◌else◌,
  nat_eq, update, leb,
}
use charm_experiments.Lfq.Threads.Enqueuing.{
  count_small, sub_one, emptied_le, first_of_rest, pending, IsSound,
}
use native.Mathlib.Nat.{mod-lt}
use charm_experiments.Lfq.Fifo.{next_slot}

module _ {V : Type 0} (n k : ℕ) (ins outs : List V) (s : Shared V)
    (inv : IsSound n k ins outs s) where
  -- the consumer moves on without a value
  pub look-IsSound :
      (c : Consumer V) (locks : ℕ → Bool)
      → pending s.consumer ≡ 0
      → pending c ≡ 0
      → IsSound n k ins outs (record s { consumer = c; locks = locks })
  look-IsSound c locks none_before none_after = record {
    rest = inv.rest;
    split = inv.split;
    placed =
        subst (λ p. IsPlaced n k ins (length outs + p) s.slots s.producers)
          (none_before ∙ sym none_after) inv.placed;
    front = λ v e. ground (arith, ap pending e, none_after);
    head_is = inv.head_is;
    tail_is = inv.tail_is;
    count_is = inv.count_is;
    room = inv.room;
  }

  pub fetch-IsSound :
      (o : Option V)
      → 0 < n
      → s.consumer ≡ looking
      → s.slots s.tail ≡ o
      → IsSound n k ins outs (record s {
        consumer = consumer_after o;
        slots = update s.tail none s.slots;
        locks = update s.tail false s.locks;
      })
  fetch-IsSound none pos_n at e =
      let same : s.slots ≡ update s.tail none s.slots =
        sym (ap (λ o. update s.tail o s.slots) (sym e) ∙ update_id s.tail s.slots) in
      let p = look-IsSound resting (update s.tail false s.locks) (ap pending at) refl in
      record {
        rest = p.rest;
        split = p.split;
        placed =
            subst (λ slots. IsPlaced n k ins (length outs + 0) slots s.producers) same p.placed;
        front = p.front;
        head_is = p.head_is;
        tail_is = p.tail_is;
        count_is = p.count_is;
        room = p.room;
      }
  fetch-IsSound (some v) pos_n at e =
      let full : s.slots (length outs % n) ≡ some v = ap s.slots (sym inv.tail_is) ∙ e in
      let here : IsPlaced n k ins (length outs) s.slots s.producers =
        subst (λ d. IsPlaced n k ins d s.slots s.producers) (omega (arith, ap pending at))
          inv.placed in
      record {
        rest = inv.rest;
        split = inv.split;
        placed =
            subst (λ t. IsPlaced n k ins (length outs + 1) (update t none s.slots) s.producers)
              (sym inv.tail_is)
              (fetch-IsPlaced n k ins (length outs) s.slots s.producers here v pos_n full);
        front = λ w e_w.
            found_in_order n k ins (length outs) s.slots s.producers here v pos_n full
            ∙ ap value_of e_w;
        head_is = inv.head_is;
        tail_is = inv.tail_is;
        count_is = inv.count_is;
        room = inv.room;
      }
    where
      value_of : Consumer V → Option V
      value_of (taken v) = some v
      value_of _ = none

  pub finish-IsSound :
      (v : V)
      → 0 < n
      → n + k < 2 ^ 64
      → s.consumer ≡ taken v
      → IsSound n k ins (outs ++ (v ∷ [])) (finish_step n s)
  finish-IsSound v pos_n small at =
      let (more, rest) =
        first_of_rest outs inv.rest v
          (ap (λ xs. get_elem? xs (length outs)) (sym inv.split) ∙ inv.front v at) in
      let size = length-append outs (v ∷ []) in
      let full = emptied_le n k ins outs s inv (taken v) at in
      let exact =
        sub_one n k ins outs s inv s.count (omega (arith, inv.count_is, full))
          (count_small n k ins outs s inv small) in
      record {
        rest = more;
        split = inv.split ∙ ap (λ xs. outs ++ xs) rest ∙ sym (append_assoc outs (v ∷ []) more);
        placed =
            subst (λ d. IsPlaced n k ins d s.slots s.producers) (omega (arith, ap pending at, size))
              inv.placed;
        front = λ w e. ground (arith, ap pending e);
        head_is = inv.head_is;
        tail_is =
            ap (λ t. if leb n (t + 1) then 0 else t + 1) inv.tail_is
            ∙ next_tail
            ∙ ap (λ i. i % n) (sym size);
        count_is = omega (arith, exact, inv.count_is, size);
        room = omega (arith, inv.room, size);
      }
    where
      next_tail :
          (if leb n (length outs % n + 1) then 0 else length outs % n + 1) ≡ (length outs + 1) % n
      next_tail = ground (arith, next_slot n (length outs) pos_n, mod-lt (length outs) pos_n)
