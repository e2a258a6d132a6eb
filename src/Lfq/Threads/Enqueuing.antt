-- ===== src/Lfq/Threads/Enqueuing.antt =====
-- The steps of the producers of the queue of archive/lfq/ipc_lfq.hh.
use charm_experiments.Common.{
  get_elem?-append_left, append_assoc, some-injective, length-append, length, get_elem?, ℕ, zero,
  suc, ◌+◌, ◌%◌, ◌^◌, ◌≤◌, ◌<◌, ◌≡◌, refl, sym, ap, subst, ◌∙◌, Bool, true, false, some, List, [],
  ◌∷◌, ◌++◌, arith, if◌then◌else◌, nat_eq, update, leb,
}
use charm_experiments.Lfq.Threads.{
  lock_step, store_step, locked, refuse_step, ticket, ticket_step, looking, go, resting, add_size,
  idle, refused, sub_size, taken, Consumer, Shared, reserved, Producer,
}
use charm_experiments.Lfq.Threads.Total.{total_le, total-update, total, total_one}
use charm_experiments.Lfq.Threads.Invariant.{
  store-IsPlaced, ticket-IsPlaced, none_not_some, holds, move-IsPlaced, IsPlaced,
}

-- what a producer has added to `count` without a ticket, and whether it will take one
abbrev pub inside : {V : Type 0} → Producer V → ℕ
inside (reserved v) = 1
inside refused = 1
inside _ = 0

abbrev pub waiting : {V : Type 0} → Producer V → ℕ
waiting (reserved v) = 1
waiting _ = 0

pub inside_one : {V : Type 0} (p : Producer V) → inside p ≤ 1
inside_one p = ground arith

waiting-inside : {V : Type 0} (p : Producer V) → waiting p ≤ inside p
waiting-inside p = ground arith

-- a value that is out of its slot and not yet returned
abbrev pub pending : {V : Type 0} → Consumer V → ℕ
pending (taken v) = 1
pending _ = 0

pub record IsSound {V : Type 0} (n k : ℕ) (ins outs : List V) (s : Shared V) : Type 0 where
  pub rest : List V
  pub split : ins ≡ outs ++ rest
  pub placed : IsPlaced n k ins (length outs + pending s.consumer) s.slots s.producers
  pub front : (v : V) → s.consumer ≡ taken v → get_elem? ins (length outs) ≡ some v
  pub head_is : s.head ≡ length ins
  pub tail_is : s.tail ≡ length outs % n
  pub count_is : s.count + length outs ≡ total inside k s.producers + length ins
  pub room : total waiting k s.producers + length ins ≤ length outs + n

pub get_elem?-some_lt :
    {V : Type 0} (xs : List V) (i : ℕ) (v : V) → get_elem? xs i ≡ some v → i < length xs
get_elem?-some_lt [] i v e = elim (none_not_some e) [ ]
get_elem?-some_lt (x ∷ xs) zero v e = omega arith
get_elem?-some_lt (x ∷ xs) (suc i) v e = omega (arith, get_elem?-some_lt xs i v e)

pub first_of_rest :
    {V : Type 0} (outs rest : List V) (v : V)
    → get_elem? (outs ++ rest) (length outs) ≡ some v
    → (more : List V) × (rest ≡ v ∷ more)
first_of_rest [] [] v e = elim (none_not_some e) [ ]
first_of_rest [] (x ∷ rest) v e = (rest, ap (λ x. x ∷ rest) (some-injective e))
first_of_rest (o ∷ outs) rest v e = first_of_rest outs rest v e

module _ {V : Type 0} (n k : ℕ) (ins outs : List V) (s : Shared V)
    (inv : IsSound n k ins outs s) where
  pub out_le : length outs ≤ length ins
  out_le = omega (arith, ap length inv.split, length-append outs inv.rest)

  pub emptied_le : (c : Consumer V) → s.consumer ≡ c → length outs + pending c ≤ length ins
  emptied_le resting e = omega (arith, out_le)
  emptied_le looking e = omega (arith, out_le)
  emptied_le (taken v) e = omega (arith, get_elem?-some_lt ins (length outs) v (inv.front v e))

  moved :
      (f : Producer V → ℕ) (i : ℕ) (p q : Producer V)
      → i < k
      → s.producers i ≡ q
      → total f k (update i p s.producers) + f q ≡ total f k s.producers + f p
  moved f i p q lt e =
      ap (λ q. total f k (update i p s.producers) + f q) (sym e)
      ∙ total-update f k i p s.producers lt

  -- what bounds `count`
  pub count_small : n + k < 2 ^ 64 → s.count < 2 ^ 64
  count_small small =
      omega (arith, inv.count_is, inv.room, total_one inside k s.producers inside_one)

  pub sub_one : (a : ℕ) → 0 < a → a < 2 ^ 64 → sub_size a + 1 ≡ a
  sub_one a pos_a small = omega arith

  add_one : (a : ℕ) → a + 1 < 2 ^ 64 → add_size a ≡ a + 1
  add_one a small = omega arith

  raised :
      (i : ℕ) (p : Producer V)
      → i < k
      → n + k < 2 ^ 64
      → inside p ≡ 1
      → s.producers i ≡ idle
      → add_size s.count + length outs ≡ total inside k (update i p s.producers) + length ins
  raised i p lt small one at =
      let more = moved inside i p idle lt at in
      let most = total_one inside k (update i p s.producers) inside_one in
      let exact = add_one s.count (omega (arith, inv.count_is, inv.room, more, most, one, small)) in
      omega (arith, exact, inv.count_is, more, one)

  under_n : leb n s.count ≡ false → s.count < n
  under_n e = ground (arith, e)

  pub reserve-IsSound :
      (i : ℕ) (v : V) (b : Bool)
      → leb n s.count ≡ b
      → n + k < 2 ^ 64
      → i < k
      → s.producers i ≡ idle
      → IsSound n k ins outs
          (record (go i (if b then refused else reserved v) s) { count = add_size s.count })
  reserve-IsSound i v true e small lt at = record {
    rest = inv.rest;
    split = inv.split;
    placed = move-IsPlaced n k ins _ s.slots s.producers inv.placed i refused (sym (ap holds at));
    front = inv.front;
    head_is = inv.head_is;
    tail_is = inv.tail_is;
    count_is = raised i refused lt small refl at;
    room = omega (arith, inv.room, moved waiting i refused idle lt at);
  }
  reserve-IsSound i v false e small lt at = record {
    rest = inv.rest;
    split = inv.split;
    placed =
        move-IsPlaced n k ins _ s.slots s.producers inv.placed i (reserved v) (sym (ap holds at));
    front = inv.front;
    head_is = inv.head_is;
    tail_is = inv.tail_is;
    count_is = raised i (reserved v) lt small refl at;
    room = omega (
      arith,
      moved waiting i (reserved v) idle lt at,
      inv.count_is,
      total_le waiting inside k s.producers waiting-inside,
      under_n e,
    );
  }

  pub refuse-IsSound :
      (i : ℕ)
      → n + k < 2 ^ 64
      → i < k
      → s.producers i ≡ refused
      → IsSound n k ins outs (refuse_step i s)
  refuse-IsSound i small lt at =
      let less = moved inside i idle refused lt at in
      let exact = sub_one s.count (omega (arith, inv.count_is, less, out_le)) (count_small small) in
      record {
        rest = inv.rest;
        split = inv.split;
        placed = move-IsPlaced n k ins _ s.slots s.producers inv.placed i idle (sym (ap holds at));
        front = inv.front;
        head_is = inv.head_is;
        tail_is = inv.tail_is;
        count_is = omega (arith, exact, inv.count_is, less);
        room = omega (arith, inv.room, moved waiting i idle refused lt at);
      }

  pub ticket-IsSound :
      (i : ℕ) (v : V)
      → length ins + 1 < 2 ^ 64
      → i < k
      → s.producers i ≡ reserved v
      → IsSound n k (ins ++ (v ∷ [])) outs (ticket_step i v s)
  ticket-IsSound i v small lt at =
      let size = length-append ins (v ∷ []) in
      let wait = moved waiting i (ticket s.head v) (reserved v) lt at in
      let in_ = moved inside i (ticket s.head v) (reserved v) lt at in
      let space : length ins < length outs + pending s.consumer + n =
        omega (arith, inv.room, wait) in
      record {
        rest = inv.rest ++ (v ∷ []);
        split = ap (λ xs. xs ++ (v ∷ [])) inv.split ∙ append_assoc outs inv.rest (v ∷ []);
        placed =
            subst
              (λ h.
                IsPlaced n k (ins ++ (v ∷ [])) (length outs + pending s.consumer) s.slots
                  (update i (ticket h v) s.producers))
              (sym inv.head_is)
              (ticket-IsPlaced n k ins _ s.slots s.producers inv.placed i v space
                (emptied_le s.consumer refl));
        front = λ w e.
            get_elem?-append_left ins (v ∷ []) (length outs)
              (get_elem?-some_lt ins (length outs) w (inv.front w e))
            ∙ inv.front w e;
        head_is =
            add_one s.head (omega (arith, inv.head_is, small)) ∙ omega (arith, inv.head_is, size);
        tail_is = inv.tail_is;
        count_is = omega (arith, inv.count_is, in_, size);
        room = omega (arith, inv.room, wait, size);
      }

  pub lock-IsSound :
      (i h : ℕ) (v : V)
      → i < k
      → s.producers i ≡ ticket h v
      → IsSound n k ins outs (lock_step n i h v s)
  lock-IsSound i h v lt at = record {
    rest = inv.rest;
    split = inv.split;
    placed =
        move-IsPlaced n k ins _ s.slots s.producers inv.placed i (locked h v) (sym (ap holds at));
    front = inv.front;
    head_is = inv.head_is;
    tail_is = inv.tail_is;
    count_is = omega (arith, inv.count_is, moved inside i (locked h v) (ticket h v) lt at);
    room = omega (arith, inv.room, moved waiting i (locked h v) (ticket h v) lt at);
  }

  pub store-IsSound :
      (i h : ℕ) (v : V)
      → i < k
      → s.producers i ≡ locked h v
      → IsSound n k ins outs (store_step n i h v s)
  store-IsSound i h v lt at = record {
    rest = inv.rest;
    split = inv.split;
    placed = store-IsPlaced n k ins _ s.slots s.producers inv.placed i h v lt (ap holds at);
    front = inv.front;
    head_is = inv.head_is;
    tail_is = inv.tail_is;
    count_is = omega (arith, inv.count_is, moved inside i idle (locked h v) lt at);
    room = omega (arith, inv.room, moved waiting i idle (locked h v) lt at);
  }
