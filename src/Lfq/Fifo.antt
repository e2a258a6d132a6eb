-- ===== src/Lfq/Fifo.antt =====
-- The queue of archive/lfq/ipc_lfq.hh against a list of at most `n` values.
use charm_experiments.Common.{
  Outcome, length-append, update_ne, get_elem?-append_length, update_self, eq_or_ne, get_elem?,
  Bool-cases, length, update, ensure, ◌>>◌, leb, ltb, ℕ, zero, suc, ◌+◌, ◌-◌, ◌%◌, ◌^◌, ◌≤◌, ◌<◌,
  ◌≡◌, refl, sym, ap, ap₂, ◌∙◌, ◌≢◌, inl, inr, Bool, true, false, none, some, List, [], ◌∷◌, ◌++◌,
  arith, if◌then◌else◌, ok, nat_eq,
}
use charm_experiments.Lfq.{fetch, dequeue, add_size, store, enqueue, Lfq}
use native.Mathlib.Nat.{mod-add-mod, mod-eq_of_lt, mod_self, mod-lt}

-- the slot `i` places after another
abbrev pub wrap : ℕ → ℕ → ℕ
wrap n i = if leb n i then i - n else i

pub next_slot : (n h : ℕ) → 0 < n → (h + 1) % n ≡ wrap n (h % n + 1)
next_slot n h pos_n = sym (mod-add-mod h n 1) ∙ elim (Bool-cases (leb n (h % n + 1))) [
  | inl last ↦
      let top : h % n + 1 ≡ n = ground (arith, mod-lt h pos_n) in
      ap (λ k. k % n) top ∙ mod_self n ∙ ground (arith, top)
  | inr inside ↦
      mod-eq_of_lt (ground (arith, inside))
      ∙ ap (λ b. if b then h % n + 1 - n else h % n + 1) (sym inside)
]

get_elem?-beyond : {V : Type 0} (xs : List V) (i : ℕ) → length xs ≤ i → get_elem? xs i ≡ none
get_elem?-beyond [] i h = refl
get_elem?-beyond (x ∷ xs) zero h = ground arith
get_elem?-beyond (x ∷ xs) (suc i) h = get_elem?-beyond xs i (omega arith)

pub get_elem?-append_other :
    {V : Type 0} (xs : List V) (v : V) (i : ℕ)
    → i ≢ length xs
    → get_elem? (xs ++ (v ∷ [])) i ≡ get_elem? xs i
get_elem?-append_other [] v zero h = elim (h refl) [ ]
get_elem?-append_other [] v (suc i) h = refl
get_elem?-append_other (x ∷ xs) v zero h = refl
get_elem?-append_other (x ∷ xs) v (suc i) h = get_elem?-append_other xs v i (λ e. h (ap suc e))

-- The queue holds the values `xs`, the oldest first; the other slots are empty.
pub record IsFifo {V : Type 0} (n : ℕ) (q : Lfq V) (xs : List V) : Type 0 where
  pub counted : q.count ≡ length xs
  pub bounded : length xs ≤ n
  pub in_range : q.tail < n
  pub front : q.head % n ≡ wrap n (q.tail + length xs)
  pub values : (i : ℕ) → i < n → q.slots (wrap n (q.tail + i)) ≡ get_elem? xs i

module _ {V : Type 0} (n : ℕ) (q : Lfq V) (xs : List V) (inv : IsFifo n q xs) where
  abbrev enqueue_branch : V → Bool → Outcome (Bool × Lfq V)
  enqueue_branch v b =
      if b
      then ok (false, q)
      else store (q.head % n) v (q.slots (q.head % n))
          (record q { head = add_size q.head; count = add_size q.count })

  is_full : length xs ≡ n → leb n q.count ≡ true
  is_full full = ground (arith, inv.counted)

  has_room : length xs < n → leb n q.count ≡ false
  has_room room = ground (arith, inv.counted)

  pub enqueue_full : (v : V) → length xs ≡ n → enqueue n v q ≡ ok (false, q)
  unfolding enqueue
  enqueue_full v full = ap (enqueue_branch v) (is_full full)

  abbrev pub with_value : V → Lfq V
  with_value v = record q {
    head = q.head + 1;
    count = q.count + 1;
    slots = update (q.head % n) (some v) q.slots;
  }

  added_values :
      (v : V) (i : ℕ)
      → length xs < n
      → i < n
      → (with_value v).slots (wrap n (q.tail + i)) ≡ get_elem? (xs ++ (v ∷ [])) i
  added_values v i room lt = elim (eq_or_ne i (length xs)) [
    | inl same ↦
        ap (λ k. update (q.head % n) (some v) q.slots k)
          (ap (λ k. wrap n (q.tail + k)) same ∙ sym inv.front)
        ∙ update_self (q.head % n) (some v) q.slots
        ∙ sym (get_elem?-append_length xs v)
        ∙ ap (get_elem? (xs ++ (v ∷ []))) (sym same)
    | inr other ↦
        update_ne (q.head % n) (wrap n (q.tail + i)) (some v) q.slots
          (λ e. ground (arith, e, inv.front, inv.in_range))
        ∙ inv.values i lt
        ∙ sym (get_elem?-append_other xs v i other)
  ]

  slot_free : length xs < n → q.slots (q.head % n) ≡ none
  slot_free room =
      ap q.slots inv.front
      ∙ inv.values (length xs) room
      ∙ get_elem?-beyond xs (length xs) (omega arith)

  pub with_value-IsFifo : (v : V) → length xs < n → IsFifo n (with_value v) (xs ++ (v ∷ []))
  with_value-IsFifo v room = record {
    counted = omega (arith, inv.counted, length-append xs (v ∷ []));
    bounded = omega (arith, length-append xs (v ∷ []));
    in_range = inv.in_range;
    front =
        next_slot n q.head (omega arith) ∙ ap (λ k. wrap n (k + 1)) inv.front ∙ next_front v room;
    values = λ i lt. added_values v i room lt;
  }
    where
      next_front :
          (v : V)
          → length xs < n
          → wrap n (wrap n (q.tail + length xs) + 1) ≡ wrap n (q.tail + length (xs ++ (v ∷ [])))
      next_front v room = ground (arith, inv.in_range, length-append xs (v ∷ []))

  pub enqueue_room :
      (v : V)
      → length xs < n
      → q.head + 1 < 2 ^ 64
      → n < 2 ^ 64
      → enqueue n v q ≡ ok (true, with_value v)
  unfolding enqueue store
  enqueue_room v room small small_n =
      ap (enqueue_branch v) (has_room room)
      ∙ ap
          (λ o.
            store (q.head % n) v o (record q { head = add_size q.head; count = add_size q.count }))
          (slot_free room)
      ∙ ap₂
          (λ h c.
            ok (
              true,
              record q { head = h; count = c; slots = update (q.head % n) (some v) q.slots },
            ))
          (omega arith) (omega (arith, inv.counted))

module _ {V : Type 0} (n : ℕ) (q : Lfq V) where
  tail_slot : (xs : List V) → IsFifo n q xs → q.slots q.tail ≡ get_elem? xs 0
  tail_slot xs inv = ap q.slots (at_tail inv.in_range) ∙ inv.values 0 (omega (arith, inv.in_range))
    where
      at_tail : q.tail < n → q.tail ≡ wrap n (q.tail + 0)
      at_tail lt = ground arith

  pub dequeue_empty : IsFifo n q [] → dequeue n q ≡ ok (none, q)
  unfolding dequeue fetch
  dequeue_empty inv = ap (λ o. fetch n o q) (tail_slot [] inv)

  abbrev pub without_first : Lfq V
  without_first = record q {
    slots = update q.tail none q.slots;
    tail = if leb n (q.tail + 1) then 0 else q.tail + 1;
    count = q.count - 1;
  }

  module _ (x : V) (xs : List V) (inv : IsFifo n q (x ∷ xs)) where
    left_values :
        (i : ℕ) → i < n → without_first.slots (wrap n (without_first.tail + i)) ≡ get_elem? xs i
    left_values i lt = elim (eq_or_ne (suc i) n) [
      | inl last ↦
          ap without_first.slots (ground (arith, inv.in_range, last))
          ∙ update_self q.tail none q.slots
          ∙ sym (get_elem?-beyond xs i (ground (arith, inv.bounded, last)))
      | inr more ↦
          update_ne q.tail (wrap n (without_first.tail + i)) none q.slots
            (ground (arith, inv.in_range, more))
          ∙ ap q.slots (ground (arith, inv.in_range, more))
          ∙ inv.values (suc i) (ground (arith, more))
    ]

    pub without_first-IsFifo : IsFifo n without_first xs
    without_first-IsFifo = record {
      counted = omega (arith, inv.counted);
      bounded = omega (arith, inv.bounded);
      in_range = ground (arith, inv.in_range);
      front = inv.front ∙ ground (arith, inv.in_range, inv.bounded);
      values = left_values;
    }

    pub dequeue_first : dequeue n q ≡ ok (some x, without_first)
    unfolding dequeue fetch
    dequeue_first =
        let some_left : ltb 0 q.count ≡ true = ground (arith, inv.counted) in
        ap (λ o. fetch n o q) (tail_slot (x ∷ xs) inv)
        ∙ ap (λ b. ensure b >> ok (some x, without_first)) some_left
