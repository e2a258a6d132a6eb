-- ===== src/Lfq/Threads/Invariant.antt =====
-- What the threads of archive/lfq/ipc_lfq.hh keep: the tickets and the slots.
use charm_experiments.Common.{
  get_elem?-append_left, get_elem?-append_length, get_elem?, length-append, some-injective,
  update_ne, update_self, eq_or_ne, length, ℕ, ◌+◌, ◌%◌, ◌≤◌, ◌<◌, ◌≡◌, sym, ap, ◌∙◌, ◌≢◌, ◌⊎◌, inl,
  inr, Option, none, some, List, [], ◌∷◌, ◌++◌, arith, nat_eq, update,
}
use charm_experiments.Lfq.Threads.{idle, locked, ticket, Producer}
use charm_experiments.Lfq.Threads.Total.{lt_or_ge, slots_apart}
use native.Mathlib.Nat.{add-mod_right}
use charm_experiments.Lfq.Fifo.{get_elem?-append_other}

-- the ticket that a producer holds, with its value
abbrev pub holds : {V : Type 0} → Producer V → Option (ℕ × V)
holds (ticket h v) = some (h, v)
holds (locked h v) = some (h, v)
holds _ = none

-- The `ins` are the values that have a ticket, in order; the consumer has emptied the slots of the
-- first `d` of them, and `n` slots are there.
pub record IsPlaced {V : Type 0} (n k : ℕ) (ins : List V) (d : ℕ) (slots : ℕ → Option V)
    (pc : ℕ → Producer V) : Type 0 where
  pub short : length ins ≤ d + n
  pub ticket_from : (i h : ℕ) (v : V) → i < k → holds (pc i) ≡ some (h, v) → d ≤ h
  pub ticket_to : (i h : ℕ) (v : V) → i < k → holds (pc i) ≡ some (h, v) → h < length ins
  pub ticket_value :
      (i h : ℕ) (v : V) → i < k → holds (pc i) ≡ some (h, v) → get_elem? ins h ≡ some v
  pub ticket_free : (i h : ℕ) (v : V) → i < k → holds (pc i) ≡ some (h, v) → slots (h % n) ≡ none
  pub one_holder :
      (i j h : ℕ) (v w : V)
      → i < k
      → j < k
      → holds (pc i) ≡ some (h, v)
      → holds (pc j) ≡ some (h, w)
      → i ≡ j
  pub stored :
      (h : ℕ) (v : V) → d ≤ h → h < length ins → slots (h % n) ≡ some v → get_elem? ins h ≡ some v
  pub unused : (h : ℕ) → length ins ≤ h → h < d + n → slots (h % n) ≡ none

pub none_not_some : {V : Type 0} {v : V} → none ≡ some v → ⊥
none_not_some e = cc

module _ {V : Type 0} (n k : ℕ) (ins : List V) (d : ℕ) (slots : ℕ → Option V) (pc : ℕ → Producer V)
    (inv : IsPlaced n k ins d slots pc) where
  -- the ticket of a producer after one of them has moved
  holds_after :
      (i j : ℕ) (p : Producer V)
      → ((i ≡ j) × (holds (update i p pc j) ≡ holds p))
        ⊎ ((i ≢ j) × (holds (update i p pc j) ≡ holds (pc j)))
  holds_after i j p = elim (eq_or_ne i j) [
    | inl e ↦ inl (e, ap holds (ap (update i p pc) (sym e) ∙ update_self i p pc))
    | inr ne ↦ inr (ne, ap holds (update_ne i j p pc (λ e. ne (sym e))))
  ]

  -- A producer moves and keeps what it holds.
  same_holder :
      (i j : ℕ) (p : Producer V) → holds p ≡ holds (pc i) → holds (update i p pc j) ≡ holds (pc j)
  same_holder i j p same = elim (holds_after i j p) [
    | inl (e, at) ↦ at ∙ same ∙ ap (λ k. holds (pc k)) e
    | inr (ne, at) ↦ at
  ]

  pub move-IsPlaced :
      (i : ℕ) (p : Producer V) → holds p ≡ holds (pc i) → IsPlaced n k ins d slots (update i p pc)
  move-IsPlaced i p same = record {
    short = inv.short;
    ticket_from = λ j h v lt e. inv.ticket_from j h v lt (sym (same_holder i j p same) ∙ e);
    ticket_to = λ j h v lt e. inv.ticket_to j h v lt (sym (same_holder i j p same) ∙ e);
    ticket_value = λ j h v lt e. inv.ticket_value j h v lt (sym (same_holder i j p same) ∙ e);
    ticket_free = λ j h v lt e. inv.ticket_free j h v lt (sym (same_holder i j p same) ∙ e);
    one_holder = λ j j' h v w lt lt' e e'.
        inv.one_holder j j' h v w lt lt' (sym (same_holder i j p same) ∙ e)
          (sym (same_holder i j' p same) ∙ e');
    stored = inv.stored;
    unused = inv.unused;
  }

  -- A producer takes the next ticket.
  old_or_new :
      (i j h : ℕ) (v w : V)
      → holds (update i (ticket (length ins) v) pc j) ≡ some (h, w)
      → ((i ≡ j) × (h ≡ length ins) × (w ≡ v)) ⊎ (holds (pc j) ≡ some (h, w))
  old_or_new i j h v w e = elim (holds_after i j (ticket (length ins) v)) [
    | inl (same, at) ↦
        let pair = some-injective (sym e ∙ at) in inl (same, ap (λ x. x.0) pair, ap (λ x. x.1) pair)
    | inr (ne, at) ↦ inr (sym at ∙ e)
  ]

  pub ticket-IsPlaced :
      (i : ℕ) (v : V)
      → length ins < d + n
      → d ≤ length ins
      → IsPlaced n k (ins ++ (v ∷ [])) d slots (update i (ticket (length ins) v) pc)
  ticket-IsPlaced i v room le =
      let size : length (ins ++ (v ∷ [])) ≡ length ins + 1 = length-append ins (v ∷ []) in
      record {
        short = omega (arith, size);
        ticket_from = λ j h w lt e. elim (old_or_new i j h v w e) [
          | inl (same, at, eq) ↦ omega (arith, at)
          | inr old ↦ inv.ticket_from j h w lt old
        ];
        ticket_to = λ j h w lt e. elim (old_or_new i j h v w e) [
          | inl (same, at, eq) ↦ omega (arith, at, size)
          | inr old ↦ omega (arith, inv.ticket_to j h w lt old, size)
        ];
        ticket_value = λ j h w lt e. elim (old_or_new i j h v w e) [
          | inl (same, at, eq) ↦
              ap (get_elem? (ins ++ (v ∷ []))) at ∙ get_elem?-append_length ins v ∙ ap some (sym eq)
          | inr old ↦
              get_elem?-append_left ins (v ∷ []) h (inv.ticket_to j h w lt old)
              ∙ inv.ticket_value j h w lt old
        ];
        ticket_free = λ j h w lt e. elim (old_or_new i j h v w e) [
          | inl (same, at, eq) ↦
              ap (λ h. slots (h % n)) at ∙ inv.unused (length ins) (omega arith) room
          | inr old ↦ inv.ticket_free j h w lt old
        ];
        one_holder = λ j j' h w w' lt lt' e e'. elim (old_or_new i j h v w e) [
          | inl (same, at, eq) ↦ elim (old_or_new i j' h v w' e') [
            | inl (same', at', eq') ↦ sym same ∙ same'
            | inr old' ↦ ground (arith, inv.ticket_to j' h w' lt' old', at)
          ]
          | inr old ↦ elim (old_or_new i j' h v w' e') [
            | inl (same', at', eq') ↦ ground (arith, inv.ticket_to j h w lt old, at')
            | inr old' ↦ inv.one_holder j j' h w w' lt lt' old old'
          ]
        ];
        stored = λ h w from to e. elim (eq_or_ne h (length ins)) [
          | inl at ↦
              elim (none_not_some (
                sym (ap (λ h. slots (h % n)) at ∙ inv.unused (length ins) (omega arith) room)
                ∙ e)) [ ]
          | inr ne ↦
              get_elem?-append_other ins v h ne
              ∙ inv.stored h w from (ground (arith, ne, to, size)) e
        ];
        unused = λ h from to. inv.unused h (omega (arith, size, from)) to;
      }

  -- A producer that holds a ticket stores its value and lets the ticket go.
  other_holder :
      (i j h h' : ℕ) (v w : V)
      → i < k
      → j < k
      → holds (pc i) ≡ some (h, v)
      → holds (update i idle pc j) ≡ some (h', w)
      → (holds (pc j) ≡ some (h', w)) × (h ≢ h')
  other_holder i j h h' v w lt lt' mine e = elim (holds_after i j idle) [
    | inl (same, at) ↦ elim (none_not_some (sym at ∙ e)) [ ]
    | inr (ne, at) ↦
        let old = sym at ∙ e in
        (
          old,
          λ eq. ne (inv.one_holder i j h v w lt lt' mine (old ∙ ap (λ h. some (h, w)) (sym eq))),
        )
  ]

  -- Other places that are in use or next have other slots.
  other_slot : (h h' : ℕ) → d ≤ h → h < length ins → d ≤ h' → h' < d + n → h ≢ h' → h' % n ≢ h % n
  other_slot h h' from to from' to' ne e = elim (lt_or_ge h h') [
    | inl lt ↦ slots_apart n h h' lt (omega (arith)) (sym e)
    | inr ge ↦ slots_apart n h' h (ground (arith, ne)) (omega (arith, inv.short)) e
  ]

  pub store-IsPlaced :
      (i h : ℕ) (v : V)
      → i < k
      → holds (pc i) ≡ some (h, v)
      → IsPlaced n k ins d (update (h % n) (some v) slots) (update i idle pc)
  store-IsPlaced i h v lt mine =
      let from = inv.ticket_from i h v lt mine in
      let to = inv.ticket_to i h v lt mine in
      record {
        short = inv.short;
        ticket_from = λ j h' w lt_j e.
            inv.ticket_from j h' w lt_j (other_holder i j h h' v w lt lt_j mine e).0;
        ticket_to =
            λ j h' w lt_j e. inv.ticket_to j h' w lt_j (other_holder i j h h' v w lt lt_j mine e).0;
        ticket_value = λ j h' w lt_j e.
            inv.ticket_value j h' w lt_j (other_holder i j h h' v w lt lt_j mine e).0;
        ticket_free = λ j h' w lt_j e.
            let (old, ne) = other_holder i j h h' v w lt lt_j mine e in
            update_ne (h % n) (h' % n) (some v) slots (
              other_slot h h' from to (inv.ticket_from j h' w lt_j old)
                (omega (arith, inv.ticket_to j h' w lt_j old, inv.short)) ne)
            ∙ inv.ticket_free j h' w lt_j old;
        one_holder = λ j j' h' w w' lt_j lt_j' e e'.
            inv.one_holder j j' h' w w' lt_j lt_j' (other_holder i j h h' v w lt lt_j mine e).0
              (other_holder i j' h h' v w' lt lt_j' mine e').0;
        stored = λ h' w from' to' e. elim (eq_or_ne h h') [
          | inl eq ↦
              ap (get_elem? ins) (sym eq)
              ∙ inv.ticket_value i h v lt mine
              ∙ sym (update_self (h % n) (some v) slots)
              ∙ ap (λ g. update (h % n) (some v) slots (g % n)) eq
              ∙ e
          | inr ne ↦ inv.stored h' w from' to' (
              sym (
                update_ne (h % n) (h' % n) (some v) slots
                  (other_slot h h' from to from' (omega (arith, inv.short)) ne))
              ∙ e)
        ];
        unused = λ h' from' to'.
            update_ne (h % n) (h' % n) (some v) slots
              (other_slot h h' from to (omega arith) to' (λ e. ground (arith, e)))
            ∙ inv.unused h' from' to';
      }

  -- an update with nothing leaves an empty slot empty
  still_empty : (t i : ℕ) → slots i ≡ none → update t none slots i ≡ none
  still_empty t i e = elim (eq_or_ne t i) [
    | inl same ↦ ap (update t none slots) (sym same) ∙ update_self t none slots
    | inr ne ↦ update_ne t i none slots (λ e. ne (sym e)) ∙ e
  ]

  -- what is found after such an update was there before
  was_there : (t i : ℕ) (v : V) → update t none slots i ≡ some v → slots i ≡ some v
  was_there t i v e = elim (eq_or_ne t i) [
    | inl same ↦
        elim (none_not_some
          (sym (ap (update t none slots) (sym same) ∙ update_self t none slots) ∙ e)) [ ]
    | inr ne ↦ sym (update_ne t i none slots (λ e. ne (sym e))) ∙ e
  ]

  -- The slot of place `d` is emptied.
  pub fetch-IsPlaced :
      (v : V)
      → 0 < n
      → slots (d % n) ≡ some v
      → IsPlaced n k ins (d + 1) (update (d % n) none slots) pc
  fetch-IsPlaced v pos_n full = record {
    short = omega (arith, inv.short);
    ticket_from = λ j h w lt e. elim (eq_or_ne h d) [
      | inl at ↦
          elim (none_not_some
            (sym (ap (λ h. slots (h % n)) (sym at) ∙ inv.ticket_free j h w lt e) ∙ full)) [ ]
      | inr ne ↦ ground (arith, ne, inv.ticket_from j h w lt e)
    ];
    ticket_to = inv.ticket_to;
    ticket_value = inv.ticket_value;
    ticket_free = λ j h w lt e. still_empty (d % n) (h % n) (inv.ticket_free j h w lt e);
    one_holder = inv.one_holder;
    stored = λ h w from to e. inv.stored h w (omega arith) to (was_there (d % n) (h % n) w e);
    unused = λ h from to. elim (eq_or_ne h (d + n)) [
      | inl at ↦
          ap (update (d % n) none slots) (ap (λ h. h % n) at ∙ add-mod_right d n)
          ∙ update_self (d % n) none slots
      | inr ne ↦ still_empty (d % n) (h % n) (inv.unused h from (ground (arith, ne)))
    ];
  }

  -- What is found in the slot of place `d` is the value with that place.
  pub found_in_order : (v : V) → 0 < n → slots (d % n) ≡ some v → get_elem? ins d ≡ some v
  found_in_order v pos_n full = elim (lt_or_ge d (length ins)) [
    | inl lt ↦ inv.stored d v (omega arith) lt full
    | inr ge ↦ elim (none_not_some (sym (inv.unused d ge (omega arith)) ∙ full)) [ ]
  ]
