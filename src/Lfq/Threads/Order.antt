-- ===== src/Lfq/Threads/Order.antt =====
-- Any number of producers and one consumer of the queue of archive/lfq/ipc_lfq.hh against a list.
use charm_experiments.Lfq.Threads.Dequeuing.{finish-IsSound, fetch-IsSound, look-IsSound}
use charm_experiments.Lfq.Threads.Total.{total_zero}
use charm_experiments.Lfq.Threads.Invariant.{holds, none_not_some}
use charm_experiments.Lfq.Threads.{
  Producer, finish_step, finishes, fetches, looking, looks, start, stores, takes_lock, ticket_step,
  takes_ticket, refuses, reserves, idle, out_of, Step, later, locked, Reach, in_of, Event, Shared,
  fresh,
}
use native.Mathlib.Nat.{zero-mod}
use charm_experiments.Common.{
  length-append, append-nil, length, ℕ, ◌+◌, ◌%◌, ◌^◌, ◌≤◌, ◌<◌, ◌≡◌, refl, sym, ap, subst, true,
  none, List, [], ◌∷◌, ◌++◌, arith, nat_eq, update, leb,
}
use charm_experiments.Lfq.Threads.Enqueuing.{
  pending, store-IsSound, lock-IsSound, ticket-IsSound, refuse-IsSound, reserve-IsSound, waiting,
  inside, IsSound,
}

module _ {V : Type 0} (n k : ℕ) (pos_n : 0 < n) (small : n + k < 2 ^ 64) where
  silently :
      (ins outs : List V) (s : Shared V)
      → IsSound n k ins outs s
      → IsSound n k (ins ++ []) (outs ++ []) s
  silently ins outs s inv =
      subst (λ xs. IsSound n k xs (outs ++ []) s) (sym (append-nil ins))
        (subst (λ xs. IsSound n k ins xs s) (sym (append-nil outs)) inv)

  Step-IsSound :
      (ins outs : List V) (s s' : Shared V) (e : Event V)
      → IsSound n k ins outs s
      → length (ins ++ in_of e) < 2 ^ 64
      → Step n k s e s'
      → IsSound n k (ins ++ in_of e) (outs ++ out_of e) s'
  Step-IsSound ins outs s _ _ inv lt (reserves i v lt_i at) =
      silently ins outs _
        (reserve-IsSound n k ins outs s inv i v (leb n s.count) refl small lt_i at)
  Step-IsSound ins outs s _ _ inv lt (refuses i lt_i at) =
      silently ins outs _ (refuse-IsSound n k ins outs s inv i small lt_i at)
  Step-IsSound ins outs s _ _ inv lt (takes_ticket i v lt_i at) =
      subst (λ xs. IsSound n k (ins ++ (v ∷ [])) xs (ticket_step i v s)) (sym (append-nil outs))
        (ticket-IsSound n k ins outs s inv i v (omega (arith, length-append ins (v ∷ []), lt)) lt_i
          at)
  Step-IsSound ins outs s _ _ inv lt (takes_lock i h v lt_i at free) =
      silently ins outs _ (lock-IsSound n k ins outs s inv i h v lt_i at)
  Step-IsSound ins outs s _ _ inv lt (stores i h v lt_i at) =
      silently ins outs _ (store-IsSound n k ins outs s inv i h v lt_i at)
  Step-IsSound ins outs s _ _ inv lt (looks at free) =
      silently ins outs _
        (look-IsSound n k ins outs s inv looking (update s.tail true s.locks) (ap pending at) refl)
  Step-IsSound ins outs s _ _ inv lt (fetches at) =
      silently ins outs _ (fetch-IsSound n k ins outs s inv (s.slots s.tail) pos_n at refl)
  Step-IsSound ins outs s _ _ inv lt (finishes v at) =
      subst (λ xs. IsSound n k xs (outs ++ (v ∷ [])) (finish_step n s)) (sym (append-nil ins))
        (finish-IsSound n k ins outs s inv v pos_n small at)

  fresh-IsSound : IsSound {V = V} n k [] [] fresh
  fresh-IsSound = record {
    rest = [];
    split = refl;
    placed = record {
      short = omega arith;
      ticket_from = λ i h v lt e. elim (none_not_some e) [ ];
      ticket_to = λ i h v lt e. elim (none_not_some e) [ ];
      ticket_value = λ i h v lt e. elim (none_not_some e) [ ];
      ticket_free = λ i h v lt e. elim (none_not_some e) [ ];
      one_holder = λ i j h v w lt lt' e e'. elim (none_not_some e) [ ];
      stored = λ h v le lt e. elim (none_not_some e) [ ];
      unused = λ h le lt. refl;
    };
    front = λ v e. cc;
    head_is = refl;
    tail_is = sym (zero-mod n);
    count_is = omega (arith, total_zero {P = Producer V} inside k idle refl);
    room = omega (arith, total_zero {P = Producer V} waiting k idle refl);
  }

  Reach-IsSound :
      (ins outs : List V) (s : Shared V)
      → length ins < 2 ^ 64
      → Reach n k ins outs s
      → IsSound n k ins outs s
  Reach-IsSound _ _ _ lt start = fresh-IsSound
  Reach-IsSound _ _ s' lt (later {ins = ins} {outs = outs} {s = s} {e = e} r step) =
      Step-IsSound ins outs s s' e
        (Reach-IsSound ins outs s (omega (arith, length-append ins (in_of e), lt)) r) lt step

  -- With at least one slot, less than 2 ^ 64 slots and producers together and less than 2 ^ 64
  -- values so far, in every order of the steps the consumer is handed the values in the order of
  -- their tickets, without a gap, and at most as many as there are slots are on their way.
  pub Reach-IsOrdered :
      (ins outs : List V) (s : Shared V)
      → length ins < 2 ^ 64
      → Reach n k ins outs s
      → (rest : List V) × (ins ≡ outs ++ rest) × (length rest ≤ n)
  Reach-IsOrdered ins outs s lt r =
      let inv = Reach-IsSound ins outs s lt r in
      (
        inv.rest,
        inv.split,
        omega (arith, inv.room, ap length inv.split, length-append outs inv.rest),
      )

  -- With at least one slot, less than 2 ^ 64 slots and producers together and less than 2 ^ 64
  -- values so far, a producer that has taken the lock of a slot finds the slot empty.
  pub locked_slot_empty :
      (ins outs : List V) (s : Shared V) (i h : ℕ) (v : V)
      → length ins < 2 ^ 64
      → Reach n k ins outs s
      → i < k
      → s.producers i ≡ locked h v
      → s.slots (h % n) ≡ none
  locked_slot_empty ins outs s i h v lt r lt_i at =
      (Reach-IsSound ins outs s lt r).placed.ticket_free i h v lt_i (ap holds at)
