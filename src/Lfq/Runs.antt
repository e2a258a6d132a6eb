-- ===== src/Lfq/Runs.antt =====
-- Sequences of calls of archive/lfq/ipc_lfq.hh against a bounded first-in first-out list.
use charm_experiments.Common.{
  Bool-cases, length, leb, Outcome, ℕ, ◌+◌, ◌^◌, ◌≤◌, ◌<◌, ◌≡◌, refl, sym, ap, subst, ◌∙◌, inl, inr,
  Bool, true, false, Option, none, some, List, [], ◌∷◌, ◌++◌, arith, if◌then◌else◌, ◌>>=◌, ok,
  nat_eq,
}
use charm_experiments.Lfq.{dequeue, enqueue, Lfq}
use charm_experiments.Lfq.Fifo.{
  with_value-IsFifo, enqueue_room, enqueue_full, without_first-IsFifo, dequeue_first, dequeue_empty,
  with_value, without_first, IsFifo,
}

pub data Call (V : Type 0) : Type 0 where
  put : V → Call V
  get : Call V

pub data Answer (V : Type 0) : Type 0 where
  stored : Bool → Answer V
  got : Option V → Answer V

module _ {V : Type 0} (n : ℕ) where
  abbrev pub call : Call V → Lfq V → Outcome (Answer V × Lfq V)
  call (put v) q = enqueue n v q >>= λ r. ok (stored r.0, r.1)
  call get q = dequeue n q >>= λ r. ok (got r.0, r.1)

  abbrev pub run : List (Call V) → Lfq V → Outcome (List (Answer V) × Lfq V)
  run [] q = ok ([], q)
  run (c ∷ cs) q = call c q >>= λ r. run cs r.1 >>= λ rest. ok (r.0 ∷ rest.0, rest.1)

  -- the specification: a list of at most `n` values
  abbrev pub fifo_call : Call V → List V → Answer V × List V
  fifo_call (put v) xs =
      if leb n (length xs) then (stored false, xs) else (stored true, xs ++ (v ∷ []))
  fifo_call get [] = (got none, [])
  fifo_call get (x ∷ xs) = (got (some x), xs)

  abbrev pub fifo_run : List (Call V) → List V → List (Answer V) × List V
  fifo_run [] xs = ([], xs)
  fifo_run (c ∷ cs) xs =
      let (a, ys) = fifo_call c xs in let (answers, zs) = fifo_run cs ys in (a ∷ answers, zs)

  -- What one call does, with its answer and the list after it.
  record Agrees (c : Call V) (q : Lfq V) (r : Answer V × List V) : Type 0 where
    pub after : Lfq V
    pub returns : call c q ≡ ok (r.0, after)
    pub holds : IsFifo n after r.1
    pub small_step : after.head ≤ q.head + 1

  call-Agrees :
      (c : Call V) (q : Lfq V) (xs : List V)
      → n < 2 ^ 64
      → q.head + 1 < 2 ^ 64
      → IsFifo n q xs
      → Agrees c q (fifo_call c xs)
  call-Agrees get q [] small_n small inv = record {
    after = q;
    returns = ap (λ o. o >>= λ r. ok (got r.0, r.1)) (dequeue_empty n q inv);
    holds = inv;
    small_step = omega arith;
  }
  call-Agrees get q (x ∷ xs) small_n small inv = record {
    after = without_first n q;
    returns = ap (λ o. o >>= λ r. ok (got r.0, r.1)) (dequeue_first n q x xs inv);
    holds = without_first-IsFifo n q x xs inv;
    small_step = omega arith;
  }
  call-Agrees (put v) q xs small_n small inv = elim (Bool-cases (leb n (length xs))) [
    | inl full ↦
        subst
          (λ b. Agrees (put v) q (if b then (stored false, xs) else (stored true, xs ++ (v ∷ []))))
          (sym full)
          (record {
            after = q;
            returns =
                ap (λ o. o >>= λ r. ok (stored r.0, r.1))
                  (enqueue_full n q xs inv v (ground (arith, full, inv.bounded)));
            holds = inv;
            small_step = omega arith;
          })
    | inr room ↦
        let below : length xs < n = ground (arith, room) in
        subst
          (λ b. Agrees (put v) q (if b then (stored false, xs) else (stored true, xs ++ (v ∷ []))))
          (sym room)
          (record {
            after = with_value n q xs inv v;
            returns =
                ap (λ o. o >>= λ r. ok (stored r.0, r.1))
                  (enqueue_room n q xs inv v below small small_n);
            holds = with_value-IsFifo n q xs inv v below;
            small_step = omega arith;
          })
  ]

  -- A sequence of calls, one at a time, on a queue that holds the values `xs` gives the answers of a
  -- first-in first-out list of at most `n` values, and leaves the queue with that list's values; no
  -- assertion fails. The head has to stay below 2 ^ 64.
  pub run-IsFifo :
      (cs : List (Call V)) (q : Lfq V) (xs : List V)
      → n < 2 ^ 64
      → q.head + length cs < 2 ^ 64
      → IsFifo n q xs
      → (q' : Lfq V) × (run cs q ≡ ok ((fifo_run cs xs).0, q')) × IsFifo n q' (fifo_run cs xs).1
  run-IsFifo [] q xs small_n small inv = (q, refl, inv)
  run-IsFifo (c ∷ cs) q xs small_n small inv =
      let a = call-Agrees c q xs small_n (omega arith) inv in
      let (q', rest, inv') =
        run-IsFifo cs a.after (fifo_call c xs).1 small_n (omega (arith, a.small_step)) a.holds in
      (
        q',
        ap (λ o. o >>= λ r. run cs r.1 >>= λ rest. ok (r.0 ∷ rest.0, rest.1)) a.returns
            ∙ ap (λ o. o >>= λ rest. ok ((fifo_call c xs).0 ∷ rest.0, rest.1)) rest,
        inv',
      )
