-- ===== src/Completion/Chare/Handled.antt =====
-- What the chares `test` of archive/charmlite/examples/cdt/pgm.cc have counted.
use charm_experiments.Common.{
  zero, suc, ◌<◌, ◌>>=◌, ok, Outcome, +ℤ_parts, eq_of_parts, neg_ℤ, find, ◌+ℤ◌, pos, sub_ℕ, Assoc,
  Eq, ℕ, ◌+◌, ◌≡◌, refl, sym, ap, subst, ◌∙◌, Bool, true, false, not, ◌&&◌, none, some, List, [],
  ◌∷◌, ◌++◌, arith, ◌==◌, if◌then◌else◌, nat_eq, ltb,
}
use charm_experiments.Completion.{status_with, consume, produce, Status}
use charm_experiments.Completion.Counts.{count-produce, count_of}
use charm_experiments.Completion.Chare.{
  TestMsg, produce_msg, consume_msg, TestSent, broadcast_consume, broadcast_detection, TestElement,
  test_emit, test_produce, test_consume, test_handle, test_run,
}

-- the events of the messages, and how often something was sent
abbrev pub produced_by : ℕ → List TestMsg → ℕ
produced_by n [] = 0
produced_by n (produce_msg ∷ ms) = n + produced_by n ms
produced_by n (consume_msg ∷ ms) = produced_by n ms

abbrev pub consumed_by : List TestMsg → ℕ
consumed_by [] = 0
consumed_by (produce_msg ∷ ms) = consumed_by ms
consumed_by (consume_msg ∷ ms) = 1 + consumed_by ms

abbrev pub detections : List TestSent → ℕ
detections [] = 0
detections (broadcast_detection ∷ ss) = 1 + detections ss
detections (_ ∷ ss) = detections ss

detections-append : (xs ys : List TestSent) → detections (xs ++ ys) ≡ detections xs + detections ys
detections-append [] ys = omega arith
detections-append (x ∷ xs) ys = ground (arith, detections-append xs ys)

add_events : (p c n : ℕ) → sub_ℕ p c +ℤ pos n ≡ sub_ℕ (p + n) c
add_events p c n = eq_of_parts _ _ (ground (arith, +ℤ_parts (sub_ℕ p c) (pos n)))

take_event : (p c : ℕ) → sub_ℕ p c +ℤ neg_ℤ (pos 1) ≡ sub_ℕ p (c + 1)
take_event p c = eq_of_parts _ _ (ground (arith, +ℤ_parts (sub_ℕ p c) (neg_ℤ (pos 1))))

abbrev one_if : Bool → ℕ
one_if b = if b then 1 else 0

module _ {K M : Type 0} ⦃eq_key : Eq K⦄ (num_pes : ℕ) (col : K) where
  -- The element has handled messages that produce `p` events and consume `c` of them.
  pub record HasHandled (p c : ℕ) (t : TestElement K M) : Type 0 where
    pub statii : Assoc K (Status M)
    pub here : t.detector_branch ≡ some statii
    pub counted : count_of col statii ≡ sub_ℕ p c
    pub started : t.detection_started ≡ (ltb 0 c && (t.index == 0))
    pub once : detections t.test_sent ≡ one_if (ltb 0 c && (t.index == 0))

  abbrev pub Handles : ℕ → ℕ → Outcome (TestElement K M) → Type 0
  Handles p c o = (t' : TestElement K M) × (o ≡ ok t') × HasHandled p c t'

  produce-HasHandled :
      (fuel p c : ℕ) (t : TestElement K M)
      → HasHandled p c t
      → Handles (p + num_pes) c (test_handle num_pes col (suc fuel) produce_msg t)
  unfolding test_handle test_produce
  produce-HasHandled fuel p c t h =
      subst
        (λ o.
          Handles (p + num_pes) c
            (test_produce num_pes col (test_handle num_pes col fuel produce_msg) o t))
        (sym h.here)
        (
          _,
          refl,
          record {
            statii = produce col (pos num_pes) h.statii;
            here = refl;
            counted =
                count-produce col (pos num_pes) h.statii
                ∙ ap (λ z. z +ℤ pos num_pes) h.counted
                ∙ add_events p c num_pes;
            started = h.started;
            once = omega (arith, detections-append t.test_sent (broadcast_consume ∷ []), h.once);
          },
        )

  consume-HasHandled :
      (fuel p c : ℕ) (t : TestElement K M)
      → HasHandled p c t
      → Handles p (c + 1) (test_handle num_pes col (suc fuel) consume_msg t)
  unfolding test_handle test_consume consume produce
  consume-HasHandled fuel p c t h =
      subst
        (λ o.
          Handles p (c + 1)
            (test_consume num_pes col (test_handle num_pes col fuel consume_msg) o t))
        (sym h.here) (_, refl, decide _ refl)
    where
      after : TestElement K M
      after = record t { detector_branch = some (consume col (pos 1) h.statii) }

      lower : count_of col (consume col (pos 1) h.statii) ≡ sub_ℕ p (c + 1)
      lower =
          count-produce col (neg_ℤ (pos 1)) h.statii
          ∙ ap (λ z. z +ℤ neg_ℤ (pos 1)) h.counted
          ∙ take_event p c

      decide :
          (b : Bool)
          → (not t.detection_started && (t.index == 0)) ≡ b
          → HasHandled p (c + 1) (
              if b
              then record (test_emit num_pes col broadcast_detection after) {
                detection_started = true;
              }
              else after)
      decide true e = record {
        statii = consume col (pos 1) h.statii;
        here = refl;
        counted = lower;
        started = ground (arith, e);
        once =
            ground (
              arith,
              detections-append t.test_sent (broadcast_detection ∷ []),
              h.once,
              h.started,
              e,
            );
      }
      decide false e = record {
        statii = consume col (pos 1) h.statii;
        here = refl;
        counted = lower;
        started = h.started ∙ ground (arith, h.started, e);
        once = h.once ∙ ground (arith, h.started, e);
      }

  run-HasHandled :
      (fuel : ℕ) (ms : List TestMsg) (p c p' c' : ℕ) (t : TestElement K M)
      → p + produced_by num_pes ms ≡ p'
      → c + consumed_by ms ≡ c'
      → HasHandled p c t
      → Handles p' c' (test_run num_pes col (suc fuel) ms t)
  run-HasHandled fuel [] p c p' c' t e_p e_c h = (
    t,
    refl,
    subst (λ n. HasHandled n c' t) (omega (arith, e_p))
        (subst (λ n. HasHandled p n t) (omega (arith, e_c)) h),
  )
  run-HasHandled fuel (produce_msg ∷ ms) p c p' c' t e_p e_c h =
      let (t1, now, h1) = produce-HasHandled fuel p c t h in
      let (t', later, h') =
        run-HasHandled fuel ms (p + num_pes) c p' c' t1 (omega (arith, e_p)) e_c h1 in
      (t', ap (λ o. o >>= test_run num_pes col (suc fuel) ms) now ∙ later, h')
  run-HasHandled fuel (consume_msg ∷ ms) p c p' c' t e_p e_c h =
      let (t1, now, h1) = consume-HasHandled fuel p c t h in
      let (t', later, h') = run-HasHandled fuel ms p (c + 1) p' c' t1 e_p (omega (arith, e_c)) h1 in
      (t', ap (λ o. o >>= test_run num_pes col (suc fuel) ms) now ∙ later, h')

  -- An element that has sent nothing, where the local branch of the detector is there and has no
  -- count for its collective, handles any messages, with no call of its entry methods inside another
  -- (fuel 1 is enough), and has then counted the events that they produce less those that they
  -- consume; the detection is started by the element with index 0 alone, and once, by the first
  -- message that consumes.
  pub test_run-HasHandled :
      (fuel : ℕ) (ms : List TestMsg) (t : TestElement K M) (statii : Assoc K (Status M))
      → 0 < fuel
      → t.detector_branch ≡ some statii
      → find col statii ≡ none
      → t.detection_started ≡ false
      → t.test_sent ≡ []
      → Handles (produced_by num_pes ms) (consumed_by ms) (test_run num_pes col fuel ms t)
  test_run-HasHandled zero ms t statii lt here unknown off quiet = elim lt [ ]
  test_run-HasHandled (suc fuel) ms t statii lt here unknown off quiet =
      run-HasHandled fuel ms 0 0 _ _ t (omega arith) (omega arith) (record {
        statii = statii;
        here = here;
        counted = ap (λ o. (status_with none o).lcount) unknown;
        started = off;
        once = ap detections quiet;
      })
