-- ===== src/Completion/Chare.antt =====
-- The chares `test` of archive/charmlite/examples/cdt/pgm.cc, which produce and consume the events.
pub mod Handled
use charm_experiments.Common.{
  zero, suc, ◌>>=◌, ok, out_of_fuel, Outcome, pos, Assoc, Eq, ℕ, Bool, true, false, not, ◌&&◌,
  Option, none, some, List, [], ◌∷◌, ◌++◌, ◌==◌, if◌then◌else◌, nat_eq,
}
use charm_experiments.Completion.{consume, produce, Status}

-- The messages for its entry methods `produce` and `consume`
pub data TestMsg : Type 0 where
  produce_msg : TestMsg
  consume_msg : TestMsg

-- What an element sends: a message to all elements, or one that starts the detection everywhere,
-- with exit as its callback.
pub data TestSent : Type 0 where
  broadcast_consume : TestSent
  broadcast_detection : TestSent

-- an element of `test`, with the counts of the local branch of the detector, if it is there
pub record TestElement (K M : Type 0) : Type 0 where
  pub index : ℕ
  pub detection_started : Bool
  pub detector_branch : Option (Assoc K (Status M))
  pub test_sent : List TestSent

module _ {K M : Type 0} ⦃eq_key : Eq K⦄ (num_pes : ℕ) (col : K) where
  abbrev pub test_emit : TestSent → TestElement K M → TestElement K M
  test_emit s t = record t { test_sent = t.test_sent ++ (s ∷ []) }

  -- `produce`, given the local branch. `again` is what `elt.send` does: the element is here, so that
  -- `deliver` calls the entry method again at once.
  unfoldable pub test_produce :
      (TestElement K M → Outcome (TestElement K M))
      → Option (Assoc K (Status M))
      → TestElement K M
      → Outcome (TestElement K M)
  test_produce again none t = again t
  test_produce again (some statii) t = ok (
      test_emit broadcast_consume
        (record t { detector_branch = some (produce col (pos num_pes) statii) }))

  -- the start of the detection in `consume`
  abbrev pub start_once : TestElement K M → TestElement K M
  start_once t =
      if not t.detection_started && (t.index == 0)
      then record (test_emit broadcast_detection t) { detection_started = true }
      else t

  -- `consume`, given the local branch
  unfoldable pub test_consume :
      (TestElement K M → Outcome (TestElement K M))
      → Option (Assoc K (Status M))
      → TestElement K M
      → Outcome (TestElement K M)
  test_consume again none t = again t
  test_consume again (some statii) t =
      ok (start_once (record t { detector_branch = some (consume col (pos 1) statii) }))

  -- The fuel bounds the depth of the calls.
  unfoldable pub test_handle : ℕ → TestMsg → TestElement K M → Outcome (TestElement K M)
  unfolding test_produce test_consume
  test_handle zero m t = out_of_fuel
  test_handle (suc fuel) produce_msg t =
      test_produce (test_handle fuel produce_msg) t.detector_branch t
  test_handle (suc fuel) consume_msg t =
      test_consume (test_handle fuel consume_msg) t.detector_branch t

  abbrev pub test_run : ℕ → List TestMsg → TestElement K M → Outcome (TestElement K M)
  test_run fuel [] t = ok t
  test_run fuel (m ∷ ms) t = test_handle fuel m t >>= test_run fuel ms
