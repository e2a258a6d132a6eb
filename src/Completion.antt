-- ===== src/Completion.antt =====
-- archive/charmlite/examples/cdt/pgm.cc: completion detection. Each PE counts the events that it
-- produces and consumes for a collective, and the sum of the counts tells whether all is consumed.
-- `K` is the type of the collectives' indices and `M` that of the detection messages.
pub mod Chare
pub mod Counts
pub mod Tests
use charm_experiments.Common.{
  pos, ◌+ℤ◌, neg_ℤ, eq_ℤ, Eq, find, put, deref, Assoc, Outcome, Bool, false, Option, none, some, [],
  arith, if◌then◌else◌, ◌>>=◌, ok, nat_eq, ℤ,
}

-- `completion::status`
pub record Status (M : Type 0) : Type 0 where
  pub msg : Option M
  pub lcount : ℤ  -- std::int64_t
  pub complete : Bool

-- `get_status`, given what the map has
abbrev pub status_with : {M : Type 0} → Option M → Option (Status M) → Status M
status_with m none = record { msg = m; lcount = pos 0; complete = false }
status_with none (some s) = s
status_with (some m) (some s) = record s { msg = some m }

-- what `start_detection` does: the callback of the message is sent, or a count is contributed
pub data Detection (M : Type 0) : Type 0 where
  callback_sent : M → Detection M
  contributed : ℤ → Detection M

module _ {K M : Type 0} ⦃eq_key : Eq K⦄ where
  -- `produce` and `consume`
  unfoldable pub produce : K → ℤ → Assoc K (Status M) → Assoc K (Status M)
  produce idx n statii =
      let s = status_with none (find idx statii) in
      put idx (record s { lcount = s.lcount +ℤ n }) statii

  unfoldable pub consume : K → ℤ → Assoc K (Status M) → Assoc K (Status M)
  consume idx n statii = produce idx (neg_ℤ n) statii

  -- `start_detection`
  unfoldable pub start_detection : K → M → Assoc K (Status M) → Detection M × Assoc K (Status M)
  start_detection idx m statii =
      let s = status_with (some m) (find idx statii) in
      (if s.complete then callback_sent m else contributed s.lcount, put idx s statii)

  -- `receive_count_`; a null message is dereferenced.
  unfoldable pub receive_count :
      K → ℤ → Assoc K (Status M) → Outcome (Detection M × Assoc K (Status M))
  receive_count idx gcount statii =
      let s = status_with none (find idx statii) in
      deref s.msg >>= λ m.
      ok (start_detection idx m (put idx (record s { complete = eq_ℤ gcount (pos 0) }) statii))
