-- ===== src/Completion/Tests.antt =====
-- A run of the model of archive/charmlite/examples/cdt/pgm.cc on two PEs, and an instance of its
-- theorem.
use charm_experiments.Completion.Chare.Handled.{test_run-HasHandled, Handles}
use charm_experiments.Completion.Chare.{produce_msg, consume_msg, TestMsg, test_run, TestElement}
use charm_experiments.Common.{
  List, put, pos, ◌+ℤ◌, find, Assoc, ℕ, ◌≡◌, refl, false, none, some, [], ◌∷◌, arith, ok, nat_eq,
}
use charm_experiments.Completion.{consume, produce, receive_count, Status, contributed}
use charm_experiments.Completion.Counts.{
  detection_exact, total, IsExact, Steps, at_pe, count_of, World, done, then_step, produces,
  consumes,
}

abbrev start : World ℕ ℕ
start = record { pes = [] ∷ [] ∷ []; flying = 0 }

abbrev produced : World ℕ ℕ
produced = record { pes = at_pe 0 (produce 4 (pos 2)) start.pes; flying = 2 }

abbrev half_consumed : World ℕ ℕ
half_consumed = record { pes = at_pe 1 (consume 4 (pos 1)) produced.pes; flying = 1 }

run : Steps 4 start half_consumed
run =
    then_step (produces start 0 2 (omega arith))
      (then_step (consumes produced 1 (omega arith) (omega arith)) done)

abbrev waiting : Status ℕ
waiting = record { msg = some 9; lcount = pos 2; complete = false }

start-IsExact : IsExact 4 start
unfolding IsExact find ◌+ℤ◌
start-IsExact = refl

abbrev pe_0 : Assoc ℕ (Status ℕ)
pe_0 = (4, waiting) ∷ []

here : find 4 pe_0 ≡ some waiting
unfolding find
here = refl

detection_exact_example :
    (c' : Assoc ℕ (Status ℕ)) × (receive_count 4 (total 4 half_consumed.pes) pe_0
      ≡ ok (contributed (pos 2), c'))
detection_exact_example =
    detection_exact 4 start half_consumed pe_0 waiting 9 start-IsExact run here refl

abbrev idle_pe : Assoc ℕ (Status ℕ)
idle_pe = []

-- The counts are not always taken at one point. PE 2 contributes 1 with its event in flight, PE 0
-- contributes 0 before it produces, and PE 1 contributes -1 after it consumed the event of PE 0: the
-- sum is 0 while the event of PE 2 is in flight.
early_sum :
    count_of 4 (produce 4 (pos 1) idle_pe)
      +ℤ count_of 4 idle_pe
      +ℤ count_of 4 (consume 4 (pos 1) idle_pe)
    ≡ pos 0
unfolding produce consume find put ◌+ℤ◌
early_sum = refl

-- An element on a PE of two: the detection starts with the first message that consumes.
abbrev element : TestElement ℕ ℕ
element = record { index = 0; detection_started = false; detector_branch = some []; test_sent = [] }

abbrev messages : List TestMsg
messages = consume_msg ∷ produce_msg ∷ consume_msg ∷ []

test_run-HasHandled_example : Handles 2 4 2 2 (test_run 2 4 1 messages element)
unfolding find
test_run-HasHandled_example =
    test_run-HasHandled 2 4 1 messages element [] (omega arith) refl refl refl refl

abbrev early_element : TestElement ℕ ℕ
early_element = record element { detector_branch = none }
