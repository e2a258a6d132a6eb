-- ===== src/Lfq/Tester/Tests.antt =====
-- Runs of the model of archive/lfq/tester.cc.
use charm_experiments.Common.{◌≡◌, List, [], ◌∷◌, ◌++◌, arith, ok}
use charm_experiments.Lfq.Tester.{Proc, proc_0, proc_1, TestRun, test_turns, test_start}
use charm_experiments.Lfq.Tester.Course.{IsOnCourse}
use charm_experiments.Lfq.Tester.Orders.{IsOver, rounds, test_turns-IsOnCourse, test_turns-IsOver}

-- Process 0 sends two numbers and process 1 one.
abbrev some_turns : List Proc
some_turns = proc_0 ∷ proc_1 ∷ proc_0 ∷ []

test_turns-IsOnCourse_example :
    (r : TestRun) × (test_turns some_turns test_start ≡ ok r) × IsOnCourse r
test_turns-IsOnCourse_example = test_turns-IsOnCourse some_turns

test_turns-IsOver_example :
    (r : TestRun) × (test_turns (some_turns ++ rounds 1024) test_start ≡ ok r) × IsOver r
test_turns-IsOver_example = test_turns-IsOver some_turns 1024 (omega arith)
