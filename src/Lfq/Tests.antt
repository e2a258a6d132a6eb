-- ===== src/Lfq/Tests.antt =====
-- Runs of the model of archive/lfq/ipc_lfq.hh, and an instance of its theorem.
use charm_experiments.Common.{
  ℕ, ◌≡◌, refl, true, false, none, some, List, [], ◌∷◌, arith, ok, nat_eq,
}
use charm_experiments.Lfq.{new_lfq, Lfq}
use charm_experiments.Lfq.Runs.{run-IsFifo, Call, fifo_run, run, put, get, stored, got}
use charm_experiments.Lfq.Fifo.{IsFifo}

abbrev fresh : Lfq ℕ
fresh = new_lfq

fresh-IsFifo : IsFifo 2 fresh []
fresh-IsFifo = record {
  counted = refl;
  bounded = omega arith;
  in_range = omega arith;
  front = refl;
  values = λ i lt. refl;
}

-- The third value does not fit.
abbrev calls : List (Call ℕ)
calls = put 5 ∷ put 6 ∷ put 7 ∷ get ∷ put 8 ∷ get ∷ get ∷ get ∷ []

answers_of_calls :
    (fifo_run 2 calls []).0
    ≡ stored true
      ∷ stored true
      ∷ stored false
      ∷ got (some 5)
      ∷ stored true
      ∷ got (some 6)
      ∷ got (some 8)
      ∷ got none
      ∷ []
answers_of_calls = refl

run-IsFifo_example :
    (q' : Lfq ℕ) × (run 2 calls fresh ≡ ok ((fifo_run 2 calls []).0, q'))
    × IsFifo 2 q' (fifo_run 2 calls []).1
run-IsFifo_example = run-IsFifo 2 calls fresh [] (omega arith) (omega arith) fresh-IsFifo
