-- ===== src/Relay/Tests.antt =====
-- Runs of the model of archive/xpmem-experiments/tester.cc, and an instance of its theorem.
use charm_experiments.Relay.Course.{IsStage, received, schedule-start_relay}
use charm_experiments.Relay.{schedule, start_relay, Processes, main_side, neighbor_side, Side}
use charm_experiments.Common.{ℕ, zero, suc, ◌≡◌, refl, List, [], ◌∷◌, ◌>>=◌, ok, nat_eq}

abbrev segid_of : Side → ℕ
segid_of main_side = 7
segid_of neighbor_side = 9

-- not at the start of a page
abbrev data_of : Side → ℕ
data_of main_side = 8388609
data_of neighbor_side = 16777212

abbrev alternate : ℕ → List Side
alternate zero = []
alternate (suc n) = neighbor_side ∷ (main_side ∷ alternate n)

-- 16 turns each, some turns at which there is nothing to do among them
abbrev sides : List Side
sides = main_side ∷ (neighbor_side ∷ (neighbor_side ∷ (main_side ∷ alternate 16)))

schedule-start_relay_example :
    (w' : Processes) × ((start_relay segid_of data_of (λ s p. 0)
        >>= schedule segid_of data_of sides)
      ≡ ok w')
    × IsStage segid_of data_of 32 w'
schedule-start_relay_example = schedule-start_relay segid_of data_of sides (λ s p. 0)

two_received : received 0 (main_side ∷ (neighbor_side ∷ (neighbor_side ∷ (main_side ∷ [])))) ≡ 2
two_received = refl
