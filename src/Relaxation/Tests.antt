-- ===== src/Relaxation/Tests.antt =====
-- Runs of the model of archive/path2.0/examples/relaxation/pgm.cpp, and instances of its theorems, on
-- numbers for the doubles.
use charm_experiments.Common.{
  ◌+ℤ◌, pos, ℕ, ◌*◌, ◌≡◌, refl, List, [], ◌∷◌, arith, ◌>>=◌, ok, abort, nat_eq, leb,
}
use charm_experiments.Relaxation.Grid.{shut_down, root_run, root_run_lem}
use charm_experiments.Relaxation.Rounds.{initial, rounds}
use charm_experiments.Relaxation.Run.{run_sent, IsOver, new_relaxer-IsOver}
use charm_experiments.Relaxation.Ghosts.{count_to, sum_below, send_ghosts_lem}
use charm_experiments.Relaxation.{
  continue_with, receive_grid, receive_max_error, receive_ghost, on_converge, check_and_compute,
  start_round, converge_loop, args, feed, send_ghosts, Relaxer, new_relaxer, After, Task, TaskId,
  Double,
}

abbrev numbers : Double ℕ
numbers = record { twice = λ x. 2 * x; le = leb }

abbrev some_task : TaskId
some_task = record { host = pos 0; task = 0 }

-- The code reduces twice the tolerance, so that no round is the last one before the limit.
abbrev errors : List ℕ
errors = numbers.twice 5 ∷ numbers.twice 5 ∷ numbers.twice 5 ∷ []

send_ghosts_lem_example :
    sum_below (λ i. count_to 1 (send_ghosts numbers i some_task (initial i 3 3 5))) 3 ≡ 2
send_ghosts_lem_example =
    send_ghosts_lem numbers some_task 3 1 (λ i. initial i 3 3 5) (omega arith)
      (λ i lt. (refl, refl))

new_relaxer-IsOver_example :
    (b : After ℕ) × ((new_relaxer numbers 1 some_task (pos 0) 0 0 (args 3 (pos 3) 5)
        >>= feed numbers 1 some_task (rounds 2 errors))
      ≡ ok b)
    × IsOver numbers 1 some_task 3 (run_sent numbers 1 some_task 3 (initial 1 3 3 5)) b
new_relaxer-IsOver_example = new_relaxer-IsOver numbers 1 some_task 0 0 3 3 5 errors refl

root_run_lem_example :
    (t : Task (Relaxer ℕ)) × (root_run numbers some_task 0 0 3 3 5 errors (2 ∷ 0 ∷ 1 ∷ [])
      ≡ ok (shut_down numbers some_task (run_sent numbers 0 some_task 3 (initial 0 3 3 5)) t))
root_run_lem_example = root_run_lem numbers some_task 0 0 3 3 5 errors (2 ∷ 0 ∷ 1 ∷ []) refl refl

twice_there : (root_run numbers some_task 0 0 3 1 5 (0 ∷ []) (2 ∷ 0 ∷ 2 ∷ [])) ≡ abort
unfolding new_relaxer feed converge_loop start_round send_ghosts check_and_compute on_converge
    receive_ghost receive_max_error receive_grid continue_with ◌+ℤ◌
twice_there = refl
