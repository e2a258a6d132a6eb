-- ===== src/Relaxation.antt =====
-- archive/path2.0/examples/relaxation/pgm.cpp: the task that exchanges ghosts with its neighbours and
-- reduces an error until it converges. It runs in an element of a workgroup.
pub mod Ghosts
pub mod Grid
pub mod Rounds
pub mod Run
pub mod Moved
pub mod Tests
use charm_experiments.Common.{
  length, ltb_ℤ, pos, ◌+ℤ◌, ℕ, ◌+◌, ◌-◌, Bool, true, false, List, [], ◌∷◌, ◌++◌, arith, ◌==◌,
  if◌then◌else◌, ◌>>=◌, ◌>>◌, ok, abort, Outcome, ensure, nat_eq, ℤ, leb, ltb,
}
use charm_experiments.Workgroup.{
  terminate, suspend, task_all_reduce, task_reduce, task_send, Sent, TaskId, Task,
}

-- What the code does with a `double`.
pub record Double (W : Type 0) : Type 0 where
  pub twice : W → W  -- the product with 2
  pub le : W → W → Bool

-- The bytes of a payload, by what was written in them.
pub data Contents (W : Type 0) : Type 0 where
  args : ℕ → ℤ → W → Contents W  -- nWorkers, maxIters, tolerance
  ghost : Contents W
  error_of : W → Contents W
  grid : List ℕ → Contents W  -- the elements of a CkReduction::set

-- `relaxation_task`
pub record Relaxer (W : Type 0) : Type 0 where
  pub converged : Bool
  pub has_left : Bool
  pub has_right : Bool
  pub tolerance : W
  pub n_recvd : ℕ
  pub n_neighbors : ℕ
  pub n_workers : ℕ
  pub it : ℤ
  pub max_iters : ℤ

-- A task after some of its code has run: what it has handed to Charm++, and whether it called CkExit.
pub record After (W : Type 0) : Type 0 where
  pub task : Task (Relaxer W)
  pub sent : List (Sent (Contents W))
  pub exited : Bool

-- The numbers of the continuations.
abbrev pub receive_ghost_id : ℕ
receive_ghost_id = 0

abbrev pub receive_max_error_id : ℕ
receive_max_error_id = 1

abbrev pub receive_grid_id : ℕ
receive_grid_id = 2

-- `std::set<int>::insert`, on a list of the elements
abbrev pub insert_new : ℕ → List ℕ → List ℕ
insert_new x [] = x ∷ []
insert_new x (y ∷ ys) = if x == y then y ∷ ys else y ∷ insert_new x ys

abbrev pub set_of : List ℕ → List ℕ
set_of [] = []
set_of (x ∷ xs) = insert_new x (set_of xs)

abbrev pub neighbors_of : Bool → Bool → ℕ
neighbors_of left right = (if left then 1 else 0) + (if right then 1 else 0)

-- `idx` is the index of the element that runs the task, and `tid` its active task.
module _ {W : Type 0} (d : Double W) (idx : ℕ) (tid : TaskId) where
  abbrev pub only : Task (Relaxer W) → After W
  only t = record { task = t; sent = []; exited = false }

  abbrev pub sending : List (Sent (Contents W)) → After W → After W
  sending s a = record a { sent = s ++ a.sent }

  -- `send_ghosts`
  unfoldable pub send_ghosts : Relaxer W → List (Sent (Contents W))
  send_ghosts r =
      (if r.has_left then task_send tid receive_ghost_id (pos (idx - 1)) ghost ∷ [] else [])
      ++ (if r.has_right then task_send tid receive_ghost_id (pos (idx + 1)) ghost ∷ [] else [])

  -- `check_and_compute`
  unfoldable pub check_and_compute : Task (Relaxer W) → After W
  check_and_compute t =
      sending (task_all_reduce tid receive_max_error_id (error_of (d.twice t.obj.tolerance)) ∷ [])
        (only (suspend receive_max_error_id t))

  -- `on_converge`
  unfoldable pub on_converge : Task (Relaxer W) → After W
  on_converge t =
      sending (task_reduce tid receive_grid_id (pos 0) (grid (idx ∷ [])) ∷ [])
        (only (if idx == 0 then suspend receive_grid_id t else terminate t))

  -- the body of `converge_loop` under its test
  unfoldable pub start_round : Task (Relaxer W) → After W
  unfolding send_ghosts check_and_compute
  start_round t = sending (send_ghosts t.obj) (
      if t.obj.n_neighbors == 0
      then check_and_compute (record t { obj = record t.obj { n_recvd = 0 } })
      else only (suspend receive_ghost_id (record t { obj = record t.obj { n_recvd = 0 } })))

  -- `it++`, which the test of `converge_loop` skips once it has converged
  abbrev pub count_round : Task (Relaxer W) → Task (Relaxer W)
  count_round t = record t { obj = record t.obj { it = t.obj.it +ℤ pos 1 } }

  -- `converge_loop`
  unfoldable pub converge_loop : Task (Relaxer W) → After W
  unfolding start_round on_converge
  converge_loop t =
      if t.obj.converged
      then on_converge t
      else if ltb_ℤ t.obj.it t.obj.max_iters
      then start_round (count_round t)
      else on_converge (count_round t)

  -- `receive_ghost`
  unfoldable pub receive_ghost : Task (Relaxer W) → After W
  unfolding check_and_compute
  receive_ghost t =
      let t' = record t { obj = record t.obj { n_recvd = t.obj.n_recvd + 1 } } in
      if leb t.obj.n_neighbors (t.obj.n_recvd + 1)
      then check_and_compute t'
      else only (suspend receive_ghost_id t')

  -- `receive_max_error`
  unfoldable pub receive_max_error : W → Task (Relaxer W) → After W
  unfolding converge_loop
  receive_max_error e t =
      converge_loop (record t { obj = record t.obj { converged = d.le e t.obj.tolerance } })

  -- `receive_grid`
  unfoldable pub receive_grid : List ℕ → Task (Relaxer W) → Outcome (After W)
  receive_grid elts t =
      ensure (t.obj.n_workers == length (set_of elts))
      >> ok (record { task = terminate t; sent = []; exited = true })

  -- the constructor, with what it finds in `it` and in `continuation_`
  unfoldable pub new_relaxer : ℤ → ℕ → ℕ → Contents W → Outcome (After W)
  unfolding converge_loop
  new_relaxer it0 continuation0 kind (args n m tol) =
      let left = ltb 0 idx in
      let right = ltb (idx + 1) n in
      ok (
        converge_loop (record {
          obj = record {
            converged = false;
            has_left = left;
            has_right = right;
            tolerance = tol;
            n_recvd = 0;
            n_neighbors = neighbors_of left right;
            n_workers = n;
            it = it0;
            max_iters = m;
          };
          active = true;
          kind = kind;
          continuation = continuation0;
        }))
  new_relaxer it0 continuation0 kind _ = abort

  -- the continuation that a task waits for, on a payload: bytes of another layout are not read
  unfoldable pub continue_with : ℕ → Contents W → Task (Relaxer W) → Outcome (After W)
  unfolding receive_ghost receive_max_error receive_grid
  continue_with id ghost t = if id == receive_ghost_id then ok (receive_ghost t) else abort
  continue_with id (error_of e) t =
      if id == receive_max_error_id then ok (receive_max_error e t) else abort
  continue_with id (grid elts) t = if id == receive_grid_id then receive_grid elts t else abort
  continue_with id (args n m tol) t = abort

  -- A task that takes payloads in the order in which it can use them, until it is not active.
  unfoldable pub feed : List (Contents W) → After W → Outcome (After W)
  unfolding continue_with
  feed [] a = ok a
  feed (p ∷ ps) a =
      ensure a.task.active
      >> (continue_with a.task.continuation p a.task >>= λ b.
          feed ps (record b { sent = a.sent ++ b.sent }))
