-- ===== src/Relaxation/Grid.antt =====
-- The end of archive/path2.0/examples/relaxation/pgm.cpp: `receive_grid` of element 0.
use charm_experiments.Common.{
  pos, length, ℕ, suc, ◌≤◌, ◌≡◌, refl, sym, ap, ◌∙◌, ◌≢◌, ◌⊎◌, inl, inr, Bool, true, false, not,
  ◌&&◌, ◌||◌, List, [], ◌∷◌, ◌++◌, arith, ◌==◌, if◌then◌else◌, ◌>>=◌, ◌>>◌, ok, abort, Outcome,
  ensure, nat_eq, ltb,
}
use charm_experiments.Relaxation.{
  neighbors_of, args, new_relaxer, receive_grid_id, grid, terminate, Relaxer, After, Task, Contents,
  continue_with, Sent, feed, TaskId, Double, insert_new, set_of, receive_grid,
}
use charm_experiments.Relaxation.Rounds.{rounds, initial, ends}
use charm_experiments.Relaxation.Run.{run_sent, IsOver, new_relaxer-IsOver}

abbrev pub mem : ℕ → List ℕ → Bool
mem x [] = false
mem x (y ∷ ys) = (x == y) || mem x ys

-- No element is there twice.
abbrev pub distinct : List ℕ → Bool
distinct [] = true
distinct (x ∷ xs) = not (mem x xs) && distinct xs

mem-insert_new : (y x : ℕ) (xs : List ℕ) → mem y (insert_new x xs) ≡ ((y == x) || mem y xs)
mem-insert_new y x [] = refl
mem-insert_new y x (z ∷ zs) = ground (arith, mem-insert_new y x zs)

mem-set_of : (y : ℕ) (xs : List ℕ) → mem y (set_of xs) ≡ mem y xs
mem-set_of y [] = refl
mem-set_of y (x ∷ xs) = mem-insert_new y x (set_of xs) ∙ ap (λ b. (y == x) || b) (mem-set_of y xs)

length-insert_new :
    (x : ℕ) (xs : List ℕ)
    → length (insert_new x xs) ≡ (if mem x xs then length xs else suc (length xs))
length-insert_new x [] = refl
length-insert_new x (y ∷ ys) = ground (arith, length-insert_new x ys)

length-set_of :
    (xs : List ℕ)
    → (length (set_of xs) ≤ length xs) × ((length xs == length (set_of xs)) ≡ distinct xs)
length-set_of [] = (omega arith, refl)
length-set_of (x ∷ xs) =
    ground (arith, length-set_of xs, length-insert_new x (set_of xs), mem-set_of x xs)

module _ {W : Type 0} (d : Double W) (tid : TaskId) where
  abbrev pub shut_down : List (Sent (Contents W)) → Task (Relaxer W) → After W
  shut_down s t = record { task = terminate t; sent = s ++ []; exited = true }

  abbrev after_grid : List (Sent (Contents W)) → Outcome (After W) → Outcome (After W)
  after_grid s o = o >>= λ b. ok (record b { sent = s ++ b.sent })

  by_distinct :
      (s : List (Sent (Contents W))) (t : Task (Relaxer W)) (b : Bool)
      → after_grid s (ensure b >> ok (record { task = terminate t; sent = []; exited = true }))
        ≡ (if b then ok (shut_down s t) else abort)
  by_distinct s t true = refl
  by_distinct s t false = refl

  read_grid :
      (n : ℕ) (s : List (Sent (Contents W))) (elts : List ℕ) (t : Task (Relaxer W))
      → length elts ≡ n
      → t.obj.n_workers ≡ n
      → after_grid s (receive_grid d 0 tid elts t)
        ≡ (if distinct elts then ok (shut_down s t) else abort)
  unfolding receive_grid
  read_grid n s elts t e workers =
      ap
        (λ k. after_grid s (
          ensure (k == length (set_of elts))
          >> ok (record { task = terminate t; sent = []; exited = true })))
        (workers ∙ sym e)
      ∙ ap
          (λ b.
            after_grid s (ensure b >> ok (record { task = terminate t; sent = []; exited = true })))
          (length-set_of elts).1
      ∙ by_distinct s t (distinct elts)

  waits_for_grid : (i : ℕ) → (◌≢◌ {A = ℕ} 0 0) ⊎ (i ≡ receive_grid_id) → i ≡ receive_grid_id
  waits_for_grid i (inl ne) = elim (ne refl) [ ]
  waits_for_grid i (inr e) = e

  feed_grid :
      (n : ℕ) (s : List (Sent (Contents W))) (elts : List ℕ) (a : After W)
      → length elts ≡ n
      → IsOver d 0 tid n s a
      → feed d 0 tid (grid elts ∷ []) a ≡ (if distinct elts then ok (shut_down s a.task) else abort)
  unfolding feed continue_with
  feed_grid n s elts a e over =
      ap
        (λ b.
          ensure b
          >> after_grid a.sent (
              if a.task.continuation == receive_grid_id
              then receive_grid d 0 tid elts a.task
              else abort))
        over.alive
      ∙ ap
          (λ i.
            after_grid a.sent
              (if i == receive_grid_id then receive_grid d 0 tid elts a.task else abort))
          (waits_for_grid a.task.continuation over.root)
      ∙ ap (λ ss. after_grid ss (receive_grid d 0 tid elts a.task)) over.all_sent
      ∙ read_grid n s elts a.task e over.workers

  -- the whole run of the task of element 0, on the payloads of its rounds and the set of the indices
  abbrev pub root_run : ℕ → ℕ → ℕ → ℕ → W → List W → List ℕ → Outcome (After W)
  root_run kind id n m tol es elts =
      (new_relaxer d 0 tid (pos 0) id kind (args n (pos m) tol)
        >>= feed d 0 tid (rounds (neighbors_of false (ltb 1 n)) es))
      >>= feed d 0 tid (grid elts ∷ [])

  -- The task of element 0, with `it` 0 at first, that is given the errors of a whole run and then a
  -- list of `n` indices for its `n` workers, ends and calls CkExit if no index is there twice, and
  -- fails its assertion otherwise.
  pub root_run_lem :
      (kind id n m : ℕ) (tol : W) (es : List W) (elts : List ℕ)
      → ends d tol m es ≡ true
      → length elts ≡ n
      → (t : Task (Relaxer W)) × (root_run kind id n m tol es elts ≡ (
          if distinct elts
          then ok (shut_down (run_sent d 0 tid (length es) (initial 0 n m tol)) t)
          else abort))
  root_run_lem kind id n m tol es elts h e =
      let (a, runs, over) = new_relaxer-IsOver d 0 tid kind id n m tol es h in
      (
        a.task,
        ap (λ o. o >>= feed d 0 tid (grid elts ∷ [])) runs
            ∙ feed_grid n (run_sent d 0 tid (length es) (initial 0 n m tol)) elts a e over,
      )
