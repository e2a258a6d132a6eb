-- ===== src/Relaxation/Run.antt =====
-- Whole runs of the task of archive/path2.0/examples/relaxation/pgm.cpp, from its constructor to
-- `on_converge`.
use charm_experiments.Relaxation.Rounds.{
  initial, round_lem, active_task, ends, joined, reduced, repeat, round_sent, times, rounds,
}
use charm_experiments.Common.{
  length, ltb_ℤ, ◌+ℤ◌, pos, append_assoc, ℕ, zero, suc, ◌+◌, ◌<◌, ◌≡◌, refl, sym, ap, subst, ◌∙◌,
  ◌≢◌, ◌⊎◌, inl, inr, Bool, true, false, not, ◌&&◌, ◌||◌, List, [], ◌∷◌, ◌++◌, arith, ◌==◌,
  if◌then◌else◌, ◌>>=◌, ok, nat_eq, ltb,
}
use charm_experiments.Relaxation.{
  args, new_relaxer, neighbors_of, count_round, converge_loop, receive_max_error, grid, terminate,
  on_converge, receive_grid_id, suspend, task_reduce, Task, send_ghosts, start_round, error_of,
  ghost, receive_max_error_id, After, Contents, Relaxer, Sent, continue_with, TaskId, Double, feed,
}

module _ {W : Type 0} (d : Double W) (idx : ℕ) (tid : TaskId) where
  -- What `on_converge` leaves, with all that the task has handed to Charm++.
  pub record IsOver (n : ℕ) (s : List (Sent (Contents W))) (a : After W) : Type 0 where
    pub all_sent : a.sent ≡ s
    pub workers : a.task.obj.n_workers ≡ n
    pub running : a.exited ≡ false
    pub alive : a.task.active ≡ (idx == 0)
    pub root : (idx ≢ 0) ⊎ (a.task.continuation ≡ receive_grid_id)

  abbrev pub grid_sent : Sent (Contents W)
  grid_sent = task_reduce tid receive_grid_id (pos 0) (grid (idx ∷ []))

  abbrev over_branch : Task (Relaxer W) → Bool → After W
  over_branch t b = record {
    task = if b then suspend receive_grid_id t else terminate t;
    sent = grid_sent ∷ [];
    exited = false;
  }

  over_branch-IsOver :
      (t : Task (Relaxer W)) (s : List (Sent (Contents W))) (b : Bool)
      → t.active ≡ true
      → (idx == 0) ≡ b
      → IsOver t.obj.n_workers (s ++ (grid_sent ∷ [])) (joined d idx tid s (over_branch t b))
  over_branch-IsOver t s true on e = record {
    all_sent = refl;
    workers = refl;
    running = refl;
    alive = on ∙ sym e;
    root = inr refl;
  }
  over_branch-IsOver t s false on e = record {
    all_sent = refl;
    workers = refl;
    running = refl;
    alive = sym e;
    root = inl (ground (arith, e));
  }

  on_converge-IsOver :
      (t : Task (Relaxer W)) (s : List (Sent (Contents W)))
      → t.active ≡ true
      → IsOver t.obj.n_workers
          (s ++ (grid_sent ∷ []))
          (joined d idx tid s (on_converge d idx tid t))
  unfolding on_converge
  on_converge-IsOver t s on = over_branch-IsOver t s (idx == 0) on refl

  -- a task that has count_round `i` of its `m` rounds
  abbrev pub counting : ℕ → ℕ → Relaxer W → Relaxer W
  counting i m r = record r { converged = false; it = pos i; max_iters = pos m }

  count_up : (i : ℕ) → pos i +ℤ pos 1 ≡ pos (i + 1)
  unfolding ◌+ℤ◌
  count_up i = ground arith

  less_pos : (i m : ℕ) → i < m → ltb_ℤ (pos i) (pos m) ≡ true
  less_pos i m lt = ground arith

  not_less_pos : (m : ℕ) → ltb_ℤ (pos m) (pos m) ≡ false
  not_less_pos m = ground arith

  abbrev loop_branch : Task (Relaxer W) → Bool → After W
  loop_branch t b =
      if b
      then start_round d idx tid (count_round d idx tid t)
      else on_converge d idx tid (count_round d idx tid t)

  converge_loop_more :
      (kind id i m : ℕ) (r : Relaxer W)
      → i < m
      → converge_loop d idx tid (active_task d idx tid kind id (counting i m r))
        ≡ start_round d idx tid (active_task d idx tid kind id (counting (i + 1) m r))
  unfolding converge_loop
  converge_loop_more kind id i m r lt =
      ap (loop_branch (active_task d idx tid kind id (counting i m r))) (less_pos i m lt)
      ∙ ap
          (λ z.
            start_round d idx tid
              (active_task d idx tid kind id (record (counting i m r) { it = z })))
          (count_up i)

  converge_loop_last :
      (kind id m : ℕ) (r : Relaxer W)
      → converge_loop d idx tid (active_task d idx tid kind id (counting m m r))
        ≡ on_converge d idx tid (active_task d idx tid kind id (counting (m + 1) m r))
  unfolding converge_loop
  converge_loop_last kind id m r =
      ap (loop_branch (active_task d idx tid kind id (counting m m r))) (not_less_pos m)
      ∙ ap
          (λ z.
            on_converge d idx tid
              (active_task d idx tid kind id (record (counting m m r) { it = z })))
          (count_up m)

  -- what `receive_max_error` goes on with
  abbrev pub judged : ℕ → Bool → Relaxer W → Relaxer W
  judged g b r = record r { n_recvd = g; converged = b }

  error_lem :
      (kind g : ℕ) (e : W) (ps : List (Contents W)) (s : List (Sent (Contents W))) (r : Relaxer W)
      → feed d idx tid (error_of e ∷ ps) (reduced d idx tid kind g s r)
        ≡ feed d idx tid ps (
            joined d idx tid s (
              converge_loop d idx tid (
                active_task d idx tid kind receive_max_error_id (judged g (d.le e r.tolerance) r))))
  unfolding feed continue_with receive_max_error
  error_lem kind g e ps s r = refl

  converged_lem :
      (kind id : ℕ) (r : Relaxer W)
      → r.converged ≡ true
      → converge_loop d idx tid (active_task d idx tid kind id r)
        ≡ on_converge d idx tid (active_task d idx tid kind id r)
  unfolding converge_loop
  converged_lem kind id r on =
      ap
        (λ b.
          if b
          then on_converge d idx tid (active_task d idx tid kind id r)
          else loop_branch (active_task d idx tid kind id r) (ltb_ℤ r.it r.max_iters))
        on

  abbrev pub run_sent : ℕ → Relaxer W → List (Sent (Contents W))
  run_sent k r = times k (round_sent d idx tid r) ++ (grid_sent ∷ [])

  -- A run on `ps` that ends in `on_converge`
  abbrev pub RunsToEnd : ℕ → List (Contents W) → List (Sent (Contents W)) → After W → Type 0
  RunsToEnd n ps s a = (b : After W) × (feed d idx tid ps a ≡ ok b) × IsOver n s b

  one_round :
      (kind id i m : ℕ) (e : W) (ps : List (Contents W)) (s : List (Sent (Contents W)))
      (r : Relaxer W)
      → i < m
      → feed d idx tid (repeat r.n_neighbors ghost ++ (error_of e ∷ ps)) (
          joined d idx tid s
            (converge_loop d idx tid (active_task d idx tid kind id (counting i m r))))
        ≡ feed d idx tid ps (
            joined d idx tid (s ++ round_sent d idx tid r) (
              converge_loop d idx tid (
                active_task d idx tid kind receive_max_error_id
                  (judged r.n_neighbors (d.le e r.tolerance) (counting (i + 1) m r)))))
  unfolding send_ghosts
  one_round kind id i m e ps s r lt =
      ap
        (λ a.
          feed d idx tid (repeat r.n_neighbors ghost ++ (error_of e ∷ ps)) (joined d idx tid s a))
        (converge_loop_more kind id i m r lt)
      ∙ round_lem d idx tid kind id r.n_neighbors (error_of e ∷ ps) s (counting (i + 1) m r) refl
      ∙ error_lem kind r.n_neighbors e ps (s ++ round_sent d idx tid r) (counting (i + 1) m r)

  at_end :
      (t : Task (Relaxer W)) (a : After W) (s : List (Sent (Contents W)))
      → t.active ≡ true
      → a ≡ on_converge d idx tid t
      → RunsToEnd t.obj.n_workers [] (s ++ (grid_sent ∷ [])) (joined d idx tid s a)
  unfolding feed
  at_end t a s on e = (
    joined d idx tid s (on_converge d idx tid t),
    ap (λ a. ok (joined d idx tid s a)) e,
    on_converge-IsOver t s on,
  )

  abbrev pub after_error : ℕ → ℕ → ℕ → List (Sent (Contents W)) → Relaxer W → Bool → After W
  after_error kind i m s r b = joined d idx tid (s ++ round_sent d idx tid r) (
      converge_loop d idx tid (
        active_task d idx tid kind receive_max_error_id
          (judged r.n_neighbors b (counting (i + 1) m r))))

  then_round :
      (kind id i m : ℕ) (e : W) (ps : List (Contents W)) (s : List (Sent (Contents W)))
      (r : Relaxer W) (k : ℕ) (b : Bool)
      → i < m
      → d.le e r.tolerance ≡ b
      → RunsToEnd r.n_workers ps
          ((s ++ round_sent d idx tid r) ++ run_sent k r)
          (after_error kind i m s r b)
      → RunsToEnd r.n_workers
          (repeat r.n_neighbors ghost ++ (error_of e ∷ ps))
          (s ++ run_sent (suc k) r)
          (joined d idx tid s
            (converge_loop d idx tid (active_task d idx tid kind id (counting i m r))))
  then_round kind id i m e ps s r k b lt le (a, runs, over) = (
    a,
    one_round kind id i m e ps s r lt
        ∙ ap (λ b. feed d idx tid ps (after_error kind i m s r b)) le
        ∙ runs,
    subst (λ ss. IsOver r.n_workers ss a)
        (append_assoc s (round_sent d idx tid r) (run_sent k r)
          ∙ ap (λ ss. s ++ ss)
              (sym (
                append_assoc (round_sent d idx tid r) (times k (round_sent d idx tid r))
                  (grid_sent ∷ []))))
        over,
  )

  last_round :
      (kind i k m : ℕ) (s : List (Sent (Contents W))) (r : Relaxer W) (b : Bool)
      → i + suc k ≡ m
      → b || (k == 0) ≡ true
      → RunsToEnd r.n_workers []
          ((s ++ round_sent d idx tid r) ++ run_sent 0 r)
          (after_error kind i m s r b)
  last_round kind i k m s r true e_m h =
      at_end
        (active_task d idx tid kind receive_max_error_id
          (judged r.n_neighbors true (counting (i + 1) m r)))
        _ (s ++ round_sent d idx tid r) refl
        (converged_lem kind receive_max_error_id (judged r.n_neighbors true (counting (i + 1) m r))
          refl)
  last_round kind i k m s r false e_m h =
      at_end
        (active_task d idx tid kind receive_max_error_id
          (counting (i + 1 + 1) (i + 1) (record r { n_recvd = r.n_neighbors })))
        _ (s ++ round_sent d idx tid r) refl
        (ap
            (λ m. converge_loop d idx tid (
              active_task d idx tid kind receive_max_error_id
                (counting (i + 1) m (record r { n_recvd = r.n_neighbors }))))
            (ground (arith, e_m, h))
          ∙ converge_loop_last kind receive_max_error_id (i + 1)
              (record r { n_recvd = r.n_neighbors }))

  and_split : (a b : Bool) → (not a && b) ≡ true → (a ≡ false) × (b ≡ true)
  and_split a b h = ground (arith, h)

  run_lem :
      (kind id i k m : ℕ) (es : List W) (s : List (Sent (Contents W))) (r : Relaxer W)
      → i + k ≡ m
      → ends d r.tolerance k es ≡ true
      → RunsToEnd r.n_workers (rounds r.n_neighbors es) (s ++ run_sent (length es) r) (
          joined d idx tid s
            (converge_loop d idx tid (active_task d idx tid kind id (counting i m r))))
  unfolding send_ghosts
  run_lem kind id i zero m [] s r e_m h =
      at_end (active_task d idx tid kind id (counting (i + 1) i r)) _ s refl (
        ap (λ m. converge_loop d idx tid (active_task d idx tid kind id (counting i m r)))
          (omega (arith, e_m))
        ∙ converge_loop_last kind id i r)
  run_lem kind id i zero m (e ∷ es) s r e_m h = cc
  run_lem kind id i (suc k) m [] s r e_m h = cc
  run_lem kind id i (suc k) m (e ∷ []) s r e_m h =
      then_round kind id i m e [] s r 0 (d.le e r.tolerance) (omega (arith, e_m)) refl
        (last_round kind i k m s r (d.le e r.tolerance) e_m h)
  run_lem kind id i (suc k) m (e ∷ (f ∷ es)) s r e_m h =
      let more : d.le e r.tolerance ≡ false =
        (and_split (d.le e r.tolerance) (ends d r.tolerance k (f ∷ es)) h).0 in
      then_round kind id i m e (rounds r.n_neighbors (f ∷ es)) s r (suc (length es)) false
        (omega (arith, e_m)) more
        (run_lem kind receive_max_error_id (i + 1) k m (f ∷ es) (s ++ round_sent d idx tid r)
          (record r { n_recvd = r.n_neighbors }) (omega (arith, e_m))
          (and_split (d.le e r.tolerance) (ends d r.tolerance k (f ∷ es)) h).1)

  -- A new task whose `it` is 0, and which gets its ghosts and then an error in each round, takes part
  -- in one round for each error until the first one within the tolerance, or for `m` rounds, the
  -- number it was given: in each it sends its ghosts and contributes twice the tolerance. Then it
  -- contributes its index, and only the task of element 0 stays, to wait for the grid.
  pub new_relaxer-IsOver :
      (kind id n m : ℕ) (tol : W) (es : List W)
      → ends d tol m es ≡ true
      → (b : After W) × ((new_relaxer d idx tid (pos 0) id kind (args n (pos m) tol)
            >>= feed d idx tid (rounds (neighbors_of (ltb 0 idx) (ltb (idx + 1) n)) es))
          ≡ ok b)
        × IsOver n (run_sent (length es) (initial idx n m tol)) b
  unfolding new_relaxer
  new_relaxer-IsOver kind id n m tol es h =
      run_lem kind id 0 m m es [] (initial idx n m tol) (omega arith) h
