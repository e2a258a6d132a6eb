-- ===== src/Relaxation/Rounds.antt =====
-- One round of the task of archive/path2.0/examples/relaxation/pgm.cpp, from `converge_loop` to the error.
use charm_experiments.Common.{
  pos, append_assoc, append-nil, ℕ, zero, suc, ◌+◌, ◌≡◌, refl, sym, ap, ap₂, ◌∙◌, Bool, true, false,
  not, ◌&&◌, ◌||◌, List, [], ◌∷◌, ◌++◌, arith, ◌==◌, if◌then◌else◌, nat_eq, leb, ltb,
}
use charm_experiments.Relaxation.{
  neighbors_of, sending, Task, send_ghosts, start_round, error_of, ghost, check_and_compute,
  receive_ghost_id, receive_max_error_id, After, receive_ghost, task_all_reduce, Contents, Relaxer,
  Sent, continue_with, TaskId, Double, feed,
}

abbrev pub repeat : {A : Type 0} → ℕ → A → List A
repeat zero x = []
repeat (suc n) x = x ∷ repeat n x

abbrev pub times : {A : Type 0} → ℕ → List A → List A
times zero xs = []
times (suc n) xs = xs ++ times n xs

-- the payloads of the rounds whose errors are `es`
abbrev pub rounds : {W : Type 0} → ℕ → List W → List (Contents W)
rounds nn [] = []
rounds nn (e ∷ es) = repeat nn ghost ++ (error_of e ∷ rounds nn es)

-- The errors are those of a whole run with `k` rounds left: it ends with the first error that is
-- within the tolerance, or after `k` rounds.
abbrev pub ends : {W : Type 0} → Double W → W → ℕ → List W → Bool
ends d tol zero [] = true
ends d tol zero (e ∷ es) = false
ends d tol (suc k) [] = false
ends d tol (suc k) (e ∷ []) = d.le e tol || (k == 0)
ends d tol (suc k) (e ∷ (f ∷ es)) = not (d.le e tol) && ends d tol k (f ∷ es)

-- the object that the constructor makes
abbrev pub initial : {W : Type 0} → ℕ → ℕ → ℕ → W → Relaxer W
initial idx n m tol = record {
  converged = false;
  has_left = ltb 0 idx;
  has_right = ltb (idx + 1) n;
  tolerance = tol;
  n_recvd = 0;
  n_neighbors = neighbors_of (ltb 0 idx) (ltb (idx + 1) n);
  n_workers = n;
  it = pos 0;
  max_iters = pos m;
}

module _ {W : Type 0} (d : Double W) (idx : ℕ) (tid : TaskId) where
  -- An active task that waits for its ghosts
  abbrev pub waiting : ℕ → ℕ → List (Sent (Contents W)) → Relaxer W → After W
  waiting kind got s r = record {
    task = record {
      obj = record r { n_recvd = got };
      active = true;
      kind = kind;
      continuation = receive_ghost_id;
    };
    sent = s;
    exited = false;
  }

  -- or for the error
  abbrev pub reduced : ℕ → ℕ → List (Sent (Contents W)) → Relaxer W → After W
  reduced kind got s r = record {
    task = record {
      obj = record r { n_recvd = got };
      active = true;
      kind = kind;
      continuation = receive_max_error_id;
    };
    sent = s;
    exited = false;
  }

  abbrev pub contribution : Relaxer W → Sent (Contents W)
  contribution r = task_all_reduce tid receive_max_error_id (error_of (d.twice r.tolerance))

  abbrev pub ghost_branch : ℕ → ℕ → Relaxer W → Bool → After W
  ghost_branch kind got r b =
      if b then reduced kind got (contribution r ∷ []) r else waiting kind got [] r

  pub receive_ghost_lem :
      (kind got : ℕ) (s : List (Sent (Contents W))) (r : Relaxer W)
      → receive_ghost d idx tid (waiting kind got s r).task
        ≡ ghost_branch kind (got + 1) r (leb r.n_neighbors (got + 1))
  unfolding receive_ghost check_and_compute
  receive_ghost_lem kind got s r = refl

  abbrev pub joined : List (Sent (Contents W)) → After W → After W
  joined s b = record b { sent = s ++ b.sent }

  pub feed_ghost :
      (kind got : ℕ) (ps : List (Contents W)) (s : List (Sent (Contents W))) (r : Relaxer W)
      (b : Bool)
      → leb r.n_neighbors (got + 1) ≡ b
      → feed d idx tid (ghost ∷ ps) (waiting kind got s r)
        ≡ feed d idx tid ps (joined s (ghost_branch kind (got + 1) r b))
  unfolding feed continue_with
  feed_ghost kind got ps s r b e =
      ap (λ a. feed d idx tid ps (joined s a))
        (receive_ghost_lem kind got s r ∙ ap (ghost_branch kind (got + 1) r) e)

  pub ghosts_lem :
      (kind got k : ℕ) (ps : List (Contents W)) (s : List (Sent (Contents W))) (r : Relaxer W)
      → got + suc k ≡ r.n_neighbors
      → feed d idx tid (repeat (suc k) ghost ++ ps) (waiting kind got s r)
        ≡ feed d idx tid ps (reduced kind r.n_neighbors (s ++ (contribution r ∷ [])) r)
  ghosts_lem kind got zero ps s r e =
      feed_ghost kind got ps s r true (ground (arith, e))
      ∙ ap (λ g. feed d idx tid ps (reduced kind g (s ++ (contribution r ∷ [])) r)) e
  ghosts_lem kind got (suc k) ps s r e =
      feed_ghost kind got (repeat (suc k) ghost ++ ps) s r false (ground (arith, e))
      ∙ ap (λ ss. feed d idx tid (repeat (suc k) ghost ++ ps) (waiting kind (got + 1) ss r))
          (append-nil s)
      ∙ ghosts_lem kind (got + 1) k ps s r (omega (arith, e))

  -- A task that `converge_loop` runs on
  abbrev pub active_task : ℕ → ℕ → Relaxer W → Task (Relaxer W)
  active_task kind id r = record { obj = r; active = true; kind = kind; continuation = id }

  -- what one round hands to Charm++
  abbrev pub round_sent : Relaxer W → List (Sent (Contents W))
  round_sent r = send_ghosts d idx tid r ++ (contribution r ∷ [])

  abbrev pub started : ℕ → Relaxer W → Bool → After W
  started kind r b =
      record (if b then reduced kind 0 (contribution r ∷ []) r else waiting kind 0 [] r) {
        sent = send_ghosts d idx tid r ++ (if b then contribution r ∷ [] else []);
      }

  pub start_round_lem :
      (kind id : ℕ) (r : Relaxer W) (b : Bool)
      → (r.n_neighbors == 0) ≡ b
      → start_round d idx tid (active_task kind id r) ≡ started kind r b
  unfolding start_round check_and_compute
  start_round_lem kind id r true e =
      ap
        (λ b.
          sending d idx tid (send_ghosts d idx tid r)
            (if b then reduced kind 0 (contribution r ∷ []) r else waiting kind 0 [] r))
        e
  start_round_lem kind id r false e =
      ap
        (λ b.
          sending d idx tid (send_ghosts d idx tid r)
            (if b then reduced kind 0 (contribution r ∷ []) r else waiting kind 0 [] r))
        e

  pub round_lem :
      (kind id k : ℕ) (ps : List (Contents W)) (s : List (Sent (Contents W))) (r : Relaxer W)
      → k ≡ r.n_neighbors
      → feed d idx tid
          (repeat k ghost ++ ps)
          (joined s (start_round d idx tid (active_task kind id r)))
        ≡ feed d idx tid ps (reduced kind k (s ++ round_sent r) r)
  round_lem kind id zero ps s r e =
      ap (λ a. feed d idx tid ps (joined s a)) (start_round_lem kind id r true (ground (arith, e)))
  round_lem kind id (suc k) ps s r e =
      ap (λ a. feed d idx tid (repeat (suc k) ghost ++ ps) (joined s a))
        (start_round_lem kind id r false (ground (arith, e)))
      ∙ ghosts_lem kind 0 k ps (s ++ (send_ghosts d idx tid r ++ [])) r (omega (arith, e))
      ∙ ap₂ (λ g ss. feed d idx tid ps (reduced kind g ss r)) (sym e)
          (ap (λ ss. (s ++ ss) ++ (contribution r ∷ [])) (append-nil (send_ghosts d idx tid r))
            ∙ append_assoc s (send_ghosts d idx tid r) (contribution r ∷ []))
