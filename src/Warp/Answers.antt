-- ===== src/Warp/Answers.antt =====
-- What `receive` of warp/pingpong.cpp does to a rank: it answers each message by one.
use charm_experiments.Common.{
  map, length, ℕ, ◌+◌, ◌%◌, ◌≤◌, ◌≡◌, refl, ◌∙◌, Bool, true, false, arith, ◌==◌, if◌then◌else◌, ok,
  nat_eq, leb,
}
use charm_experiments.Warp.{
  allocate, set_properties, request_into, insert_at, request_sized, send, request_entry, Message,
  Mpi, Rank,
}
use charm_experiments.Warp.Pingpong.{
  finish, advance, receive, request_own, Pingpong, reply, Settings,
}
use charm_experiments.Warp.Turns.{length-insert_at, replied, requests}
use charm_experiments.Warp.Tally.{IsIn, IsIn-insert_at, IsBounded, IsQuiet, IsTally}

module _ {M V : Type 0} (mpi : Mpi M V) (budget : M → ℕ) (c : Settings) (n : ℕ)
    (bounded : IsBounded mpi budget c.receive_index n) (tested : M → ℕ → Type 0) (come went : M → ℕ)
    (tally : IsTally mpi tested come went) where
  -- `s'` is `s` after some calls of MPI, `sends` of them of MPI_Isend, and at most `k` new requests.
  pub record HasCalled (k sends : ℕ) (s s' : Rank M V Pingpong) : Type 0 where
    pub same_tasks : s'.tasks ≡ s.tasks
    pub same_probes : s'.probes ≡ s.probes
    pub in_budget : budget s'.mpi ≤ budget s.mpi
    pub few : length s'.ahead ≤ length s.ahead + k
    pub at_least : requests s ≤ requests s'
    pub at_most : requests s' ≤ requests s + k
    pub ahead_kept : (e : ℕ × Message V) → IsIn e s.ahead → IsIn e s'.ahead
    pub same_come : come s'.mpi ≡ come s.mpi
    pub went_more : went s'.mpi ≡ went s.mpi + sends
    pub still_tested : (req : ℕ) → tested s.mpi req → tested s'.mpi req

  emplaced_called :
      (e : ℕ × Message V) (w : M) (s : Rank M V Pingpong) (before : Bool) (i : ℕ)
      → budget w ≤ budget s.mpi
      → IsQuiet tested come went s.mpi w
      → HasCalled 1 0 s (
          if before
          then record s { passed = insert_at i e s.passed; mpi = w }
          else record s { ahead = insert_at i e s.ahead; mpi = w })
  emplaced_called e w s true i less quiet = record {
    same_tasks = refl;
    same_probes = refl;
    in_budget = less;
    few = omega arith;
    at_least = omega (arith, length-insert_at i e s.passed);
    at_most = omega (arith, length-insert_at i e s.passed);
    ahead_kept = λ x h. h;
    same_come = quiet.same_come;
    went_more = omega (arith, quiet.same_went);
    still_tested = quiet.still_tested;
  }
  emplaced_called e w s false i less quiet = record {
    same_tasks = refl;
    same_probes = refl;
    in_budget = less;
    few = omega (arith, length-insert_at i e s.ahead);
    at_least = omega (arith, length-insert_at i e s.ahead);
    at_most = omega (arith, length-insert_at i e s.ahead);
    ahead_kept = λ x h. IsIn-insert_at x e i s.ahead h;
    same_come = quiet.same_come;
    went_more = omega (arith, quiet.same_went);
    still_tested = quiet.still_tested;
  }

  request_own-HasCalled :
      (index : ℕ) (s : Rank M V Pingpong) → HasCalled 1 0 s (request_own mpi c index s)
  unfolding request_entry request_sized request_into
  request_own-HasCalled index s =
      let m =
        set_properties index c.receive_index index (allocate c.msg_size (mpi.new_memory s.mpi)) in
      let (req, w) = mpi.irecv m s.mpi in
      let (before, i) = mpi.place req (map (λ x. x.0) s.passed) (map (λ x. x.0) s.ahead) in
      emplaced_called (req, m) w s before i (bounded.irecv_keeps m s.mpi)
        (tally.irecv_quiet m s.mpi)

  replied_called :
      (m : Message V) (t : Pingpong) (s s' : Rank M V Pingpong)
      → HasCalled 1 0 (replied mpi c m t s) s'
      → HasCalled 1 1 s s'
  unfolding send
  replied_called m t s s' p =
      let peer = (t.index + 1) % 2 in
      let rank = peer % c.n_ranks in
      let m' = set_properties peer c.receive_index peer m in
      record {
        same_tasks = p.same_tasks;
        same_probes = p.same_probes;
        in_budget = omega (arith, p.in_budget, bounded.isend_keeps rank m' s.mpi);
        few = p.few;
        at_least = p.at_least;
        at_most = p.at_most;
        ahead_kept = p.ahead_kept;
        same_come = p.same_come ∙ tally.isend_come rank m' s.mpi;
        went_more = omega (arith, p.went_more, tally.isend_went rank m' s.mpi);
        still_tested = λ req h. p.still_tested req (tally.isend_tested rank m' s.mpi req h);
      }

  HasCalled-refl : (s : Rank M V Pingpong) → HasCalled 1 0 s s
  HasCalled-refl s = record {
    same_tasks = refl;
    same_probes = refl;
    in_budget = omega arith;
    few = omega arith;
    at_least = omega arith;
    at_most = omega arith;
    ahead_kept = λ x h. h;
    same_come = refl;
    went_more = omega arith;
    still_tested = λ req h. h;
  }

  -- no field that `advance` changes matters
  stopping :
      (s s' : Rank M V Pingpong) (b : Bool)
      → HasCalled 1 1 (if b then record s { running = false } else s) s'
      → HasCalled 1 1 s s'
  stopping s s' true p = record {
    same_tasks = p.same_tasks;
    same_probes = p.same_probes;
    in_budget = p.in_budget;
    few = p.few;
    at_least = p.at_least;
    at_most = p.at_most;
    ahead_kept = p.ahead_kept;
    same_come = p.same_come;
    went_more = p.went_more;
    still_tested = p.still_tested;
  }
  stopping s s' false p = p

  reply-HasCalled :
      (m : Message V) (t : Pingpong) (s : Rank M V Pingpong) (done : Bool)
      → HasCalled 1 1 s (reply mpi c m ((t, s), done)).1
  unfolding reply
  reply-HasCalled m t s true = replied_called m t s _ (HasCalled-refl (replied mpi c m t s))
  reply-HasCalled m t s false =
      replied_called m t s _ (request_own-HasCalled t.index (replied mpi c m t s))

  finished :
      (m : Message V) (t : Pingpong) (s : Rank M V Pingpong) (late warm : Bool)
      → HasCalled 1 1 s
          (reply mpi c m (
            if late
            then (if warm then ((record t { it = 0; warmup = false }, s), false) else (
              (record t { it = 0 }, if t.index == c.rank then record s { running = false } else s),
              true,
            ))
            else ((record t { it = t.it + 1 }, s), false))).1
  finished m t s false warm = reply-HasCalled m (record t { it = t.it + 1 }) s false
  finished m t s true true = reply-HasCalled m (record t { it = 0; warmup = false }) s false
  finished m t s true false = stopping s _ (t.index == c.rank) (
      reply-HasCalled m (record t { it = 0 })
        (if t.index == c.rank then record s { running = false } else s) true)

  -- `receive` returns, and sends one message.
  pub received :
      (t : Pingpong) (m : Message V) (s : Rank M V Pingpong)
      → (t' : Pingpong) × (s' : Rank M V Pingpong) × (receive mpi c t m s ≡ ok (t', s'))
        × HasCalled 1 1 s s'
  unfolding receive advance finish
  received t m s = (_, _, refl, finished m t s (leb c.n_iters (t.it + 1)) t.warmup)
