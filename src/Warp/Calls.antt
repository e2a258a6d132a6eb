-- ===== src/Warp/Calls.antt =====
-- The requests and sends of a task of warp/pingpong.cpp, as MPI sees them.
use charm_experiments.Warp.{
  request_entry, request_sized, request_into, insert_at, allocate, set_properties, Message, Mpi,
  Rank,
}
use charm_experiments.Warp.Pingpong.{request_own, Settings}
use charm_experiments.Common.{
  map, ℕ, ◌+◌, ◌%◌, ◌≡◌, refl, ap, ◌∙◌, Bool, true, false, List, [], ◌∷◌, ◌++◌, if◌then◌else◌,
  nat_eq,
}

-- a request by the target, entry, size and tag of its buffer, and a message handed over for a rank
pub data MpiCall (V : Type 0) : Type 0 where
  wanted : ℕ → ℕ → ℕ → ℕ → MpiCall V
  handed : ℕ → Message V → MpiCall V

-- `log` tells of every world which calls have been made; MPI_Irecv and MPI_Isend are calls.
pub record IsLog {M V : Type 0} (mpi : Mpi M V) (log : M → List (MpiCall V)) : Type 0 where
  pub irecv_logged :
      (m : Message V) (w : M)
      → log (mpi.irecv m w).1 ≡ log w ++ (wanted m.obj m.ep m.size m.tag ∷ [])
  pub isend_logged :
      (rank : ℕ) (m : Message V) (w : M)
      → log (mpi.isend rank m w).1 ≡ log w ++ (handed rank m ∷ [])

module _ {V : Type 0} (c : Settings) (index : ℕ) where
  -- the request of a task for its next message
  abbrev pub own_request : MpiCall V
  own_request = wanted index c.receive_index c.msg_size index

  -- what it sends on: the contents that have come, for the other task, to the rank of that task
  abbrev pub passed_on : Message V → MpiCall V
  passed_on m =
      let peer = (index + 1) % 2 in
      handed (peer % c.n_ranks) (record m { obj = peer; ep = c.receive_index; tag = peer })

  -- the calls of a task that gets these messages, of which the last one ends it
  abbrev pub turn_calls : List (Message V) → List (MpiCall V)
  turn_calls [] = []
  turn_calls (m ∷ []) = passed_on m ∷ []
  turn_calls (m ∷ m2 ∷ ms) = passed_on m ∷ (own_request ∷ turn_calls (m2 ∷ ms))

module _ {M V T : Type 0} (mpi : Mpi M V) (log : M → List (MpiCall V)) (logs : IsLog mpi log) where
  emplaced_mpi :
      (e : ℕ × Message V) (s : Rank M V T) (before : Bool) (i : ℕ)
      → (if before
          then record s { passed = insert_at i e s.passed }
          else record s { ahead = insert_at i e s.ahead }).mpi
        ≡ s.mpi
  emplaced_mpi e s true i = refl
  emplaced_mpi e s false i = refl

  pub log-request_own :
      (c : Settings) (index : ℕ) (s : Rank M V T)
      → log (request_own mpi c index s).mpi ≡ log s.mpi ++ (own_request c index ∷ [])
  unfolding request_entry request_sized request_into
  log-request_own c index s =
      let m =
        set_properties index c.receive_index index (allocate c.msg_size (mpi.new_memory s.mpi)) in
      let (req, w) = mpi.irecv m s.mpi in
      let (before, i) = mpi.place req (map (λ x. x.0) s.passed) (map (λ x. x.0) s.ahead) in
      ap log (emplaced_mpi (req, m) (record s { mpi = w }) before i) ∙ logs.irecv_logged m s.mpi
