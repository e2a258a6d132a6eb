-- ===== src/Warp.antt =====
-- warp/warp.hpp: tasks of one rank whose entry functions run when the messages that they requested
-- have come. The calls of MPI are parameters.
pub mod Pingpong
pub mod Play
pub mod Calls
pub mod Turns
pub mod Tally
pub mod Answers
pub mod Once
pub mod Probes
pub mod Returns
pub mod Tests
use Prim.Native.Nat.{bit_and}
use charm_experiments.Common.{
  set, get_elem?, map, ℕ, zero, suc, ◌+◌, ◌-◌, ◌%◌, ◌^◌, Bool, Option, none, some, List, [], ◌∷◌,
  ◌++◌, arith, ◌==◌, if◌then◌else◌, ◌>>=◌, ok, out_of_fuel, Outcome, deref, nat_eq,
}

-- `message`; what follows the struct is `data`.
pub record Message (V : Type 0) : Type 0 where
  pub obj : ℕ
  pub ep : ℕ
  pub size : ℕ
  pub tag : ℕ
  pub contents : V

-- `sizeof(message)`: three words and an int
abbrev pub sizeof_message : ℕ
sizeof_message = 32

abbrev pub total_size : {V : Type 0} → Message V → ℕ
total_size m = (m.size + sizeof_message) % 2 ^ 64

-- `allocate`, with what it finds in the memory
abbrev pub allocate : {V : Type 0} → ℕ → Message V → Message V
allocate size junk = record junk { size = size }

abbrev pub set_properties : {V : Type 0} → ℕ → ℕ → ℕ → Message V → Message V
set_properties obj ep tag m = record m { obj = obj; ep = ep; tag = tag }

-- What MPI and the allocator do, on what they know of the world: MPI_Irecv and MPI_Isend give a
-- request, MPI_Test tells whether a request is done, and with a receive what is in its buffer then,
-- and MPI_Iprobe tells the number of bytes of a message that has come with a tag. A key of the map of
-- receives is overwritten by MPI_Test, so that the place of a new key in the map is not determined:
-- `place` tells whether it is before the iterator, and where.
pub record Mpi (M V : Type 0) : Type 0 where
  pub new_memory : M → Message V
  pub irecv : Message V → M → ℕ × M
  pub isend : ℕ → Message V → M → ℕ × M
  pub test_send : ℕ → M → Bool × M
  pub test_receive : ℕ → M → Option (Message V) × M
  pub iprobe : ℕ → M → Option ℕ × M
  pub place : ℕ → List ℕ → List ℕ → Bool × ℕ

-- The variables of the namespace, with those of the program. The receives are parted by the
-- iterator of the loop that goes through them; outside it, where they are parted says nothing.
pub record Rank (M V T : Type 0) : Type 0 where
  pub tasks : List T
  pub passed : List (ℕ × Message V)
  pub ahead : List (ℕ × Message V)
  pub sends : List (ℕ × Message V)
  pub probes : List (ℕ × ℕ × ℕ)
  pub running : Bool
  pub mpi : M

-- `entry_info`
pub record EntryInfo (M V T : Type 0) : Type 0 where
  pub fn : T → Message V → Rank M V T → Outcome (T × Rank M V T)
  pub size : Option ℕ

abbrev pub insert_at : {A : Type 0} → ℕ → A → List A → List A
insert_at zero x xs = x ∷ xs
insert_at (suc i) x [] = x ∷ []
insert_at (suc i) x (y ∷ ys) = y ∷ insert_at i x ys

-- MPI_SUCCESS
abbrev pub mpi_success : ℕ
mpi_success = 0

-- `initialize`, given what its calls return from MPI_Comm_rank on
abbrev pub err_after : ℕ → List ℕ → ℕ
err_after err [] = err
err_after err (e ∷ es) = err_after (bit_and err e) es

abbrev pub initialize : List ℕ → Bool
initialize results = err_after mpi_success results == mpi_success

module _ {M V : Type 0} (mpi : Mpi M V) where
  -- `__foreach_request` on the sends: those that are done are dropped.
  unfoldable pub foreach_send : List (ℕ × Message V) → M → List (ℕ × Message V) × M
  foreach_send [] w = ([], w)
  foreach_send ((req, m) ∷ rest) w =
      let (done, w1) = mpi.test_send req w in
      let (kept, w2) = foreach_send rest w1 in (if done then kept else (req, m) ∷ kept, w2)

module _ {M V T : Type 0} (mpi : Mpi M V) where
  -- `receives.emplace`
  abbrev pub emplace_receive : ℕ × Message V → Rank M V T → Rank M V T
  emplace_receive e s =
      let (before, i) = mpi.place e.0 (map (λ x. x.0) s.passed) (map (λ x. x.0) s.ahead) in
      if before
      then record s { passed = insert_at i e s.passed }
      else record s { ahead = insert_at i e s.ahead }

  -- `request` of a message
  unfoldable pub request_into : Message V → Rank M V T → Rank M V T
  request_into m s =
      let (req, w) = mpi.irecv m s.mpi in emplace_receive (req, m) (record s { mpi = w })

  -- `__request`
  unfoldable pub request_sized : ℕ → ℕ → ℕ → ℕ → Rank M V T → Rank M V T
  unfolding request_into
  request_sized obj ep size tag s =
      request_into (set_properties obj ep tag (allocate size (mpi.new_memory s.mpi))) s

  -- `request` to an entry, given the size of its entry in the table
  unfoldable pub request_entry : Option ℕ → ℕ → ℕ → ℕ → Rank M V T → Rank M V T
  unfolding request_sized
  request_entry (some size) obj ep tag s = request_sized obj ep size tag s
  request_entry none obj ep tag s = record s { probes = s.probes ++ ((obj, ep, tag) ∷ []) }

  -- `send`
  unfoldable pub send : ℕ → ℕ → ℕ → ℕ → Message V → Rank M V T → Rank M V T
  send rank obj ep tag m s =
      let m' = set_properties obj ep tag m in
      let (req, w) = mpi.isend rank m' s.mpi in
      record s { sends = s.sends ++ ((req, m') ∷ []); mpi = w }

  -- one round of `while (!probes.empty())`, given what MPI_Iprobe tells of the first probe
  unfoldable pub probe_one :
      (Rank M V T → Rank M V T)
      → ℕ × ℕ × ℕ
      → List (ℕ × ℕ × ℕ)
      → Rank M V T
      → Option ℕ × M
      → Rank M V T
  unfolding request_sized
  probe_one next p rest s (none, w) = record s { probes = p ∷ rest; mpi = w }
  probe_one next (obj, ep, tag) rest s (some count, w) = next (
      request_sized obj ep ((count + (2 ^ 64 - sizeof_message)) % 2 ^ 64) tag
        (record s { mpi = w }))

  -- `while (!probes.empty())`, given the queue
  unfoldable pub run_probes : List (ℕ × ℕ × ℕ) → Rank M V T → Rank M V T
  unfolding probe_one
  run_probes [] s = record s { probes = [] }
  run_probes ((obj, ep, tag) ∷ rest) s =
      probe_one (run_probes rest) (obj, ep, tag) rest s (mpi.iprobe tag s.mpi)

module _ {M V T : Type 0} (mpi : Mpi M V) (table : List (EntryInfo M V T)) where
  -- `request` to an entry
  unfoldable pub request : ℕ → ℕ → ℕ → Rank M V T → Outcome (Rank M V T)
  unfolding request_entry
  request obj ep tag s =
      deref (get_elem? table ep) >>= λ e. ok (request_entry mpi e.size obj ep tag s)

  -- the entry function of a message that has come
  unfoldable pub run_entry : Message V → Rank M V T → Outcome (Rank M V T)
  run_entry m s = do
    e ← deref (get_elem? table m.ep)
    t ← deref (get_elem? s.tasks m.obj)
    r ← e.fn t m s
    ok (record r.1 { tasks = set r.1.tasks m.obj r.0 })

  -- one round of `__foreach_request` on the receives, given what MPI_Test tells of the request
  unfoldable pub test_one :
      (Rank M V T → Outcome (Rank M V T))
      → ℕ × Message V
      → List (ℕ × Message V)
      → Rank M V T
      → Option (Message V) × M
      → Outcome (Rank M V T)
  unfolding run_entry
  test_one next e rest s (none, w) =
      next (record s { passed = s.passed ++ (e ∷ []); ahead = rest; mpi = w })
  test_one next e rest s (some m, w) = run_entry m (record s { ahead = rest; mpi = w }) >>= next

  -- the loop, given what lies ahead of the iterator
  unfoldable pub foreach_from :
      (Rank M V T → Outcome (Rank M V T)) → List (ℕ × Message V) → Rank M V T → Outcome (Rank M V T)
  unfolding test_one
  foreach_from next [] s = ok (record s { passed = []; ahead = s.passed })
  foreach_from next (e ∷ rest) s = test_one next e rest s (mpi.test_receive e.0 s.mpi)

  -- `__foreach_request` on the receives
  unfoldable pub foreach_receive : ℕ → Rank M V T → Outcome (Rank M V T)
  unfolding foreach_from
  foreach_receive zero s = out_of_fuel
  foreach_receive (suc fuel) s = foreach_from (foreach_receive fuel) s.ahead s

  -- `__run_once`
  unfoldable pub run_once : ℕ → Rank M V T → Outcome (Rank M V T)
  unfolding foreach_send foreach_receive run_probes
  run_once fuel s = do
    let (kept, w) = foreach_send mpi s.sends s.mpi
    s' ←
        foreach_receive fuel
          (record s { sends = kept; mpi = w; passed = []; ahead = s.passed ++ s.ahead })
    ok (run_probes mpi s'.probes s')
