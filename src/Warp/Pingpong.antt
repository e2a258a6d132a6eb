-- ===== src/Warp/Pingpong.antt =====
-- warp/pingpong.cpp: two tasks that send one message to and fro.
use charm_experiments.Common.{
  ℕ, ◌+◌, ◌%◌, Bool, true, false, some, List, [], ◌∷◌, ◌==◌, if◌then◌else◌, ◌>>=◌, ok, Outcome,
  nat_eq, leb,
}
use charm_experiments.Warp.{allocate, EntryInfo, Message, request_entry, send, Mpi, Rank}

-- `pingpong`, without its clock
pub record Pingpong : Type 0 where
  pub index : ℕ
  pub it : ℕ
  pub warmup : Bool

-- `rank`, `nRanks`, `nIters`, `receive_index`, and the size of that entry in `entry_table`
pub record Settings : Type 0 where
  pub rank : ℕ
  pub n_ranks : ℕ
  pub n_iters : ℕ
  pub receive_index : ℕ
  pub msg_size : ℕ

module _ {M V : Type 0} (mpi : Mpi M V) (c : Settings) where
  -- `request(index, receive_index, index)`, with the size that the table has for this entry
  abbrev pub request_own : {T : Type 0} → ℕ → Rank M V T → Rank M V T
  request_own index s = request_entry mpi (some c.msg_size) index c.receive_index index s

  -- the constructor
  abbrev pub new_pingpong : {T : Type 0} → ℕ → Rank M V T → Pingpong × Rank M V T
  new_pingpong index s = (record { index = index; it = 0; warmup = true }, request_own index s)

  -- `finish`, with the result last
  unfoldable pub finish : {T : Type 0} → Pingpong → Rank M V T → (Pingpong × Rank M V T) × Bool
  finish self s = if self.warmup then ((record self { it = 0; warmup = false }, s), false) else (
    (record self { it = 0 }, if self.index == c.rank then record s { running = false } else s),
    true,
  )

  -- `receive` up to `send`
  unfoldable pub advance : {T : Type 0} → Pingpong → Rank M V T → (Pingpong × Rank M V T) × Bool
  unfolding finish
  advance self s =
      let next = record self { it = self.it + 1 } in
      if leb c.n_iters (self.it + 1) then finish next s else ((next, s), false)

  -- the rest of `receive`
  unfoldable pub reply :
      {T : Type 0} → Message V → (Pingpong × Rank M V T) × Bool → Pingpong × Rank M V T
  reply m ((self, s), done) =
      let peer = (self.index + 1) % 2 in
      let s' = send mpi (peer % c.n_ranks) peer c.receive_index peer m s in
      (self, if done then s' else request_own self.index s')

  -- `receive`
  unfoldable pub receive :
      Pingpong → Message V → Rank M V Pingpong → Outcome (Pingpong × Rank M V Pingpong)
  unfolding advance reply
  receive self m s = ok (reply m (advance self s))

  -- the entry that `main` puts in the table
  abbrev pub pingpong_entry : EntryInfo M V Pingpong
  pingpong_entry = record { fn = receive; size = some c.msg_size }

  -- `main` up to its loop, in the state of a rank that has no tasks: a task that is null, which
  -- no message is for, is `junk`.
  unfoldable pub make_tasks : Pingpong → Rank M V Pingpong → Rank M V Pingpong
  make_tasks junk s =
      if c.rank == 0
      then (let (t, s1) = new_pingpong 0 s in
          let (t1, s2) = new_pingpong 1 s1 in
          if c.n_ranks == 1
          then record s2 { tasks = t ∷ (t1 ∷ []) }
          else record s1 { tasks = t ∷ [] })
      else if c.rank == 1
      then (let (t, s1) = new_pingpong 1 s in record s1 { tasks = junk ∷ (t ∷ []) })
      else record s { running = false }

  unfoldable pub start_program : Pingpong → Rank M V Pingpong → Rank M V Pingpong
  unfolding make_tasks
  start_program junk s =
      let s1 = make_tasks junk s in
      if c.rank == 0
      then send mpi ((c.rank + 1) % c.n_ranks) 1 c.receive_index 1
          (allocate c.msg_size (mpi.new_memory s1.mpi)) s1
      else s1

  -- A task that gets the messages `ms`.
  abbrev pub receive_all :
      List (Message V) → Pingpong × Rank M V Pingpong → Outcome (Pingpong × Rank M V Pingpong)
  receive_all [] (self, s) = ok (self, s)
  receive_all (m ∷ ms) (self, s) = receive self m s >>= receive_all ms
