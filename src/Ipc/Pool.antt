-- ===== src/Ipc/Pool.antt =====
-- archive/include/pool.hh: the lists of free blocks of one PE, one for each size class, as one caller
-- sees them. That no other thread has a head is the case of queue.hh, whose exchanges these are.
pub mod Classes
pub mod Blocks
pub mod Tests
use charm_experiments.Common.{
  get_elem?, fault, leb, Outcome, update, not, ensure, ◌>>◌, ℕ, ◌+◌, Bool, true, false, ◌||◌,
  Option, none, some, List, [], ◌∷◌, arith, ◌==◌, if◌then◌else◌, ◌>>=◌, ok, nat_eq,
}
use charm_experiments.Ipc.Queue.{null, tail, at, Pointer}

-- `kCutOffPoints`
abbrev pub cut_off_points : List ℕ
cut_off_points =
    64 ∷ 128 ∷ 256 ∷ 512 ∷ 1024 ∷ 2048 ∷ 4096 ∷ 8192 ∷ 16384 ∷ 32768 ∷ 65536 ∷ 131072 ∷ 262144
    ∷ 524288 ∷ 1048576 ∷ 2097152 ∷ 4194304 ∷ 8388608 ∷ 16777216 ∷ 33554432 ∷ 67108864 ∷ 134217728
    ∷ 268435456 ∷ 536870912 ∷ 1073741824 ∷ []

-- `kNumCutOffPoints`
abbrev pub num_cut_off_points : ℕ
num_cut_off_points = 25

-- The loop of `which_pow2` from index `i` on, given the points from there. It runs up to and with
-- the number of points, and there it reads past the end of the array.
unfoldable pub which_from : List ℕ → ℕ → ℕ → Outcome ℕ
which_from [] i sz = fault
which_from (p ∷ ps) i sz = let rest = which_from ps (i + 1) sz in if leb sz p then ok i else rest

-- `which_pow2`
unfoldable pub which_pow2 : ℕ → Outcome ℕ
which_pow2 sz = which_from cut_off_points 0 sz

-- `mempool`, with the fields of the blocks
pub record Mempool : Type 0 where
  pub cells : ℕ → Pointer
  pub next : ℕ → Pointer
  pub size : ℕ → ℕ
  pub used : ℕ → Bool

-- `blk->size != kCutOffPoints[pt]`
abbrev pub is_cut_off : ℕ → Option ℕ → Bool
is_cut_off sz none = false
is_cut_off sz (some p) = sz == p

-- The exchanges of `lput`, given the head: a null head is someone else's.
abbrev pub put_block : ℕ → ℕ → Pointer → Mempool → Bool × Mempool
put_block pt b null s = (false, s)
put_block pt b head s =
    (true, record s { next = update b head s.next; cells = update pt (at b) s.cells })

-- `lput(block *)`
unfoldable pub lput : ℕ → Mempool → Outcome (Bool × Mempool)
lput b s = which_pow2 (s.size b) >>= λ pt. ok (
    if leb num_cut_off_points pt || not (is_cut_off (s.size b) (get_elem? cut_off_points pt))
    then (false, s)
    else put_block pt b (s.cells pt) s)

-- The exchanges of `ralloc`, given the head, on the PE that owns the pool. The flag of the block is
-- set, and is checked to have been clear.
unfoldable pub take_block : ℕ → Pointer → Mempool → Outcome (Option ℕ × Mempool)
take_block pt null s = ok (none, s)
take_block pt tail s = ok (none, s)
take_block pt (at b) s =
    ensure (not (s.used b))
    >> ok (some b, record s { cells = update pt (s.next b) s.cells; used = update b true s.used })

-- `ralloc`
unfoldable pub ralloc : ℕ → Mempool → Outcome (Option ℕ × Mempool)
unfolding take_block
ralloc sz s = which_pow2 sz >>= λ pt.
    if leb num_cut_off_points pt then ok (none, s) else take_block pt (s.cells pt) s
