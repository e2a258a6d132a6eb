-- ===== src/Ipc/Address.antt =====
-- archive/include/xpmem.hh: the address of another process's block in this process. The calls of
-- the XPMEM library are parameters.
pub mod Window
pub mod Tests
use charm_experiments.Common.{
  find, put, Assoc, Outcome, abort, ℕ, ◌+◌, ◌-◌, ◌%◌, ◌^◌, Option, none, some, [], arith, ◌==◌,
  if◌then◌else◌, ok, nat_eq,
}

-- `segments_` and `instances_`
pub record Segments : Type 0 where
  pub segments : Assoc ℕ ℕ
  pub instances : Assoc ℕ ℕ

-- `put_segment`: a PE has one segment.
abbrev pub put_if_new : ℕ → ℕ → Option ℕ → Segments → Outcome Segments
put_if_new pe segid none s = ok (record s { segments = put pe segid s.segments })
put_if_new pe segid (some _) s = abort

unfoldable pub put_segment : ℕ → ℕ → Segments → Outcome Segments
put_segment pe segid s = put_if_new pe segid (find pe s.segments) s

-- OPAL_DOWN_ALIGN and OPAL_ALIGN to 1 << 23, on uintptr_t
abbrev pub down_align : ℕ → ℕ
down_align x = x - x % 8388608

abbrev pub up_align : ℕ → ℕ
up_align x = down_align ((x + 8388607) % 2 ^ 64)

-- The window that is attached for a block, from `base` to `bound`.
abbrev pub base_of : ℕ → ℕ
base_of p = down_align p

abbrev pub bound_of : ℕ → ℕ → ℕ
bound_of p size = (up_align ((p + size + (2 ^ 64 - 1)) % 2 ^ 64) + 1) % 2 ^ 64

-- `bound - base`
abbrev pub length_of : ℕ → ℕ → ℕ
length_of p size = (bound_of p size + (2 ^ 64 - base_of p % 2 ^ 64)) % 2 ^ 64

-- The calls succeed: `xpmem_get` gives the handle of a segment; `xpmem_attach` gives the address at which a window of
-- a handle is attached, from its offset and length.
module _ (xpmem_get : ℕ → ℕ) where
  -- `get_instance`, given what the maps have: none stands for -1.
  abbrev pub instance_of : ℕ → Option ℕ → Segments → ℕ × Segments
  instance_of segid (some apid) s = (apid, s)
  instance_of segid none s =
      (xpmem_get segid, record s { instances = put segid (xpmem_get segid) s.instances })

  abbrev pub instance_at : Option ℕ → Segments → Option (ℕ × Segments)
  instance_at none s = none
  instance_at (some segid) s = some (instance_of segid (find segid s.instances) s)

  unfoldable pub get_instance : ℕ → Segments → Option (ℕ × Segments)
  get_instance pe s = instance_at (find pe s.segments) s

module _ (xpmem_attach : ℕ → ℕ → ℕ → ℕ) where
  -- the part of `translate_address` for another process, given the instance
  abbrev pub attach_window : ℕ → ℕ → Option (ℕ × Segments) → Outcome (ℕ × Segments)
  attach_window p size none = abort
  attach_window p size (some (apid, s)) =
      ok ((xpmem_attach apid (base_of p) (length_of p size) + (p - base_of p)) % 2 ^ 64, s)

module _ (xpmem_get : ℕ → ℕ) (xpmem_attach : ℕ → ℕ → ℕ → ℕ) where
  -- `translate_address` on node `here`
  unfoldable pub translate_address : ℕ → ℕ → ℕ → ℕ → Segments → Outcome (ℕ × Segments)
  translate_address here pe p size s =
      if pe == here
      then ok (p, s)
      else attach_window xpmem_attach p size (get_instance xpmem_get pe s)
