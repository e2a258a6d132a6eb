-- ===== src/Ipc/Address/Tests.antt =====
-- An instance of the theorem on archive/include/xpmem.hh, and runs of the model.
use charm_experiments.Ipc.Address.Window.{translate_address_window, IsHandle}
use charm_experiments.Common.{
  find, put, abort, ℕ, ◌+◌, ◌-◌, ◌*◌, ◌%◌, ◌^◌, ◌≤◌, ◌≡◌, refl, some, [], ◌∷◌, arith, ◌>>=◌, ok,
  nat_eq,
}
use charm_experiments.Ipc.Address.{put_segment, translate_address, Segments}

abbrev known_segment : Segments
known_segment = record { segments = (1, 30) ∷ []; instances = [] }

abbrev handle_of : ℕ → ℕ
handle_of segid = segid + 100

-- Every handle is attached at one place.
abbrev attach : ℕ → ℕ → ℕ → ℕ
attach apid base len = 4096 * apid

put_segment_twice : (put_segment 2 31 known_segment >>= put_segment 2 32) ≡ abort
unfolding put_segment find put
put_segment_twice = refl

known : find 1 known_segment.segments ≡ some 30
unfolding find
known = refl

translate_address_window_example :
    (apid : ℕ) × (s' : Segments) × (offset : ℕ) × (len : ℕ) × (translate_address handle_of attach 0
        1 8388700 64 known_segment
      ≡ ok ((attach apid (8388700 - offset) len + offset) % 2 ^ 64, s'))
    × (translate_address handle_of attach 0 1 8388700 64 s'
        ≡ ok ((attach apid (8388700 - offset) len + offset) % 2 ^ 64, s'))
    × IsHandle handle_of attach 0 1 30 known_segment known apid
    × ((8388700 - offset) % 8388608 ≡ 0)
    × (offset + 64 ≤ len)
    × (len ≤ 64 + 16777216)
translate_address_window_example =
    translate_address_window handle_of attach 0 1 30 known_segment known 8388700 64
      (λ e. omega arith) (omega arith) (omega arith)
