-- ===== src/Charmlite/Destination.antt =====
-- archive/charmlite/include/destination.hh, and the indices of common.hh.
use charm_experiments.Common.{
  ℕ, ◌-◌, ◌^◌, ◌≡◌, ◌↔◌, Bool, true, false, not, ◌&&◌, ◌||◌, arith, ◌==◌, Eq, ℤ, negsuc, eq_ℤ,
  Outcome, ok, abort,
}

-- `collective_index_t`: the PE that made the collective, and a number on that PE.
pub record CollectiveIndex : Type 0 where
  pub pe : ℕ
  pub id : ℕ

-- `operator==` compares the two fields as one word.
abbrev pub same_index : CollectiveIndex → CollectiveIndex → Bool
same_index a b = (a.pe == b.pe) && (a.id == b.id)

pub same_index_iff : (a b : CollectiveIndex) → (same_index a b ≡ true) ↔ (a ≡ b)
same_index_iff a b = ground arith

instance abbrev pub collective_index_eq : Eq CollectiveIndex
collective_index_eq = record { beq = same_index; beq_iff = same_index_iff }

-- `cmk::all`
abbrev pub all_pes : ℤ
all_pes = negsuc 0

-- `chare_bcast_root_`, the largest value of the 16-byte `chare_index_t`. It is also what
-- `cmk::all`, -1, converts to.
unfoldable pub chare_bcast_root : ℕ
chare_bcast_root = 2 ^ 128 - 1

-- The union with its tag: `destination_kind` is the constructor.
pub data Destination : Type 0 where
  invalid : Destination
  to_callback : (id : ℕ) (pe : ℤ) → Destination
  to_endpoint : (collective : CollectiveIndex) (chare entry bcast : ℕ) → Destination

-- `s_endpoint_`
pub record Endpoint : Type 0 where
  pub collective : CollectiveIndex
  pub chare : ℕ
  pub entry : ℕ
  pub bcast : ℕ

pub record CallbackFn : Type 0 where
  pub id : ℕ
  pub pe : ℤ

-- The constructor of an endpoint leaves `bcast` zero.
abbrev pub endpoint_to : CollectiveIndex → ℕ → ℕ → Destination
endpoint_to collective chare entry = to_endpoint collective chare entry 0

-- `endpoint()` and `callback_fn()` check the tag.
unfoldable pub endpoint : Destination → Outcome Endpoint
endpoint (to_endpoint c i e b) = ok (record { collective = c; chare = i; entry = e; bcast = b })
endpoint _ = abort

unfoldable pub callback_fn : Destination → Outcome CallbackFn
callback_fn (to_callback id pe) = ok (record { id = id; pe = pe })
callback_fn _ = abort

-- `destination::is_broadcast`
unfoldable pub is_broadcast : Destination → Bool
is_broadcast invalid = false
is_broadcast (to_callback id pe) = eq_ℤ pe all_pes
is_broadcast (to_endpoint c i e b) = not (b == 0) || (i == chare_bcast_root)
