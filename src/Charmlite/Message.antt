-- ===== src/Charmlite/Message.antt =====
-- archive/charmlite/include/message.hh. `P` is what a message carries behind its header.
use charm_experiments.Common.{
  ℕ, ◌-◌, Bool, false, Option, none, some, List, Outcome, ok, deref, ◌>>=◌, get_elem?, ℤ, pos, ◌==◌,
  if◌then◌else◌,
}
use charm_experiments.Charmlite.Destination.{Destination, to_endpoint, invalid}

-- The two flags are `flags_[0]` and `flags_[1]`. `slot` is what `offset_()` points at while the
-- union holds no endpoint; with an endpoint it is the field `entry`.
pub record Message (P : Type 0) : Type 0 where
  pub kind : ℕ
  pub has_combiner : Bool
  pub has_collective_kind : Bool
  pub dst : Destination
  pub slot : ℕ
  pub total_size : ℕ
  pub payload : P

-- `operator delete`, or the deleter of a registered kind.
pub data Deleter : Type 0 where
  plain : Deleter
  registered : ℕ → Deleter

slot_of : Destination → ℕ → ℕ
slot_of (to_endpoint c i entry b) slot = entry
slot_of _ slot = slot

module _ {P : Type 0} where
  -- `combiner()`: the id that the pointer shows, and `none` for a null pointer.
  unfoldable pub combiner : Message P → Option ℕ
  unfolding slot_of
  combiner m = if m.has_combiner then some (slot_of m.dst m.slot) else none

  -- `message(kind, total_size)`
  abbrev pub new_message : ℕ → ℕ → P → Message P
  new_message kind size p = record {
    kind = kind;
    has_combiner = false;
    has_collective_kind = false;
    dst = invalid;
    slot = 0;
    total_size = size;
    payload = p;
  }

  -- `message::free` at a message that is not null: which deleter runs on it, from the table.
  unfoldable pub free : List ℕ → Message P → Outcome Deleter
  free table m =
      if m.kind == 0
      then ok plain
      else deref (get_elem? table (m.kind - 1)) >>= λ d. ok (registered d)

  abbrev pub with_dst : Message P → Destination → Message P
  with_dst m d = record m { dst = d }

-- What the runtime hands to Converse, in order.
pub data Out (P : Type 0) : Type 0 where
  push_pe : ℕ → Message P → Out P  -- CmiPushPE: the queue of this PE
  sync_send : ℤ → Message P → Out P  -- CmiSyncSendAndFree
  broadcast : Message P → Out P  -- CmiSyncBroadcast(AndFree): every other PE
  broadcast_all : Message P → Out P  -- CmiSyncBroadcastAllAndFree
  exit_scheduler : Out P

-- `send_helper_` on PE `my_pe`
unfoldable pub send_helper : {P : Type 0} → ℕ → ℕ → Message P → Out P
send_helper my_pe pe m = if pe == my_pe then push_pe pe m else sync_send (pos pe) m
