-- ===== src/Charmlite/Tests.antt =====
-- Runs of the runtime of archive/charmlite on two PEs, and its theorems at concrete inputs.
use charm_experiments.Charmlite.Collective.Steps.{clones, IsLocal, buffered}
use charm_experiments.Common.{
  ℕ, zero, suc, ◌+◌, ◌≡◌, refl, ◌≢◌, true, false, some, List, [], ◌∷◌, ◌++◌, arith, nat_eq, find,
  put, pos, negsuc, ok, out_of_fuel,
}
use charm_experiments.Charmlite.Destination.{
  Endpoint, CollectiveIndex, collective_index_eq, to_endpoint, endpoint, is_broadcast,
  chare_bcast_root,
}
use charm_experiments.Charmlite.Message.{Message, new_message, with_dst, sync_send}
use charm_experiments.Charmlite.Tables.{EntryRecord, record_for}
use charm_experiments.Charmlite.Locmgr.{SpanTree, group_locmgr}
use charm_experiments.Charmlite.Collective.{
  pop_front, invoke, handle, sent, try_deliver, Chare, Runtime, Collective, waiting, flush_buffers,
  deliver_now,
}
use charm_experiments.Charmlite.Collective.Livelock.{HasBroadcast, flush_buffers_livelock}
use charm_experiments.Charmlite.Collective.Flush.{Flushed, process, flush_buffers_total}
use charm_experiments.Charmlite.Collective.Broadcast.{root_broadcast, root_broadcast_wraps}
use charm_experiments.Charmlite.Collective.Create.{deliver_now_absent, deliver_now_constructor}

abbrev pub tree : SpanTree
tree = record {
  parent = λ pe. elim pe [ zero ↦ negsuc 0 | suc _ ↦ pos 0 ];
  children = λ pe. elim pe [ zero ↦ 1 ∷ [] | suc _ ↦ [] ];
}

-- Entry 1 constructs an element from a number, entry 2 adds a number to it.
abbrev pub constructor_entry : EntryRecord ℕ ℕ
constructor_entry = record { fn = λ o m. (m.payload, []); is_constructor = true }

abbrev pub add_entry : EntryRecord ℕ ℕ
add_entry = record { fn = λ o m. (o + m.payload, []); is_constructor = false }

abbrev pub on_pe0 : Runtime ℕ ℕ
on_pe0 = record {
  my_pe = 0;
  locmgr = group_locmgr 2 0 tree;
  entries = constructor_entry ∷ add_entry ∷ [];
  raw = 99;
}

abbrev pub col : CollectiveIndex
col = record { pe = 0; id = 1 }

abbrev pub message_to : ℕ → ℕ → ℕ → ℕ → Message ℕ
message_to chare entry bcast value =
    with_dst (new_message 0 64 value) (to_endpoint col chare entry bcast)

abbrev pub element : ℕ → ℕ → Chare ℕ
element value bcasts = record { obj = value; parent = col; index = 0; last_bcast = bcasts }

-- Element 0 holds 5, has seen the given number of broadcasts, and has the messages waiting.
abbrev with_waiting : ℕ → List (Message ℕ) → Collective ℕ ℕ
with_waiting bcasts ms = record {
  id = col;
  buffers = (0, ms) ∷ [];
  chares = (0, element 5 bcasts) ∷ [];
  net = [];
}

-- Two messages that wait are handled in order.
flushes :
    (c : Collective ℕ ℕ) × (flush_buffers on_pe0 3 0
        (with_waiting 0 (message_to 0 2 0 10 ∷ message_to 0 2 0 20 ∷ []))
      ≡ ok c)
    × (find 0 c.chares ≡ some (element 35 0))
unfolding flush_buffers try_deliver endpoint record_for handle is_broadcast chare_bcast_root invoke
    pop_front find put
flushes = (_, refl, refl)

add-IsLocal : (value bcast : ℕ) → IsLocal on_pe0 0 (message_to 0 2 bcast value)
unfolding record_for
add-IsLocal value bcast = record {
  collective = col;
  entry = 2;
  bcast = bcast;
  entry_record = add_entry;
  addressed = refl;
  registered = refl;
  method = refl;
}

-- Broadcast 2 waits for broadcast 1.
abbrev out_of_order : Collective ℕ ℕ
out_of_order = with_waiting 0 (message_to 0 2 2 10 ∷ [])

out_of_order-HasBroadcast : HasBroadcast on_pe0 0 out_of_order
unfolding find is_broadcast chare_bcast_root
out_of_order-HasBroadcast = record {
  element = element 5 0;
  here = refl;
  indexed = refl;
  local = (add-IsLocal 10 2, tt);
  pending = refl;
}

upstream_0 : on_pe0.locmgr.upstream 0 ≡ ok (1 ∷ [])
unfolding group_locmgr
upstream_0 = refl

flush_buffers_livelock_example : flush_buffers on_pe0 1000 0 out_of_order ≡ out_of_fuel
flush_buffers_livelock_example =
    flush_buffers_livelock on_pe0 0 1000 out_of_order (1 ∷ []) upstream_0 out_of_order-HasBroadcast

abbrev two_waiting : List (Message ℕ)
two_waiting = message_to 0 2 0 10 ∷ message_to 0 2 0 20 ∷ []

flush_buffers_total_example :
    (c : Collective ℕ ℕ) × (flush_buffers on_pe0 3 0 (with_waiting 0 two_waiting) ≡ ok c)
    × Flushed on_pe0 0 (element 5 0) two_waiting (with_waiting 0 two_waiting) c
unfolding find is_broadcast chare_bcast_root
flush_buffers_total_example =
    flush_buffers_total on_pe0 0 3 (with_waiting 0 two_waiting) (element 5 0) two_waiting refl
      (omega arith) refl (add-IsLocal 10 0, (add-IsLocal 20 0, tt)) refl

abbrev announcement : Message ℕ
announcement = with_dst (new_message 0 64 10) (to_endpoint col chare_bcast_root 2 0)

root_broadcast_example :
    let m' = message_to 0 2 8 10 in
    let ep : Endpoint = record { collective = col; chare = 0; entry = 2; bcast = 8 } in
    (c' : Collective ℕ ℕ) × (deliver_now on_pe0 1 announcement (with_waiting 7 []) ≡ ok c')
    × (find 0 c'.chares ≡ some (element 15 8))
    × (c'.net ≡ [] ++ (clones on_pe0 (1 ∷ []) ep m' ++ []))
    × (waiting 0 c' ≡ [])
unfolding find record_for group_locmgr
root_broadcast_example =
    root_broadcast on_pe0 0 0 2 0 col (with_waiting 7 []) announcement (element 5 7) add_entry
      (1 ∷ []) refl refl refl refl refl upstream_0 refl (omega arith)

root_broadcast_wraps_example :
    (c' : Collective ℕ ℕ) × (deliver_now on_pe0 1 announcement (with_waiting 65535 []) ≡ ok c')
    × (find 0 c'.chares ≡ some (element 15 65535))
    × (c'.net ≡ [] ++ [])
unfolding find record_for group_locmgr chare_bcast_root
root_broadcast_wraps_example =
    root_broadcast_wraps on_pe0 1 0 2 0 col (with_waiting 65535 []) announcement (element 5 65535)
      add_entry refl refl (omega arith) refl refl refl

-- Element 0 is on PE 0, element 1 on PE 1.
abbrev nobody : ℕ → List (Message ℕ) → Collective ℕ ℕ
nobody idx ms = record { id = col; buffers = (idx, ms) ∷ []; chares = []; net = [] }

message_for_no_one :
    (on_pe0.locmgr.pe_for 1 ≡ 0
      → deliver_now on_pe0 1 (message_to 1 2 0 10) (nobody 1 [])
        ≡ ok (buffered 1 (message_to 1 2 0 10) (nobody 1 [])))
    × (on_pe0.locmgr.pe_for 1 ≢ 0
        → deliver_now on_pe0 1 (message_to 1 2 0 10) (nobody 1 [])
          ≡ ok (sent (nobody 1 []) (sync_send (pos 1) (message_to 1 2 0 10) ∷ [])))
unfolding find record_for group_locmgr chare_bcast_root
message_for_no_one =
    deliver_now_absent on_pe0 1 1 2 0 col (nobody 1 []) (message_to 1 2 0 10) add_entry refl
      (omega arith) refl refl refl

deliver_now_constructor_example :
    (c' : Collective ℕ ℕ) × (deliver_now on_pe0 3 (message_to 0 1 0 7) (nobody 0 two_waiting)
      ≡ ok c')
    × (find 0 c'.chares ≡ some (element 37 0))
    × (c'.net ≡ [] ++ ([] ++ []))
    × (waiting 0 c' ≡ [])
unfolding find record_for group_locmgr chare_bcast_root is_broadcast process
deliver_now_constructor_example =
    deliver_now_constructor on_pe0 3 0 1 0 col (nobody 0 two_waiting) (message_to 0 1 0 7)
      constructor_entry refl (omega arith) refl refl two_waiting refl refl refl
      (add-IsLocal 10 0, (add-IsLocal 20 0, tt)) refl (omega arith)
