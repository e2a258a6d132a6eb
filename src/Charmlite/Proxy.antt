-- ===== src/Charmlite/Proxy.antt =====
-- archive/charmlite/include/proxy.hh: proxies of elements, collectives and groups, and the indices
-- that new collectives get.
pub mod Ids
use charm_experiments.Common.{
  ℕ, zero, suc, ◌+◌, ◌-◌, ◌%◌, ◌^◌, ◌≡◌, Bool, true, false, Option, none, some, List, [], ◌∷◌, ◌++◌,
  pos, Outcome,
}
use charm_experiments.Charmlite.Destination.{
  CollectiveIndex, Destination, to_endpoint, endpoint_to, chare_bcast_root,
}
use charm_experiments.Charmlite.Message.{
  Message, new_message, with_dst, Out, sync_send, broadcast_all,
}
use charm_experiments.Charmlite.Collective
use charm_experiments.Charmlite.Collective.{Chare}
use charm_experiments.Charmlite.Core
use charm_experiments.Charmlite.Core.{Program, Pe}

-- `std::uint32_t` increment of `local_collective_count_`
abbrev pub increment : ℕ → ℕ
increment n = (n + 1) % 2 ^ 32

module _ {P T : Type 0} (prog : Program P T) where
  -- `element_proxy::insert` and `element_proxy::send`, by the entry that the message is for
  unfoldable pub element_send : ℕ → CollectiveIndex → ℕ → ℕ → Message P → Pe P T → Outcome (Pe P T)
  element_send fuel id idx entry m pe =
      Core.deliver prog fuel (with_dst m (endpoint_to id idx entry)) pe

  -- `collective_proxy_base_::broadcast`
  unfoldable pub broadcast_from : ℕ → CollectiveIndex → ℕ → Message P → Pe P T → Outcome (Pe P T)
  broadcast_from fuel id entry m pe =
      Core.send prog fuel (with_dst m (endpoint_to id chare_bcast_root entry)) pe

  -- `group_proxy::local_branch`
  unfoldable pub local_branch : CollectiveIndex → Pe P T → Option (Chare T)
  local_branch id pe = elim (Core.lookup id pe) [
    | none ↦ none
    | some c ↦ Collective.lookup prog.my_pe c
  ]

module _ {P : Type 0} where
  -- the message that makes a collective of the given kind
  abbrev pub creation : CollectiveIndex → ℕ → ℕ → P → Message P
  creation id kind size p = record (new_message 0 size p) {
    dst = endpoint_to id chare_bcast_root kind;
    has_collective_kind = true;
  }

  -- `collective_proxy::construct`: the index, the new count, and what is sent
  unfoldable pub construct_collective : ℕ → ℕ → ℕ → ℕ → P → CollectiveIndex × ℕ × List (Out P)
  construct_collective my_pe kind count size p =
      let id : CollectiveIndex = record { pe = my_pe; id = count } in
      (id, increment count, broadcast_all (creation id kind size p) ∷ [])

  -- the loop of `broadcast_helper_`, for PE `i` and the `n` after it
  unfoldable pub send_to_each : ℕ → ℕ → CollectiveIndex → ℕ → Message P → List (Out P)
  send_to_each zero i id entry m = []
  send_to_each (suc n) i id entry m =
      sync_send (pos i) (with_dst m (endpoint_to id i entry)) ∷ send_to_each n (i + 1) id entry m

  -- `broadcast_helper_`: PEs 1, 2, … and then PE 0
  unfoldable pub broadcast_helper : ℕ → CollectiveIndex → ℕ → Message P → List (Out P)
  unfolding send_to_each
  broadcast_helper num_pes id entry m =
      send_to_each (num_pes - 1) 1 id entry m
      ++ (sync_send (pos 0) (with_dst m (endpoint_to id 0 entry)) ∷ [])

  -- `group_proxy::construct`, with the entry of the constructor and its message
  unfoldable pub construct_group :
      ℕ → ℕ → ℕ → ℕ → ℕ → P → ℕ → Message P → CollectiveIndex × ℕ × List (Out P)
  unfolding broadcast_helper
  construct_group my_pe num_pes kind count size p entry m =
      let id : CollectiveIndex = record { pe = my_pe; id = increment count } in
      (
        id,
        increment count,
        broadcast_all (creation id kind size p) ∷ broadcast_helper num_pes id entry m,
      )
