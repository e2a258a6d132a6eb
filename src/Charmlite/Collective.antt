-- ===== src/Charmlite/Collective.antt =====
-- archive/charmlite/include/collective.hh and chare.hh: the elements of one collective on one PE.
-- Messages that cannot be handled yet wait in a buffer for each element. `P` is the payload of a
-- message and `T` the user's part of an element.
pub mod Steps
pub mod Livelock
pub mod Flush
pub mod Broadcast
pub mod Create
use charm_experiments.Common.{
  ℕ, zero, suc, ◌+◌, ◌%◌, ◌^◌, ◌&&◌, Bool, true, false, pos, Option, none, some, List, [], ◌∷◌,
  ◌++◌, ◌==◌, if◌then◌else◌, nat_eq, Assoc, find, put, tail_of, Outcome, ok, fault, out_of_fuel,
  deref, ◌>>=◌,
}
use charm_experiments.Charmlite.Destination.{
  CollectiveIndex, Destination, to_endpoint, Endpoint, endpoint, is_broadcast, chare_bcast_root,
}
use charm_experiments.Charmlite.Message.{Message, with_dst, Out, sync_send, send_helper}
use charm_experiments.Charmlite.Tables.{EntryRecord, record_for}
use charm_experiments.Charmlite.Locmgr.{Locmgr}

-- `chare_base_`, with the object of type `T` that derives from it.
pub record Chare (T : Type 0) : Type 0 where
  pub obj : T
  pub parent : CollectiveIndex
  pub index : ℕ
  pub last_bcast : ℕ  -- std::uint16_t

-- The new element: its storage, with the properties that `property_setter_` sets.
abbrev pub fresh_chare : {T : Type 0} → T → CollectiveIndex → ℕ → Chare T
fresh_chare raw parent idx = record { obj = raw; parent = parent; index = idx; last_bcast = 0 }

-- What is fixed while a PE runs. `raw` is what `chare_record_::allocate` returns.
pub record Runtime (P T : Type 0) : Type 0 where
  pub my_pe : ℕ
  pub locmgr : Locmgr
  pub entries : List (EntryRecord P T)
  pub raw : T

-- `collective<T, Mapper>`, with all that it has handed to Converse, oldest first.
pub record Collective (P T : Type 0) : Type 0 where
  pub id : CollectiveIndex
  pub buffers : Assoc ℕ (List (Message P))
  pub chares : Assoc ℕ (Chare T)
  pub net : List (Out P)

-- `collective(id)`
unfoldable pub new_collective : {P T : Type 0} → CollectiveIndex → Collective P T
new_collective id = record { id = id; buffers = []; chares = []; net = [] }

-- `std::uint16_t` addition
abbrev pub add_u16 : ℕ → ℕ → ℕ
add_u16 a b = (a + b) % 2 ^ 16

-- `clone->dst_.endpoint().chare = child`
abbrev pub with_chare : Endpoint → ℕ → Destination
with_chare ep child = to_endpoint ep.collective child ep.entry ep.bcast

module _ {P T : Type 0} where
  -- `lookup(idx)`
  unfoldable pub lookup : ℕ → Collective P T → Option (Chare T)
  lookup idx c = find idx c.chares

  abbrev pub sent : Collective P T → List (Out P) → Collective P T
  sent c out = record c { net = c.net ++ out }

  -- the messages that wait for an element; an absent entry is an empty deque
  abbrev pub waiting : ℕ → Collective P T → List (Message P)
  waiting idx c = elim (find idx c.buffers) [ none ↦ [] | some ms ↦ ms ]

  -- `buffer_`
  unfoldable pub buffer_msg : Message P → Collective P T → Outcome (Collective P T)
  buffer_msg m c = endpoint m.dst >>= λ ep.
      ok (record c { buffers = put ep.chare (waiting ep.chare c ++ (m ∷ [])) c.buffers })

  -- `buffer.pop_front()`
  unfoldable pub pop_front : ℕ → Collective P T → Collective P T
  pop_front idx c = record c { buffers = put idx (tail_of (waiting idx c)) c.buffers }

module _ {P T : Type 0} (rt : Runtime P T) where
  -- `(rec->fn_)(obj, msg)` on the element under `key`
  unfoldable pub invoke :
      Option (EntryRecord P T) → ℕ → Message P → Collective P T → Outcome (Collective P T)
  invoke rec key m c = do
    r ← deref rec
    ch ← deref (find key c.chares)
    let (obj', out) = r.fn ch.obj m
    ok (record c { chares = put key (record ch { obj = obj' }) c.chares; net = c.net ++ out })

  -- `deliver_later`
  unfoldable pub deliver_later : Message P → Collective P T → Outcome (Collective P T)
  deliver_later m c = do
    ep ← endpoint m.dst
    ok (sent c (send_helper rt.my_pe (rt.locmgr.pe_for ep.chare) m ∷ []))

  -- a clone of the message to each child
  unfoldable pub forward : List ℕ → Endpoint → Message P → Collective P T → Outcome (Collective P T)
  forward [] ep m c = ok c
  forward (child ∷ rest) ep m c =
      deliver_later (with_dst m (with_chare ep child)) c >>= forward rest ep m

  -- `handle_`; `flush` is `flush_buffers`.
  unfoldable pub handle :
      (ℕ → Collective P T → Outcome (Collective P T))
      → Option (EntryRecord P T)
      → ℕ
      → Message P
      → Collective P T
      → Outcome (Collective P T)
  handle flush rec key m c =
      if is_broadcast m.dst
      then (do
        ch ← deref (find key c.chares)
        ep ← endpoint m.dst
        if ep.bcast == ch.last_bcast + 1
            then (do
              let ch' = record ch { last_bcast = add_u16 ch.last_bcast 1 }
              let c1 = record c { chares = put key ch' c.chares }
              children ← rt.locmgr.upstream ch.index
              c2 ← forward children ep m c1
              c3 ← invoke rec key m c2
              flush ch.index c3)
            else buffer_msg m c)
      else invoke rec key m c

  -- The part of `try_deliver` that creates an element, given what stands under its index already:
  -- a second constructor for an index destroys the new object before it is used.
  unfoldable pub construct :
      (ℕ → Collective P T → Outcome (Collective P T))
      → EntryRecord P T
      → ℕ
      → Message P
      → Option (Chare T)
      → Collective P T
      → Outcome (Collective P T)
  construct flush r idx m (some _) c = fault
  construct flush r idx m none c =
      invoke (some r) idx m (record c { chares = put idx (fresh_chare rt.raw c.id idx) c.chares })
      >>= flush idx

  -- `try_deliver`; false where the message has to wait.
  unfoldable pub try_deliver :
      (ℕ → Collective P T → Outcome (Collective P T))
      → Message P
      → Collective P T
      → Outcome (Bool × Collective P T)
  try_deliver flush m c = do
    ep ← endpoint m.dst
    rec ← record_for rt.entries ep.entry
    r ← deref rec
    let pe = rt.locmgr.pe_for ep.chare
    if r.is_constructor && (pe == rt.my_pe)
        then (construct flush r ep.chare m (find ep.chare c.chares) c >>= λ c'. ok (true, c'))
        else (elim (find ep.chare c.chares) [
          | none ↦
              if pe == rt.my_pe
              then ok (false, c)
              else ok (true, sent c (sync_send (pos pe) m ∷ []))
          | some _ ↦ handle flush rec ep.chare m c >>= λ c'. ok (true, c')
        ])

  -- One round of the loop of `flush_buffers`, given the deque. A message stays at the front while it
  -- is delivered.
  unfoldable pub flush_round :
      (ℕ → Collective P T → Outcome (Collective P T))
      → List (Message P)
      → ℕ
      → Collective P T
      → Outcome (Collective P T)
  flush_round flush [] idx c = ok c
  flush_round flush (m ∷ _) idx c =
      try_deliver flush m c >>= λ r. if r.0 then flush idx (pop_front idx r.1) else ok r.1

  -- `flush_buffers`, with fuel for its loop and for the calls that come back to it.
  unfoldable pub flush_buffers : ℕ → ℕ → Collective P T → Outcome (Collective P T)
  unfolding flush_round
  flush_buffers zero idx c = out_of_fuel
  flush_buffers (suc fuel) idx c = flush_round (flush_buffers fuel) (waiting idx c) idx c

  -- The part of `deliver_now` for a message to the root of a broadcast, given what `lookup` finds.
  unfoldable pub deliver_at_root :
      (ℕ → Collective P T → Outcome (Collective P T))
      → Endpoint
      → Message P
      → ℕ
      → Option (Chare T)
      → Collective P T
      → Outcome (Collective P T)
  deliver_at_root flush ep m root none c =
      ok (sent c (send_helper rt.my_pe (rt.locmgr.pe_for root) m ∷ []))
  deliver_at_root flush ep m root (some ch) c = record_for rt.entries ep.entry >>= λ rec.
      handle flush rec root
        (with_dst m (to_endpoint ep.collective root ep.entry (add_u16 ch.last_bcast 1))) c

  -- `deliver_now`
  unfoldable pub deliver_now : ℕ → Message P → Collective P T → Outcome (Collective P T)
  unfolding deliver_at_root lookup
  deliver_now fuel m c = do
    ep ← endpoint m.dst
    if ep.chare == chare_bcast_root
        then (rt.locmgr.root >>= λ root.
            deliver_at_root (flush_buffers fuel) ep m root (lookup root c) c)
        else (try_deliver (flush_buffers fuel) m c >>= λ r.
            if r.0 then ok r.1 else buffer_msg m r.1)

  -- `deliver`
  unfoldable pub deliver : ℕ → Message P → Bool → Collective P T → Outcome (Collective P T)
  deliver fuel m immediate c = if immediate then deliver_now fuel m c else deliver_later m c
