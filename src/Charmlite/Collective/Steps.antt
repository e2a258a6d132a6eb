-- ===== src/Charmlite/Collective/Steps.antt =====
-- What the operations of a collective do where they succeed, one equation for each.
use charm_experiments.Common.{
  Bool, out_of_fuel, suc, ◌+◌, ◌==◌, ◌>>=◌, false, true, Option, Outcome, arith, ℕ, ◌≡◌, ◌∙◌, ap,
  some, List, [], ◌∷◌, ◌++◌, append-nil, append_assoc, nat_eq, find, put, find-put_self, tail_of,
  ok,
}
use charm_experiments.Charmlite.Destination.{
  is_broadcast, to_endpoint, CollectiveIndex, Endpoint, endpoint,
}
use charm_experiments.Charmlite.Message.{Message, with_dst, Out, send_helper}
use charm_experiments.Charmlite.Tables.{record_for, EntryRecord}
use charm_experiments.Charmlite.Collective.{
  flush_round, flush_buffers, Chare, Runtime, Collective, sent, waiting, buffer_msg, pop_front,
  with_chare, invoke, handle, try_deliver, add_u16, deliver_later, forward,
}

module _ {P T : Type 0} where
  -- `try_deliver` reports true once the call of `handle_` returns.
  abbrev pub reported : Outcome (Collective P T) → Outcome (Bool × Collective P T)
  reported o = o >>= λ c. ok (true, c)

  pub waiting-pop_front :
      (idx : ℕ) (c : Collective P T) → waiting idx (pop_front idx c) ≡ tail_of (waiting idx c)
  unfolding pop_front
  waiting-pop_front idx c = ground (arith, find-put_self idx (tail_of (waiting idx c)) c.buffers)

  -- the state after `buffer_` for an endpoint on element `idx`
  abbrev pub buffered : ℕ → Message P → Collective P T → Collective P T
  buffered idx m c = record c { buffers = put idx (waiting idx c ++ (m ∷ [])) c.buffers }

  pub waiting-buffered :
      (idx : ℕ) (m : Message P) (c : Collective P T)
      → waiting idx (buffered idx m c) ≡ waiting idx c ++ (m ∷ [])
  waiting-buffered idx m c = ground (arith, find-put_self idx (waiting idx c ++ (m ∷ [])) c.buffers)

  pub buffer_msg_lem :
      (m : Message P) (c : Collective P T) (ep : Endpoint)
      → endpoint m.dst ≡ ok ep
      → buffer_msg m c ≡ ok (buffered ep.chare m c)
  unfolding buffer_msg
  buffer_msg_lem m c ep e = rw e

  -- the state after `(rec->fn_)(obj, msg)`
  abbrev pub invoked : EntryRecord P T → ℕ → Chare T → Message P → Collective P T → Collective P T
  invoked r key ch m c = record c {
    chares = put key (record ch { obj = (r.fn ch.obj m).0 }) c.chares;
    net = c.net ++ (r.fn ch.obj m).1;
  }

module _ {P T : Type 0} (rt : Runtime P T) where
  pub invoke_lem :
      (r : EntryRecord P T) (key : ℕ) (ch : Chare T) (m : Message P) (c : Collective P T)
      → find key c.chares ≡ some ch
      → invoke rt (some r) key m c ≡ ok (invoked r key ch m c)
  unfolding invoke
  invoke_lem r key ch m c e = rw e

  -- what `handle_` sends for the children of an element
  abbrev pub clones : List ℕ → Endpoint → Message P → List (Out P)
  clones [] ep m = []
  clones (child ∷ rest) ep m =
      send_helper rt.my_pe (rt.locmgr.pe_for child) (with_dst m (with_chare ep child))
      ∷ clones rest ep m

  pub forward_lem :
      (children : List ℕ) (ep : Endpoint) (m : Message P) (c : Collective P T)
      → forward rt children ep m c ≡ ok (sent c (clones children ep m))
  unfolding forward deliver_later endpoint
  forward_lem [] ep m c = rw (append-nil c.net)
  forward_lem (child ∷ rest) ep m c =
      forward_lem rest ep m (
        sent c
          (send_helper rt.my_pe (rt.locmgr.pe_for child) (with_dst m (with_chare ep child)) ∷ []))
      ∙ ap (λ out. ok (record c { net = out })) (append_assoc c.net _ _)

  -- `handle_` on a message that is no broadcast
  pub handle_plain :
      (flush : ℕ → Collective P T → Outcome (Collective P T)) (rec : Option (EntryRecord P T))
      (key : ℕ) (m : Message P) (c : Collective P T)
      → is_broadcast m.dst ≡ false
      → handle rt flush rec key m c ≡ invoke rt rec key m c
  unfolding handle
  handle_plain flush rec key m c e = rw e

  -- `handle_` on a broadcast out of order
  pub handle_early :
      (flush : ℕ → Collective P T → Outcome (Collective P T)) (rec : Option (EntryRecord P T))
      (key : ℕ) (m : Message P) (c : Collective P T) (ch : Chare T) (ep : Endpoint)
      → is_broadcast m.dst ≡ true
      → find key c.chares ≡ some ch
      → endpoint m.dst ≡ ok ep
      → (ep.bcast == ch.last_bcast + 1) ≡ false
      → handle rt flush rec key m c ≡ ok (buffered ep.chare m c)
  unfolding handle
  handle_early flush rec key m c ch ep b f e o = rw (b, f, e, o) (buffer_msg_lem m c ep e)

  -- the element after it has accepted a broadcast
  abbrev pub advanced : Chare T → Chare T
  advanced ch = record ch { last_bcast = add_u16 ch.last_bcast 1 }

  -- the state when `handle_` has run the entry method of a broadcast in order
  abbrev pub accepted :
      EntryRecord P T
      → ℕ
      → Chare T
      → List ℕ
      → Endpoint
      → Message P
      → Collective P T
      → Collective P T
  accepted r key ch children ep m c =
      invoked r key (advanced ch) m
        (sent (record c { chares = put key (advanced ch) c.chares }) (clones children ep m))

  -- `handle_` on a broadcast in order
  pub handle_next :
      (flush : ℕ → Collective P T → Outcome (Collective P T)) (r : EntryRecord P T) (key : ℕ)
      (m : Message P) (c : Collective P T) (ch : Chare T) (ep : Endpoint) (children : List ℕ)
      → is_broadcast m.dst ≡ true
      → find key c.chares ≡ some ch
      → endpoint m.dst ≡ ok ep
      → (ep.bcast == ch.last_bcast + 1) ≡ true
      → rt.locmgr.upstream ch.index ≡ ok children
      → handle rt flush (some r) key m c ≡ flush ch.index (accepted r key ch children ep m c)
  unfolding handle
  handle_next flush r key m c ch ep children b f e o u =
      rw (b, f, e, o, u, forward_lem children ep m _)
        (rw (
          invoke_lem r key (advanced ch) m
            (sent (record c { chares = put key (advanced ch) c.chares }) (clones children ep m))
            (find-put_self key (advanced ch) c.chares)))

  -- A message for the element `idx` that its entry method, no constructor, can handle.
  pub record IsLocal (idx : ℕ) (m : Message P) : Type 0 where
    pub collective : CollectiveIndex
    pub entry : ℕ
    pub bcast : ℕ
    pub entry_record : EntryRecord P T
    pub addressed : m.dst ≡ to_endpoint collective idx entry bcast
    pub registered : record_for rt.entries entry ≡ ok (some entry_record)
    pub method : entry_record.is_constructor ≡ false

  -- `try_deliver` on a message that the element is here for
  pub try_deliver_local :
      (flush : ℕ → Collective P T → Outcome (Collective P T)) (idx : ℕ) (m : Message P)
      (c : Collective P T) (ch : Chare T) (l : IsLocal idx m)
      → find idx c.chares ≡ some ch
      → try_deliver rt flush m c ≡ reported (handle rt flush (some l.entry_record) idx m c)
  unfolding try_deliver endpoint
  try_deliver_local flush idx m c ch l f = simp (l.addressed, l.registered, l.method, f)

  abbrev pub local_endpoint : (idx : ℕ) (m : Message P) → IsLocal idx m → Endpoint
  local_endpoint idx m l = record {
    collective = l.collective;
    chare = idx;
    entry = l.entry;
    bcast = l.bcast;
  }

  endpoint_local :
      (idx : ℕ) (m : Message P) (l : IsLocal idx m) → endpoint m.dst ≡ ok (local_endpoint idx m l)
  unfolding endpoint
  endpoint_local idx m l = rw l.addressed

  module _ (idx : ℕ) (m : Message P) (c : Collective P T) (ch : Chare T) (l : IsLocal idx m)
      (here : find idx c.chares ≡ some ch) where
    pub delivered_plain :
        (flush : ℕ → Collective P T → Outcome (Collective P T))
        → is_broadcast m.dst ≡ false
        → try_deliver rt flush m c ≡ ok (true, invoked l.entry_record idx ch m c)
    delivered_plain flush b =
        try_deliver_local flush idx m c ch l here
        ∙ rw (handle_plain flush (some l.entry_record) idx m c b)
            (rw (invoke_lem l.entry_record idx ch m c here))

    pub delivered_early :
        (flush : ℕ → Collective P T → Outcome (Collective P T))
        → is_broadcast m.dst ≡ true
        → (l.bcast == ch.last_bcast + 1) ≡ false
        → try_deliver rt flush m c ≡ ok (true, buffered idx m c)
    delivered_early flush b o =
        try_deliver_local flush idx m c ch l here
        ∙ rw (
            handle_early flush (some l.entry_record) idx m c ch (local_endpoint idx m l) b here
              (endpoint_local idx m l) o)

    pub delivered_next :
        (flush : ℕ → Collective P T → Outcome (Collective P T)) (children : List ℕ)
        → is_broadcast m.dst ≡ true
        → (l.bcast == ch.last_bcast + 1) ≡ true
        → rt.locmgr.upstream ch.index ≡ ok children
        → try_deliver rt flush m c
          ≡ reported (
              flush ch.index (accepted l.entry_record idx ch children (local_endpoint idx m l) m c))
    delivered_next flush children b o u =
        try_deliver_local flush idx m c ch l here
        ∙ rw (
            handle_next flush l.entry_record idx m c ch (local_endpoint idx m l) children b here
              (endpoint_local idx m l) o u)

  -- One round of `flush_buffers` that delivers the message at the front
  pub flush_buffers_round :
      (fuel idx : ℕ) (c c' : Collective P T) (m : Message P) (rest : List (Message P))
      → waiting idx c ≡ m ∷ rest
      → try_deliver rt (flush_buffers rt fuel) m c ≡ ok (true, c')
      → flush_buffers rt (suc fuel) idx c ≡ flush_buffers rt fuel idx (pop_front idx c')
  unfolding flush_buffers
  flush_buffers_round fuel idx c c' m rest w e =
      ap (λ ms. flush_round rt (flush_buffers rt fuel) ms idx c) w ∙ rw e

  -- One whose delivery does not end
  pub flush_buffers_stuck :
      (fuel idx : ℕ) (c : Collective P T) (m : Message P) (rest : List (Message P))
      → waiting idx c ≡ m ∷ rest
      → try_deliver rt (flush_buffers rt fuel) m c ≡ out_of_fuel
      → flush_buffers rt (suc fuel) idx c ≡ out_of_fuel
  unfolding flush_buffers
  flush_buffers_stuck fuel idx c m rest w e =
      ap (λ ms. flush_round rt (flush_buffers rt fuel) ms idx c) w ∙ rw e
