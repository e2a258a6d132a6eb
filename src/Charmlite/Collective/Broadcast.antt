-- ===== src/Charmlite/Collective/Broadcast.antt =====
-- Broadcasts in archive/charmlite/include/collective.hh: at the root of the tree and below it.
use charm_experiments.Common.{
  sym, ==_ne, subst, ==_refl, ℕ, suc, ◌+◌, ◌<◌, ◌≡◌, refl, ◌∙◌, ap, ◌≢◌, true, false, some, List,
  [], ◌++◌, append_assoc, arith, nat_eq, find, find-put_self, ok,
}
use charm_experiments.Charmlite.Destination.{
  CollectiveIndex, to_endpoint, Endpoint, endpoint, is_broadcast, chare_bcast_root,
}
use charm_experiments.Charmlite.Message.{Message, with_dst}
use charm_experiments.Charmlite.Tables.{EntryRecord, record_for}
use charm_experiments.Charmlite.Collective.{
  deliver_at_root, Chare, Runtime, Collective, waiting, add_u16, handle, flush_round, flush_buffers,
  deliver_now,
}
use charm_experiments.Charmlite.Collective.Steps.{
  invoked, invoke_lem, accepted, clones, handle_plain, handle_next,
}

module _ {P T : Type 0} (rt : Runtime P T) where
  flush_buffers_empty :
      (fuel idx : ℕ) (c : Collective P T)
      → waiting idx c ≡ []
      → flush_buffers rt (suc fuel) idx c ≡ ok c
  unfolding flush_buffers
  flush_buffers_empty fuel idx c w = ap (λ ms. flush_round rt (flush_buffers rt fuel) ms idx c) w

  deliver_now_root :
      (fuel root entry b : ℕ) (col : CollectiveIndex) (c : Collective P T) (m : Message P)
      (ch : Chare T) (r : EntryRecord P T)
      → m.dst ≡ to_endpoint col chare_bcast_root entry b
      → rt.locmgr.root ≡ ok root
      → find root c.chares ≡ some ch
      → record_for rt.entries entry ≡ ok (some r)
      → deliver_now rt fuel m c
        ≡ handle rt
            (flush_buffers rt fuel)
            (some r)
            root
            (with_dst m (to_endpoint col root entry (add_u16 ch.last_bcast 1)))
            c
  unfolding deliver_now endpoint
  deliver_now_root fuel root entry b col c m ch r d t f g =
      simp (d, t, ==_refl chare_bcast_root)
        (ap
            (λ o.
              deliver_at_root rt (flush_buffers rt fuel)
                (record { collective = col; chare = chare_bcast_root; entry = entry; bcast = b }) m
                root o c)
            f
          ∙ rw g)

  numbered_is_broadcast :
      (col : CollectiveIndex) (idx entry b : ℕ)
      → is_broadcast (to_endpoint col idx entry (b + 1)) ≡ true
  unfolding is_broadcast
  numbered_is_broadcast col idx entry b = ground arith

  unnumbered :
      (col : CollectiveIndex) (idx entry : ℕ)
      → idx ≢ chare_bcast_root
      → is_broadcast (to_endpoint col idx entry 0) ≡ false
  unfolding is_broadcast
  unnumbered col idx entry ne = rw (==_ne idx chare_bcast_root ne)

  endpoint_lem :
      (col : CollectiveIndex) (idx entry b : ℕ)
      → endpoint (to_endpoint col idx entry b)
        ≡ ok (record { collective = col; chare = idx; entry = entry; bcast = b })
  unfolding endpoint
  endpoint_lem col idx entry b = refl

  handle_settled :
      (fuel key n : ℕ) (c : Collective P T) (m : Message P) (ch : Chare T) (r : EntryRecord P T)
      (children : List ℕ)
      → n ≡ key
      → is_broadcast m.dst ≡ true
      → find key c.chares ≡ some ch
      → ch.index ≡ n
      → (ep : Endpoint) → endpoint m.dst ≡ ok ep
      → ep.bcast ≡ ch.last_bcast + 1
      → rt.locmgr.upstream key ≡ ok children
      → waiting key c ≡ []
      → handle rt (flush_buffers rt (suc fuel)) (some r) key m c
        ≡ ok (accepted rt r key ch children ep m c)
  handle_settled fuel key n c m ch r children e b f i ep d o u w =
      handle_next rt (flush_buffers rt (suc fuel)) r key m c ch ep children b f d
        (rw o (==_refl (ch.last_bcast + 1)))
        (subst (λ k. rt.locmgr.upstream k ≡ ok children) (sym (i ∙ e)) u)
      ∙ ap (λ k. flush_buffers rt (suc fuel) k (accepted rt r key ch children ep m c)) (i ∙ e)
      ∙ flush_buffers_empty fuel key _ w

  -- At the root, a broadcast to an element with no message waiting gets the number after the last
  -- one: a copy with that number goes to each child, in order, then the entry method runs once, and
  -- the element has counted the broadcast. This is so below 65535 broadcasts.
  pub root_broadcast :
      (fuel root entry b : ℕ) (col : CollectiveIndex) (c : Collective P T) (m : Message P)
      (ch : Chare T) (r : EntryRecord P T) (children : List ℕ)
      → m.dst ≡ to_endpoint col chare_bcast_root entry b
      → rt.locmgr.root ≡ ok root
      → find root c.chares ≡ some ch
      → ch.index ≡ root
      → record_for rt.entries entry ≡ ok (some r)
      → rt.locmgr.upstream root ≡ ok children
      → waiting root c ≡ []
      → ch.last_bcast < 65535
      → let n = ch.last_bcast + 1 in
        let m' = with_dst m (to_endpoint col root entry n) in
        let ep : Endpoint = record { collective = col; chare = root; entry = entry; bcast = n } in
        (c' : Collective P T) × (deliver_now rt (suc fuel) m c ≡ ok c')
        × (find root c'.chares ≡ some (record ch { obj = (r.fn ch.obj m').0; last_bcast = n }))
        × (c'.net ≡ c.net ++ (clones rt children ep m' ++ (r.fn ch.obj m').1))
        × (waiting root c' ≡ [])
  root_broadcast fuel root entry b col c m ch r children d t f i g u w lt =
      let n = ch.last_bcast + 1 in
      let m' = with_dst m (to_endpoint col root entry n) in
      let ep : Endpoint = record { collective = col; chare = root; entry = entry; bcast = n } in
      let wrap : add_u16 ch.last_bcast 1 ≡ n = omega arith in
      (
        accepted rt r root ch children ep m' c,
        deliver_now_root (suc fuel) root entry b col c m ch r d t f g
            ∙ ap
                (λ k.
                  handle rt (flush_buffers rt (suc fuel)) (some r) root
                    (with_dst m (to_endpoint col root entry k)) c)
                wrap
            ∙ handle_settled fuel root root c m' ch r children refl
                (numbered_is_broadcast col root entry ch.last_bcast) f i ep
                (endpoint_lem col root entry n) refl u w,
        find-put_self root _ _ ∙ rw wrap,
        append_assoc c.net _ _,
        w,
      )

  -- After 65535 broadcasts the number wraps to 0: the root runs the entry method, but no copy goes
  -- to a child and the count stays.
  pub root_broadcast_wraps :
      (fuel root entry b : ℕ) (col : CollectiveIndex) (c : Collective P T) (m : Message P)
      (ch : Chare T) (r : EntryRecord P T)
      → m.dst ≡ to_endpoint col chare_bcast_root entry b
      → rt.locmgr.root ≡ ok root
      → root ≢ chare_bcast_root
      → find root c.chares ≡ some ch
      → record_for rt.entries entry ≡ ok (some r)
      → ch.last_bcast ≡ 65535
      → let m' = with_dst m (to_endpoint col root entry 0) in
        (c' : Collective P T) × (deliver_now rt fuel m c ≡ ok c')
        × (find root c'.chares ≡ some (record ch { obj = (r.fn ch.obj m').0 }))
        × (c'.net ≡ c.net ++ (r.fn ch.obj m').1)
  root_broadcast_wraps fuel root entry b col c m ch r d t ne f g last =
      let m' = with_dst m (to_endpoint col root entry 0) in
      (
        invoked r root ch m' c,
        deliver_now_root fuel root entry b col c m ch r d t f g
            ∙ ap
                (λ k.
                  handle rt (flush_buffers rt fuel) (some r) root
                    (with_dst m (to_endpoint col root entry k)) c)
                (omega arith)
            ∙ handle_plain rt (flush_buffers rt fuel) (some r) root m' c
                (unnumbered col root entry ne)
            ∙ invoke_lem rt r root ch m' c f,
        find-put_self root _ c.chares,
        refl,
      )
