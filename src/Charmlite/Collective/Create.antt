-- ===== src/Charmlite/Collective/Create.antt =====
-- Messages for an element that is not here, and its creation, in
-- archive/charmlite/include/collective.hh.
use charm_experiments.Common.{
  abort, fault, out_of_fuel, if◌then◌else◌, ◌>>=◌, ==_refl, ==_ne, ℕ, ◌<◌, ◌≡◌, refl, ◌∙◌, ◌≢◌,
  true, false, some, none, List, [], ◌∷◌, ◌++◌, append_assoc, nat_eq, find, put, find-put_self,
  length, All, Outcome, ok, pos,
}
use charm_experiments.Charmlite.Destination.{
  CollectiveIndex, to_endpoint, endpoint, chare_bcast_root,
}
use charm_experiments.Charmlite.Message.{Message, sync_send}
use charm_experiments.Charmlite.Tables.{EntryRecord, record_for}
use charm_experiments.Charmlite.Collective.{
  Chare, fresh_chare, Runtime, Collective, sent, waiting, try_deliver, construct, flush_buffers,
  deliver_now, buffer_msg,
}
use charm_experiments.Charmlite.Collective.Steps.{buffered, invoked, invoke_lem, IsLocal, reported}
use charm_experiments.Charmlite.Collective.Livelock.{any_broadcast}
use charm_experiments.Charmlite.Collective.Flush.{process, flush_buffers_total}

delivered_lem :
    {P T : Type 0} (m : Message P) (o : Outcome (Collective P T))
    → (reported o >>= λ r. if r.0 then ok r.1 else buffer_msg m r.1) ≡ o
delivered_lem m (ok c) = refl
delivered_lem m abort = refl
delivered_lem m fault = refl
delivered_lem m out_of_fuel = refl

module _ {P T : Type 0} (rt : Runtime P T) (fuel idx entry b : ℕ) (col : CollectiveIndex)
    (c : Collective P T) (m : Message P) (r : EntryRecord P T)
    (addressed : m.dst ≡ to_endpoint col idx entry b) (single : idx ≢ chare_bcast_root)
    (registered : record_for rt.entries entry ≡ ok (some r))
    (absent : find idx c.chares ≡ none) where
  -- A message of a method, for an element that is not here, waits on the element's home PE and is
  -- sent there from any other PE; nothing else changes.
  pub deliver_now_absent :
      r.is_constructor ≡ false
      → (rt.locmgr.pe_for idx ≡ rt.my_pe → deliver_now rt fuel m c ≡ ok (buffered idx m c))
        × (rt.locmgr.pe_for idx ≢ rt.my_pe
            → deliver_now rt fuel m c ≡ ok (sent c (sync_send (pos (rt.locmgr.pe_for idx)) m ∷ [])))
  unfolding deliver_now try_deliver endpoint buffer_msg
  deliver_now_absent k = (
    λ h.
        simp (
          addressed,
          ==_ne idx chare_bcast_root single,
          registered,
          k,
          absent,
          h,
          ==_refl rt.my_pe,
        ),
    λ h. simp (
      addressed,
      ==_ne idx chare_bcast_root single,
      registered,
      k,
      absent,
      ==_ne (rt.locmgr.pe_for idx) rt.my_pe h,
    ),
  )

  abbrev newborn : Chare T
  newborn = record (fresh_chare rt.raw c.id idx) { obj = (r.fn rt.raw m).0 }

  abbrev created : Collective P T
  created =
      invoked r idx (fresh_chare rt.raw c.id idx) m
        (record c { chares = put idx (fresh_chare rt.raw c.id idx) c.chares })

  constructor_run :
      r.is_constructor ≡ true
      → rt.locmgr.pe_for idx ≡ rt.my_pe
      → deliver_now rt fuel m c ≡ flush_buffers rt fuel idx created
  unfolding deliver_now try_deliver endpoint construct
  constructor_run k h =
      simp
        (addressed, ==_ne idx chare_bcast_root single, registered, k, h, ==_refl rt.my_pe, absent)
        (rw
          (invoke_lem rt r idx (fresh_chare rt.raw c.id idx) m
            (record c { chares = put idx (fresh_chare rt.raw c.id idx) c.chares })
            (find-put_self idx (fresh_chare rt.raw c.id idx) c.chares))
          (delivered_lem m (flush_buffers rt fuel idx created)))

  -- On the home PE a constructor message creates the element, and the messages that came before it
  -- are then handled in order of arrival, if none of them is a broadcast or a constructor and the
  -- fuel is above their number.
  pub deliver_now_constructor :
      (ms : List (Message P))
      → r.is_constructor ≡ true
      → rt.locmgr.pe_for idx ≡ rt.my_pe
      → waiting idx c ≡ ms
      → All (IsLocal rt idx) ms
      → any_broadcast ms ≡ false
      → length ms < fuel
      → let obj = (r.fn rt.raw m).0 in
        (c' : Collective P T) × (deliver_now rt fuel m c ≡ ok c')
        × (find idx c'.chares
            ≡ some (record {
              obj = (process rt ms obj).0;
              parent = c.id;
              index = idx;
              last_bcast = 0;
            }))
        × (c'.net ≡ c.net ++ ((r.fn rt.raw m).1 ++ (process rt ms obj).1))
        × (waiting idx c' ≡ [])
  deliver_now_constructor ms k home w l p lt =
      let (c', e, done) =
        flush_buffers_total rt idx fuel created newborn ms w lt (find-put_self idx _ _) l p in
      (
        c',
        constructor_run k home ∙ rw e,
        done.handled,
        done.emitted ∙ append_assoc c.net _ _,
        done.emptied,
      )
