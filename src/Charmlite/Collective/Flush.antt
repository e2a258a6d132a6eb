-- ===== src/Charmlite/Collective/Flush.antt =====
-- `flush_buffers` of archive/charmlite/include/collective.hh where no broadcast waits, against a
-- fold over the messages that wait.
use charm_experiments.Common.{
  tail_of, ℕ, zero, suc, ◌<◌, ◌≡◌, refl, ◌∙◌, sym, ap, ◌≢◌, false, Option, none, some, List, [],
  ◌∷◌, ◌++◌, append-nil, append_assoc, arith, nat_eq, find, find-put, find-put_self, length, All,
  Outcome, ok,
}
use charm_experiments.Charmlite.Destination.{Destination, to_endpoint, is_broadcast}
use charm_experiments.Charmlite.Message.{Message, Out}
use charm_experiments.Charmlite.Tables.{EntryRecord, record_for}
use charm_experiments.Charmlite.Collective.{
  Chare, Runtime, Collective, waiting, pop_front, flush_round, flush_buffers,
}
use charm_experiments.Charmlite.Collective.Steps.{
  waiting-pop_front, invoked, IsLocal, delivered_plain, flush_buffers_round,
}
use charm_experiments.Charmlite.Collective.Livelock.{any_broadcast}

module _ {P T : Type 0} (rt : Runtime P T) where
  registered_as : Outcome (Option (EntryRecord P T)) → Option (EntryRecord P T)
  registered_as (ok rec) = rec
  registered_as _ = none

  method_at : Destination → Option (EntryRecord P T)
  unfolding registered_as
  method_at (to_endpoint c i entry b) = registered_as (record_for rt.entries entry)
  method_at _ = none

  apply_method : Option (EntryRecord P T) → Message P → T → T × List (Out P)
  apply_method none m obj = (obj, [])
  apply_method (some r) m obj = r.fn obj m

  -- What the entry methods that the messages name make of an object, the oldest message first.
  unfoldable pub process : List (Message P) → T → T × List (Out P)
  unfolding method_at apply_method
  process [] obj = (obj, [])
  process (m ∷ ms) obj =
      let (obj1, out) = apply_method (method_at m.dst) m obj in
      let (obj2, more) = process ms obj1 in (obj2, out ++ more)

  module _ (idx : ℕ) where
    -- The messages `ms` have been handled by the element `ch`, and nothing else has changed.
    pub record Flushed (ch : Chare T) (ms : List (Message P)) (c c' : Collective P T) : Type 0 where
      pub emptied : waiting idx c' ≡ []
      pub handled : find idx c'.chares ≡ some (record ch { obj = (process ms ch.obj).0 })
      pub emitted : c'.net ≡ c.net ++ (process ms ch.obj).1
      pub same_id : c'.id ≡ c.id
      pub other_chares : (j : ℕ) → j ≢ idx → find j c'.chares ≡ find j c.chares
      pub other_buffers : (j : ℕ) → j ≢ idx → waiting j c' ≡ waiting j c

    apply_method_local :
        (m : Message P) (l : IsLocal rt idx m) (obj : T)
        → apply_method (method_at m.dst) m obj ≡ l.entry_record.fn obj m
    unfolding method_at apply_method
    apply_method_local m l obj = simp (l.addressed, l.registered)

    abbrev handled_front :
        (c : Collective P T) (ch : Chare T) (m : Message P) → IsLocal rt idx m → Collective P T
    handled_front c ch m l = pop_front idx (invoked l.entry_record idx ch m c)

    Flushed-nil :
        (c : Collective P T) (ch : Chare T)
        → waiting idx c ≡ []
        → find idx c.chares ≡ some ch
        → Flushed ch [] c c
    unfolding process
    Flushed-nil c ch w f = record {
      emptied = w;
      handled = f;
      emitted = sym (append-nil c.net);
      same_id = refl;
      other_chares = λ j h. refl;
      other_buffers = λ j h. refl;
    }

    Flushed-cons :
        (c c' : Collective P T) (ch : Chare T) (m : Message P) (ms : List (Message P))
        (l : IsLocal rt idx m)
        → Flushed
            (record ch { obj = (l.entry_record.fn ch.obj m).0 })
            ms
            (handled_front c ch m l)
            c'
        → Flushed ch (m ∷ ms) c c'
    unfolding process pop_front
    Flushed-cons c c' ch m ms l f = record {
      emptied = f.emptied;
      handled = f.handled ∙ rw (apply_method_local m l ch.obj);
      emitted = f.emitted ∙ append_assoc c.net _ _ ∙ rw (apply_method_local m l ch.obj);
      same_id = f.same_id;
      other_chares = λ j h.
          f.other_chares j h
          ∙ ground
              (arith, find-put idx j (record ch { obj = (l.entry_record.fn ch.obj m).0 }) c.chares);
      other_buffers = λ j h.
          f.other_buffers j h ∙ ground (arith, find-put idx j (tail_of (waiting idx c)) c.buffers);
    }

    -- If the element is here and the messages that wait for it are for its methods and no
    -- broadcasts, then `flush_buffers` returns with fuel above their number, and has handled them
    -- in order of arrival.
    pub flush_buffers_total :
        (fuel : ℕ) (c : Collective P T) (ch : Chare T) (ms : List (Message P))
        → waiting idx c ≡ ms
        → length ms < fuel
        → find idx c.chares ≡ some ch
        → All (IsLocal rt idx) ms
        → any_broadcast ms ≡ false
        → (c' : Collective P T) × (flush_buffers rt fuel idx c ≡ ok c') × Flushed ch ms c c'
    unfolding flush_buffers pop_front
    flush_buffers_total zero c ch ms w lt f l p = elim lt [ ]
    flush_buffers_total (suc fuel) c ch [] w lt f l p =
        (c, ap (λ ms. flush_round rt (flush_buffers rt fuel) ms idx c) w, Flushed-nil c ch w f)
    flush_buffers_total (suc fuel) c ch (m ∷ ms) w lt f l p =
        let plain : is_broadcast m.dst ≡ false = ground arith in
        let (c', e, done) =
          flush_buffers_total fuel (handled_front c ch m l.0) _ ms
            (waiting-pop_front idx (invoked l.0.entry_record idx ch m c) ∙ ap tail_of w)
            (omega arith) (find-put_self idx _ c.chares) l.1 (ground arith) in
        (
          c',
          flush_buffers_round rt fuel idx c _ m ms w
                (delivered_plain rt idx m c ch l.0 f (flush_buffers rt fuel) plain)
              ∙ e,
          Flushed-cons c c' ch m ms l.0 done,
        )
