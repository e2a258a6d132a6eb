-- ===== src/Charmlite/Collective/Livelock.antt =====
-- `flush_buffers` of archive/charmlite/include/collective.hh where a broadcast waits in the buffer.
use charm_experiments.Common.{
  ap, inr, ◌==◌, inl, ◌∙◌, sym, subst, ℕ, zero, suc, ◌+◌, ◌≡◌, refl, Bool, true, false, ◌||◌, some,
  List, [], ◌∷◌, ◌++◌, arith, Bool-cases, nat_eq, find, find-put_self, All, All-append, tail_of, ok,
  out_of_fuel,
}
use charm_experiments.Charmlite.Destination.{is_broadcast}
use charm_experiments.Charmlite.Message.{Message}
use charm_experiments.Charmlite.Collective.{
  Chare, Runtime, Collective, waiting, pop_front, flush_buffers,
}
use charm_experiments.Charmlite.Collective.Steps.{
  reported, local_endpoint, delivered_plain, delivered_early, flush_buffers_round, delivered_next,
  flush_buffers_stuck, waiting-pop_front, buffered, waiting-buffered, invoked, accepted, IsLocal,
}

-- Some message of the list is a broadcast.
abbrev pub any_broadcast : {P : Type 0} → List (Message P) → Bool
any_broadcast [] = false
any_broadcast (m ∷ ms) = is_broadcast m.dst || any_broadcast ms

any_broadcast-append :
    {P : Type 0} (ms : List (Message P)) (m : Message P)
    → is_broadcast m.dst ≡ true
    → any_broadcast (ms ++ (m ∷ [])) ≡ true
any_broadcast-append [] m h = ground arith
any_broadcast-append (x ∷ ms) m h = ground (arith, any_broadcast-append ms m h)

module _ {P T : Type 0} (rt : Runtime P T) (idx : ℕ) where
  -- The element is here, each message that waits for it can be handled by one of its methods, and
  -- some of these messages are broadcasts.
  pub record HasBroadcast (c : Collective P T) : Type 0 where
    pub element : Chare T
    pub here : find idx c.chares ≡ some element
    pub indexed : element.index ≡ idx
    pub local : All (IsLocal rt idx) (waiting idx c)
    pub pending : any_broadcast (waiting idx c) ≡ true

  HasBroadcast-pop :
      (c : Collective P T) (ch : Chare T) (ws : List (Message P))
      → find idx c.chares ≡ some ch
      → ch.index ≡ idx
      → tail_of (waiting idx c) ≡ ws
      → All (IsLocal rt idx) ws
      → any_broadcast ws ≡ true
      → HasBroadcast (pop_front idx c)
  unfolding pop_front
  HasBroadcast-pop c ch ws f i e l b = record {
    element = ch;
    here = f;
    indexed = i;
    local = subst (All (IsLocal rt idx)) (sym (waiting-pop_front idx c ∙ e)) l;
    pending = subst (λ ms. any_broadcast ms ≡ true) (sym (waiting-pop_front idx c ∙ e)) b;
  }

  -- A broadcast accepted while it stands at the front leaves it there.
  accepted-HasBroadcast :
      (c : Collective P T) (h : HasBroadcast c) (m : Message P) (l : IsLocal rt idx m)
      (children : List ℕ)
      → HasBroadcast
          (accepted rt l.entry_record idx h.element children (local_endpoint rt idx m l) m c)
  accepted-HasBroadcast c h m l children = record {
    element = _;
    here = find-put_self idx _ _;
    indexed = h.indexed;
    local = h.local;
    pending = h.pending;
  }

  reported_out_of_fuel :
      (fuel k : ℕ) (c : Collective P T)
      → k ≡ idx
      → flush_buffers rt fuel idx c ≡ out_of_fuel
      → reported (flush_buffers rt fuel k c) ≡ out_of_fuel
  reported_out_of_fuel fuel k c e h = rw (e, h)

  -- One round, whatever the message at the front is.
  livelock_round :
      (children : List ℕ)
      → rt.locmgr.upstream idx ≡ ok children
      → (fuel : ℕ) (c : Collective P T) → HasBroadcast c
      → ((c' : Collective P T) → HasBroadcast c' → flush_buffers rt fuel idx c' ≡ out_of_fuel)
      → (m : Message P) (rest : List (Message P)) → waiting idx c ≡ m ∷ rest
      → IsLocal rt idx m
      → All (IsLocal rt idx) rest
      → any_broadcast (m ∷ rest) ≡ true
      → flush_buffers rt (suc fuel) idx c ≡ out_of_fuel
  livelock_round children u fuel c h ih m rest w l ls p = elim (Bool-cases (is_broadcast m.dst)) [
    | inl b ↦ elim (Bool-cases (l.bcast == h.element.last_bcast + 1)) [
      | inl now ↦ flush_buffers_stuck rt fuel idx c m rest w (
          delivered_next rt idx m c h.element l h.here _ children b now
            (subst (λ k. rt.locmgr.upstream k ≡ ok children) (sym h.indexed) u)
          ∙ reported_out_of_fuel fuel h.element.index _ h.indexed
              (ih _ (accepted-HasBroadcast c h m l children)))
      | inr early ↦
          flush_buffers_round rt fuel idx c _ m rest w
            (delivered_early rt idx m c h.element l h.here _ b early)
          ∙ ih _ (
              HasBroadcast-pop (buffered idx m c) h.element (rest ++ (m ∷ [])) h.here h.indexed
                (ap tail_of (waiting-buffered idx m c ∙ ap (λ ms. ms ++ (m ∷ [])) w))
                (All-append (IsLocal rt idx) rest (m ∷ []) ls (l, tt))
                (any_broadcast-append rest m b))
    ]
    | inr plain ↦
        flush_buffers_round rt fuel idx c _ m rest w
          (delivered_plain rt idx m c h.element l h.here _ plain)
        ∙ ih _ (
            HasBroadcast-pop (invoked l.entry_record idx h.element m c) _ rest
              (find-put_self idx _ c.chares) h.indexed (ap tail_of w) ls (ground arith))
  ]

  livelock_rounds :
      (children : List ℕ)
      → rt.locmgr.upstream idx ≡ ok children
      → (fuel : ℕ) (c : Collective P T) → HasBroadcast c
      → ((c' : Collective P T) → HasBroadcast c' → flush_buffers rt fuel idx c' ≡ out_of_fuel)
      → (ms : List (Message P)) → waiting idx c ≡ ms
      → All (IsLocal rt idx) ms
      → any_broadcast ms ≡ true
      → flush_buffers rt (suc fuel) idx c ≡ out_of_fuel
  livelock_rounds children u fuel c h ih [] w l p = cc
  livelock_rounds children u fuel c h ih (m ∷ rest) w l p =
      livelock_round children u fuel c h ih m rest w l.0 l.1 p

  -- Once a broadcast waits in the buffer of an element that is here, `flush_buffers` never ends:
  -- whatever the fuel, it runs out, if every message that waits can be handled by a method of the
  -- element and the locmgr knows the element's children.
  pub flush_buffers_livelock :
      (fuel : ℕ) (c : Collective P T) (children : List ℕ)
      → rt.locmgr.upstream idx ≡ ok children
      → HasBroadcast c
      → flush_buffers rt fuel idx c ≡ out_of_fuel
  unfolding flush_buffers
  flush_buffers_livelock zero c children u h = refl
  flush_buffers_livelock (suc fuel) c children u h =
      livelock_rounds children u fuel c h (λ c' h'. flush_buffers_livelock fuel c' children u h')
        (waiting idx c) refl h.local h.pending
