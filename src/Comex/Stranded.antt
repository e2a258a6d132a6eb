-- ===== src/Comex/Stranded.antt =====
-- Values in the outbox of archive/tests/comex/outbox.hh for an output that is connected.
use charm_experiments.Common.{
  eq_or_ne, List-cases, Returns-use, Returns->>=, ltb, Returns-abort, Returns-out_of_fuel, update,
  ◌>>◌, not, Returns-if, set, ensure, Returns-ok, get_elem?, Returns-after, update_ne, Returns,
  Outcome, deref, ℕ, zero, suc, ◌+◌, ◌<◌, ◌≡◌, refl, sym, ap, ◌∙◌, ◌≢◌, inl, inr, Bool, true, false,
  ◌&&◌, Option, none, some, List, [], ◌∷◌, ◌++◌, arith, ◌==◌, if◌then◌else◌, ok, nat_eq,
}
use charm_experiments.Comex.{
  outbox_empty, find_gap, find_ready, try_flush, activate_round, all_empty, collectible, is_ready,
  accept_in, activate_loop, buffer_ready_set, output_to, activate, slot, accept, deliver_to,
  erase_at, is_some, Component, act, stage_at, unspool, ValueSet,
}

module _ {V S : Type 0} (action : S → ValueSet V → S × ValueSet V) where
  -- one call of a component that returns
  pub data Step : Component V S → Component V S → Type 0 where
    accepts :
        {c c' : Component V S} (port : ℕ) (v : Option V)
        → accept action port v c ≡ ok c'
        → Step c c'
    activates : {c c' : Component V S} (fuel : ℕ) → activate action fuel c ≡ ok c' → Step c c'
    connects :
        {c c' : Component V S} (o target port : ℕ) → output_to o target port c ≡ ok c' → Step c c'

  pub data Steps : Component V S → Component V S → Type 0 where
    done : {c : Component V S} → Steps c c
    then_step : {c d e : Component V S} → Step c d → Steps d e → Steps c e

module _ {V : Type 0} (o : ℕ) (v : Option V) (vs : List (Option V)) where
  all_empty-waiting :
      (n : ℕ) (f : ℕ → List (Option V)) → o < n → f o ≡ v ∷ vs → all_empty n f ≡ false
  unfolding all_empty
  all_empty-waiting zero f lt e = elim lt [ ]
  all_empty-waiting (suc n) f lt e = elim (List-cases (f n)) [
    | inl empty ↦ elim (eq_or_ne o n) [
      | inl same ↦ let bad = sym e ∙ ap f same ∙ empty in cc
      | inr other ↦ simp empty (all_empty-waiting n f (ground arith) e)
    ]
    | inr (x, rest, full) ↦ simp full
  ]

  outbox_empty-waiting :
      (n : ℕ) (f : ℕ → List (Option V)) → o < n → f o ≡ v ∷ vs → outbox_empty n f ≡ false
  outbox_empty-waiting zero f lt e = refl
  outbox_empty-waiting (suc n) f lt e = all_empty-waiting (suc n) f lt e

and_false : (a b x : Bool) → x ≡ false → (a && b && x) ≡ false
and_false a b x e = ground (arith, e)

no_wire : true ≢ false
no_wire e = cc

module _ {V S : Type 0} (o : ℕ) (v : Option V) (vs : List (Option V)) where
  -- Output `o` is connected and has values in its buffer.
  pub record IsStranded (c : Component V S) : Type 0 where
    pub low : o < c.n_outputs
    pub connected : is_some (c.connectors o) ≡ true
    pub waiting : c.buffer o ≡ v ∷ vs

  deliver_to-IsStranded :
      (n : ℕ) (x : Option V) (wire : Option (ℕ × ℕ)) (c : Component V S)
      → c.connectors n ≡ wire
      → IsStranded c
      → IsStranded (deliver_to n x wire c)
  deliver_to-IsStranded n x none c e h = record {
    low = h.low;
    connected = h.connected;
    waiting =
        update_ne n o (c.buffer n ++ (x ∷ [])) c.buffer (λ same.
          no_wire (sym h.connected ∙ ap (λ i. is_some (c.connectors i)) same ∙ ap is_some e))
        ∙ h.waiting;
  }
  deliver_to-IsStranded n x (some wire) c e h = record {
    low = h.low;
    connected = h.connected;
    waiting = h.waiting;
  }

  unspool-IsStranded :
      (n : ℕ) (out : ValueSet V) (c : Component V S) → IsStranded c → IsStranded (unspool n out c)
  unfolding unspool
  unspool-IsStranded zero out c h = h
  unspool-IsStranded (suc n) out c h =
      unspool-IsStranded n out (deliver_to n (slot n out) (c.connectors n) c)
        (deliver_to-IsStranded n (slot n out) (c.connectors n) c refl h)

  module _ (action : S → ValueSet V → S × ValueSet V) where
    act-IsStranded :
        (s : ValueSet V) (c : Component V S) → IsStranded c → IsStranded (act action s c)
    unfolding act
    act-IsStranded s c h =
        let h' =
          unspool-IsStranded c.n_outputs (action c.state s).1
            (record c { state = (action c.state s).0 })
            (record { low = h.low; connected = h.connected; waiting = h.waiting }) in
        record { low = h'.low; connected = h'.connected; waiting = h'.waiting }

    staged_part :
        (b : Bool) (i : ℕ) (s : ValueSet V) (c : Component V S)
        → IsStranded c
        → let r : Bool × Component V S = if b then (true, act action s c) else (false, c) in
          IsStranded (
            if r.0
            then record r.1 {
              incoming = erase_at i r.1.incoming;
              processed = r.1.processed + r.1.n_inputs;
            }
            else r.1)
    staged_part true i s c h =
        let h' = act-IsStranded s c h in
        record { low = h'.low; connected = h'.connected; waiting = h'.waiting }
    staged_part false i s c h = h

    stage_at-IsStranded :
        (i : ℕ) (c : Component V S) → IsStranded c → Returns IsStranded (stage_at action i c)
    unfolding stage_at
    stage_at-IsStranded i c h =
        Returns-after IsStranded (deref (get_elem? c.incoming i)) _
          (λ s. Returns-ok IsStranded _ (staged_part c.active i s c h))

    accept_in-IsStranded :
        (found : Option ℕ) (port : ℕ) (x : V) (c : Component V S)
        → IsStranded c
        → Returns IsStranded (accept_in action found port x c)
    unfolding accept_in
    accept_in-IsStranded none port x c h =
        Returns-ok IsStranded _
          (record { low = h.low; connected = h.connected; waiting = h.waiting })
    accept_in-IsStranded (some i) port x c h =
        Returns-after IsStranded (deref (get_elem? c.incoming i)) _ (λ s.
          let c' = record c {
            incoming = set c.incoming i (set s port (some x));
            created = c.created + 1;
          } in
          let h' : IsStranded c' = record {
            low = h.low;
            connected = h.connected;
            waiting = h.waiting;
          } in
          Returns-if IsStranded (is_ready (set s port (some x))) _ _ (stage_at-IsStranded i c' h')
            (Returns-ok IsStranded c' h'))

    direct_part :
        (b : Bool) (s : ValueSet V) (c : Component V S)
        → IsStranded c
        → let r : Bool × Component V S = if b then (true, act action s c) else (false, c) in
          IsStranded (if r.0 then r.1 else buffer_ready_set s r.1)
    direct_part true s c h = act-IsStranded s c h
    direct_part false s c h = record { low = h.low; connected = h.connected; waiting = h.waiting }

    accept-IsStranded :
        (port : ℕ) (x : Option V) (c : Component V S)
        → IsStranded c
        → Returns IsStranded (accept action port x c)
    unfolding accept
    accept-IsStranded port none c h = Returns-abort IsStranded
    accept-IsStranded port (some x) c h =
        Returns-after IsStranded (ensure (ltb port c.n_inputs)) _ (λ u.
          Returns-if IsStranded (c.n_inputs == 1) _ _
            (Returns-ok IsStranded _ (direct_part c.active (some x ∷ []) c h))
            (accept_in-IsStranded (find_gap port c.incoming) port x c h))

    activate_round-IsStranded :
        (next : Component V S → Outcome (Component V S))
        → ((c : Component V S) → IsStranded c → Returns IsStranded (next c))
        → (found : Option ℕ) (c : Component V S) → IsStranded c
        → Returns IsStranded (activate_round action next found c)
    unfolding activate_round
    activate_round-IsStranded next f none c h = Returns-ok IsStranded c h
    activate_round-IsStranded next f (some i) c h =
        Returns->>= IsStranded IsStranded (stage_at action i c) next (stage_at-IsStranded i c h) f

    activate_loop-IsStranded :
        (fuel : ℕ) (c : Component V S)
        → IsStranded c
        → Returns IsStranded (activate_loop action fuel c)
    unfolding activate_loop
    activate_loop-IsStranded zero c h = Returns-out_of_fuel IsStranded
    activate_loop-IsStranded (suc fuel) c h =
        Returns-if IsStranded c.active _ _
          (activate_round-IsStranded (activate_loop action fuel) (activate_loop-IsStranded fuel)
            (find_ready c.incoming) c h)
          (Returns-ok IsStranded c h)

    activate-IsStranded :
        (fuel : ℕ) (c : Component V S) → IsStranded c → Returns IsStranded (activate action fuel c)
    unfolding activate
    activate-IsStranded fuel c h = Returns-after IsStranded (ensure (not c.active)) _ (λ u.
        activate_loop-IsStranded fuel (record c { active = true; activated = true })
          (record { low = h.low; connected = h.connected; waiting = h.waiting }))

  module _ (n target port : ℕ) (c : Component V S) (h : IsStranded c) where
    still_connected : is_some (update n (some (target, port)) c.connectors o) ≡ true
    unfolding update
    still_connected = ground (arith, h.connected)

    connected_part :
        (b : Bool) (w : Option (ℕ × ℕ))
        → c.connectors n ≡ w
        → let connected = record c { connectors = update n (some (target, port)) c.connectors } in
          Returns IsStranded (
            ensure (not (b && is_some w))
            >> ok (if b then try_flush n (target, port) connected else connected))
    connected_part true none e = Returns-ok IsStranded _ (record {
      low = h.low;
      connected = still_connected;
      waiting =
          update_ne n o [] c.buffer (λ same.
            no_wire (sym h.connected ∙ ap (λ i. is_some (c.connectors i)) same ∙ ap is_some e))
          ∙ h.waiting;
    })
    connected_part true (some w) e = Returns-abort IsStranded
    connected_part false w e =
        Returns-ok IsStranded _
          (record { low = h.low; connected = still_connected; waiting = h.waiting })

    output_to-IsStranded : Returns IsStranded (output_to n target port c)
    unfolding output_to
    output_to-IsStranded = connected_part c.active (c.connectors n) refl

  IsStranded-not_collectible : (c : Component V S) → IsStranded c → collectible c ≡ false
  IsStranded-not_collectible c h =
      and_false c.activated (not c.active) _
        (outbox_empty-waiting o v vs c.n_outputs c.buffer h.low h.waiting)

  Step-IsStranded :
      (action : S → ValueSet V → S × ValueSet V) (c d : Component V S)
      → IsStranded c
      → Step action c d
      → IsStranded d
  Step-IsStranded action c d h (accepts port x e) =
      Returns-use IsStranded (accept action port x c) (accept-IsStranded action port x c h) d e
  Step-IsStranded action c d h (activates fuel e) =
      Returns-use IsStranded (activate action fuel c) (activate-IsStranded action fuel c h) d e
  Step-IsStranded action c d h (connects n target port e) =
      Returns-use IsStranded (output_to n target port c) (output_to-IsStranded n target port c h) d
        e

  -- A value in the buffer of an output that is connected is never relayed: no sequence of calls
  -- that return changes the buffer, and the component is never collectible.
  pub stranded_stays :
      (action : S → ValueSet V → S × ValueSet V) (c c' : Component V S)
      → IsStranded c
      → Steps action c c'
      → (c'.buffer o ≡ v ∷ vs) × (collectible c' ≡ false)
  stranded_stays action c c' h done = (h.waiting, IsStranded-not_collectible c h)
  stranded_stays action c e h (then_step {d = d} s r) =
      stranded_stays action d e (Step-IsStranded action c d h s) r
