-- ===== src/Comex/Counter.antt =====
-- The quiescence counter of archive/tests/comex/component.hh, and the values that a component
-- holds.
use charm_experiments.Common.{
  All-get_elem?, ==_ne, ==_iff, ltb, eq_or_ne, Bool-cases, set, length, All, get_elem?, ℕ, zero,
  suc, ◌+◌, ◌<◌, ◌≡◌, refl, sym, ap, subst, ◌∙◌, inl, inr, true, false, Option, none, some, [], ◌∷◌,
  arith, ok, nat_eq,
}
use charm_experiments.Comex.{
  buffer_ready_set, nulls, find_gap, accept, accept_in, is_ready, slot, deliver_to, erase_at,
  Component, act, stage_at, unspool, ValueSet,
}
use charm_experiments.Comex.Sets.{
  get_elem?-set, find_gap_lacks, slot-nulls, count-nulls, count-set, length-nulls, held-set,
  length-set, All-set, count_ready, held-erase_at, All-erase_at, held,
}

module _ {V S : Type 0} where
  -- Every set has a slot for each input, and the counter is the number of values held.
  pub record IsCounted (c : Component V S) : Type 0 where
    pub shaped : All (λ s. length s ≡ c.n_inputs) c.incoming
    pub counted : c.created ≡ c.processed + held c.incoming

  -- What a call of the action leaves as it was.
  pub record SameSets (c c' : Component V S) : Type 0 where
    pub inputs : c'.n_inputs ≡ c.n_inputs
    pub sets : c'.incoming ≡ c.incoming
    pub made : c'.created ≡ c.created
    pub done : c'.processed ≡ c.processed

  SameSets-trans : (c d e : Component V S) → SameSets c d → SameSets d e → SameSets c e
  SameSets-trans c d e p q = record {
    inputs = q.inputs ∙ p.inputs;
    sets = q.sets ∙ p.sets;
    made = q.made ∙ p.made;
    done = q.done ∙ p.done;
  }

  deliver_sets :
      (n : ℕ) (v : Option V) (o : Option (ℕ × ℕ)) (c : Component V S)
      → SameSets c (deliver_to n v o c)
  deliver_sets n v none c = record { inputs = refl; sets = refl; made = refl; done = refl }
  deliver_sets n v (some wire) c = record { inputs = refl; sets = refl; made = refl; done = refl }

  unspool_sets : (n : ℕ) (out : ValueSet V) (c : Component V S) → SameSets c (unspool n out c)
  unfolding unspool
  unspool_sets zero out c = record { inputs = refl; sets = refl; made = refl; done = refl }
  unspool_sets (suc n) out c =
      SameSets-trans c (deliver_to n (slot n out) (c.connectors n) c) _
        (deliver_sets n (slot n out) (c.connectors n) c)
        (unspool_sets n out (deliver_to n (slot n out) (c.connectors n) c))

module _ {V S : Type 0} (action : S → ValueSet V → S × ValueSet V) where
  pub act_sets : (s : ValueSet V) (c : Component V S) → SameSets c (act action s c)
  unfolding act
  act_sets s c =
      let r =
        unspool_sets c.n_outputs (action c.state s).1 (record c { state = (action c.state s).0 }) in
      record { inputs = r.inputs; sets = r.sets; made = r.made; done = r.done }

  -- a set is taken out
  abbrev pub taken : ℕ → ValueSet V → Component V S → Component V S
  taken i s c =
      let c' = act action s c in
      record c' { incoming = erase_at i c'.incoming; processed = c'.processed + c'.n_inputs }

  pub stage_at_active :
      (i : ℕ) (s : ValueSet V) (c : Component V S)
      → get_elem? c.incoming i ≡ some s
      → c.active ≡ true
      → stage_at action i c ≡ ok (taken i s c)
  unfolding stage_at
  stage_at_active i s c e a = simp (e, a)

  pub stage_at_idle :
      (i : ℕ) (s : ValueSet V) (c : Component V S)
      → get_elem? c.incoming i ≡ some s
      → c.active ≡ false
      → stage_at action i c ≡ ok c
  unfolding stage_at
  stage_at_idle i s c e a = simp (e, a)

  pub taken-IsCounted :
      (i : ℕ) (s : ValueSet V) (c : Component V S)
      → get_elem? c.incoming i ≡ some s
      → is_ready s ≡ true
      → IsCounted c
      → IsCounted (taken i s c)
  taken-IsCounted i s c e ready h =
      let r = act_sets s c in
      let width = All-get_elem? (λ s. length s ≡ c.n_inputs) c.incoming i s h.shaped e in
      record {
        shaped =
            subst (λ n. All (λ s. length s ≡ n) (erase_at i (act action s c).incoming))
              (sym r.inputs)
              (subst (λ ss. All (λ s. length s ≡ c.n_inputs) (erase_at i ss)) (sym r.sets)
                (All-erase_at _ c.incoming i h.shaped));
        counted = omega (
          arith,
          r.inputs,
          r.made,
          r.done,
          h.counted,
          ap (λ ss. held (erase_at i ss)) r.sets,
          held-erase_at c.incoming i s e,
          count_ready s ready,
          width,
        );
      }

  -- `stage_at` on a complete set
  pub stage_at-IsCounted :
      (i : ℕ) (s : ValueSet V) (c : Component V S)
      → get_elem? c.incoming i ≡ some s
      → is_ready s ≡ true
      → IsCounted c
      → (c' : Component V S) × (stage_at action i c ≡ ok c') × IsCounted c'
  stage_at-IsCounted i s c e ready h = elim (Bool-cases c.active) [
    | inl a ↦ (taken i s c, stage_at_active i s c e a, taken-IsCounted i s c e ready h)
    | inr a ↦ (c, stage_at_idle i s c e a, h)
  ]

  filled : ℕ → ℕ → V → ValueSet V → Component V S → Component V S
  filled i port v s c = record c {
    incoming = set c.incoming i (set s port (some v));
    created = c.created + 1;
  }

  filled-IsCounted :
      (i port : ℕ) (v : V) (s : ValueSet V) (c : Component V S)
      → get_elem? c.incoming i ≡ some s
      → slot port s ≡ none
      → port < c.n_inputs
      → IsCounted c
      → IsCounted (filled i port v s c)
  unfolding filled
  filled-IsCounted i port v s c e lacks lt h =
      let width = All-get_elem? (λ s. length s ≡ c.n_inputs) c.incoming i s h.shaped e in
      record {
        shaped =
            All-set (λ s. length s ≡ c.n_inputs) c.incoming i (set s port (some v)) h.shaped
              (length-set s port (some v) ∙ width);
        counted = omega (
          arith,
          h.counted,
          held-set c.incoming i s (set s port (some v)) e,
          count-set s port v (omega (arith, width)) lacks,
        );
      }

  accept_in-IsCounted :
      (o : Option ℕ) (port : ℕ) (v : V) (c : Component V S)
      → find_gap port c.incoming ≡ o
      → port < c.n_inputs
      → IsCounted c
      → (c' : Component V S) × (accept_in action o port v c ≡ ok c') × IsCounted c'
  unfolding accept_in filled
  accept_in-IsCounted none port v c e lt h = (
    _,
    refl,
    record {
      shaped = (length-set (nulls c.n_inputs) port (some v) ∙ length-nulls V c.n_inputs, h.shaped);
      counted = omega (
        arith,
        h.counted,
        count-nulls V c.n_inputs,
        count-set (nulls c.n_inputs) port v (omega (arith, length-nulls V c.n_inputs))
            (slot-nulls c.n_inputs port),
      );
    },
  )
  accept_in-IsCounted (some i) port v c e lt h =
      let (s, there, lacks) = find_gap_lacks port c.incoming i e in
      let full = filled-IsCounted i port v s c there lacks lt h in
      let s' = set s port (some v) in
      elim (Bool-cases (is_ready s')) [
        | inl ready ↦
            let (c', run, h') =
              stage_at-IsCounted i s' (filled i port v s c) (get_elem?-set c.incoming i s s' there)
                ready full in
            (c', simp (there, ready) run, h')
        | inr lacking ↦ (filled i port v s c, simp (there, lacking), full)
      ]

  act-IsCounted : (s : ValueSet V) (c : Component V S) → IsCounted c → IsCounted (act action s c)
  act-IsCounted s c h =
      let r = act_sets s c in
      record {
        shaped =
            subst (λ n. All (λ s. length s ≡ n) (act action s c).incoming) (sym r.inputs)
              (subst (All (λ s. length s ≡ c.n_inputs)) (sym r.sets) h.shaped);
        counted = omega (arith, r.made, r.done, h.counted, ap held r.sets);
      }

  buffer_ready_set-IsCounted :
      (v : V) (c : Component V S)
      → c.n_inputs ≡ 1
      → IsCounted c
      → IsCounted (buffer_ready_set (some v ∷ []) c)
  buffer_ready_set-IsCounted v c one h = record {
    shaped = (sym one, h.shaped);
    counted = omega (arith, one, h.counted);
  }

  -- `accept` of a value at one of the ports returns, and keeps the difference of what was passed to
  -- `QdCreate` and to `QdProcess` equal to the number of values that the component holds.
  pub accept-IsCounted :
      (port : ℕ) (v : V) (c : Component V S)
      → port < c.n_inputs
      → IsCounted c
      → (c' : Component V S) × (accept action port (some v) c ≡ ok c') × IsCounted c'
  unfolding accept
  accept-IsCounted port v c lt h =
      let in_range : ltb port c.n_inputs ≡ true = ground arith in
      elim (eq_or_ne c.n_inputs 1) [
        | inl one ↦ elim (Bool-cases c.active) [
          | inl a ↦ (
            act action (some v ∷ []) c,
            simp (in_range, (==_iff c.n_inputs 1).1 one, a),
            act-IsCounted (some v ∷ []) c h,
          )
          | inr a ↦ (
            buffer_ready_set (some v ∷ []) c,
            simp (in_range, (==_iff c.n_inputs 1).1 one, a),
            buffer_ready_set-IsCounted v c one h,
          )
        ]
        | inr more ↦
            let (c', run, h') = accept_in-IsCounted (find_gap port c.incoming) port v c refl lt h in
            (c', simp (in_range, ==_ne c.n_inputs 1 more) run, h')
      ]
