-- ===== src/Common/Maps.antt =====
-- `std::unordered_map` and `std::map` as association lists. A client knows a map by `find`.
use mathlib.Core.Logic.{◌≢◌, inl, inr}
use mathlib.Core.Path.{◌≡◌, refl, sym, subst, fun_ext}
use mathlib.Core.Option.{Option, none, some}
use mathlib.Core.List.{List, [], ◌∷◌}
use native.Mathlib.Omega.{arith}
use charm_experiments.Common.Tests.{if◌then◌else◌, Eq, Bool-cases}

abbrev pub Assoc : Type 0 → Type 0 → Type 0
Assoc K V = List (K × V)

module _ {K V : Type 0} ⦃e : Eq K⦄ where
  unfoldable pub find : K → Assoc K V → Option V
  find k [] = none
  find k ((j, v) ∷ m) = if e.beq k j then some v else find k m

  -- `m[k] = v`
  unfoldable pub put : K → V → Assoc K V → Assoc K V
  put k v [] = (k, v) ∷ []
  put k v ((j, w) ∷ m) = if e.beq k j then (k, v) ∷ m else (j, w) ∷ put k v m

  unfoldable pub erase : K → Assoc K V → Assoc K V
  erase k [] = []
  erase k ((j, w) ∷ m) = let rest = erase k m in if e.beq k j then rest else (j, w) ∷ rest

  pub find-put :
      (k j : K) (v : V) (m : Assoc K V)
      → find j (put k v m) ≡ (if e.beq j k then some v else find j m)
  unfolding find put
  find-put k j v [] = refl
  find-put k j v ((i, w) ∷ m) =
      ground (arith, e.beq_iff j k, e.beq_iff k i, e.beq_iff j i, find-put k j v m)

  pub find-put_self : (k : K) (v : V) (m : Assoc K V) → find k (put k v m) ≡ some v
  find-put_self k v m = ground (arith, find-put k k v m, e.beq_iff k k)

  pub find-erase :
      (k j : K) (m : Assoc K V) → find j (erase k m) ≡ (if e.beq j k then none else find j m)
  unfolding find erase
  find-erase k j [] = ground arith
  find-erase k j ((i, w) ∷ m) =
      ground (arith, e.beq_iff j k, e.beq_iff k i, e.beq_iff j i, find-erase k j m)

-- A map as a function, where a client may read any key: `m[k] = v`.
unfoldable pub update {ℓ} : {K : Type 0} ⦃e : Eq K⦄ {V : Type ℓ} → K → V → (K → V) → K → V
update ⦃e⦄ k v m j = if e.beq j k then v else m j

module _ {ℓ} {K : Type 0} ⦃e : Eq K⦄ {V : Type ℓ} where
  pub update_self : (k : K) (v : V) (m : K → V) → update k v m k ≡ v
  unfolding update
  update_self k v m = ground (arith, e.beq_iff k k)

  pub update_ne : (k j : K) (v : V) (m : K → V) → j ≢ k → update k v m j ≡ m j
  unfolding update
  update_ne k j v m h = ground (arith, e.beq_iff j k)

  pub update_comm :
      (k j : K) (v w : V) (m : K → V)
      → k ≢ j
      → update k v (update j w m) ≡ update j w (update k v m)
  unfolding update
  update_comm k j v w m h = fun_ext (λ i. ground (arith, e.beq_iff i j, e.beq_iff i k))

  pub update_twice : (k : K) (v w : V) (m : K → V) → update k v (update k w m) ≡ update k v m
  unfolding update
  update_twice k v w m = fun_ext (λ i. ground (arith, e.beq_iff i k))

  pub update_id : (k : K) (m : K → V) → update k (m k) m ≡ m
  unfolding update
  update_id k m = fun_ext (λ i. ground (arith, e.beq_iff i k))

  -- What holds of the new value and of all the old ones holds at every key.
  pub update_pointwise {κ} :
      (Q : K → V → Type κ) (k : K) (v : V) (m : K → V)
      → Q k v
      → ((j : K) → Q j (m j))
      → (j : K) → Q j (update k v m j)
  unfolding update
  update_pointwise Q k v m new old j = elim (Bool-cases (e.beq j k)) [
    | inl h ↦
        subst (λ b. Q j (if b then v else m j)) (sym h)
          (subst (λ i. Q i v) (sym ((e.beq_iff j k).0 h)) new)
    | inr h ↦ subst (λ b. Q j (if b then v else m j)) (sym h) (old j)
  ]
