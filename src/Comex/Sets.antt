-- ===== src/Comex/Sets.antt =====
-- The value sets of archive/tests/comex/component.hh: what the searches find, and how many values a
-- list of sets holds.
use charm_experiments.Common.{
  set, some-injective, All, get_elem?, length, not, ℕ, zero, suc, ◌+◌, ◌<◌, ◌≡◌, refl, ap, subst,
  ◌⊎◌, inl, inr, Bool, true, false, Option, none, some, List, [], ◌∷◌, arith, if◌then◌else◌, nat_eq,
}
use charm_experiments.Comex.{
  is_some, or_zero, suc_of, erase_at, nulls, find_gap, find_ready, is_ready, slot, ValueSet,
}

-- the values in a set and in a list of sets
abbrev pub some_count : {V : Type 0} → Option V → ℕ
some_count none = 0
some_count (some v) = 1

abbrev pub count : {V : Type 0} → ValueSet V → ℕ
count [] = 0
count (v ∷ s) = some_count v + count s

abbrev pub held : {V : Type 0} → List (ValueSet V) → ℕ
held [] = 0
held (s ∷ ss) = count s + held ss

pub count-nulls : (V : Type 0) (n : ℕ) → count (nulls {V = V} n) ≡ 0
count-nulls V zero = refl
count-nulls V (suc n) = omega (arith, count-nulls V n)

pub length-nulls : (V : Type 0) (n : ℕ) → length (nulls {V = V} n) ≡ n
length-nulls V zero = refl
length-nulls V (suc n) = ap suc (length-nulls V n)

or_zero-some :
    (here : Bool) (o : Option ℕ) (i : ℕ)
    → or_zero here o ≡ some i
    → ((j : ℕ) × (o ≡ some j) × (suc j ≡ i)) ⊎ ((here ≡ true) × (0 ≡ i))
or_zero-some true none i e = inr (refl, some-injective e)
or_zero-some false none i e = cc
or_zero-some here (some j) i e = inl (j, refl, some-injective e)

ready-some :
    (here : Bool) (o : Option ℕ) (i : ℕ)
    → (if here then some 0 else suc_of o) ≡ some i
    → ((j : ℕ) × (o ≡ some j) × (suc j ≡ i)) ⊎ ((here ≡ true) × (0 ≡ i))
ready-some true o i e = inr (refl, some-injective e)
ready-some false none i e = cc
ready-some false (some j) i e = inl (j, refl, some-injective e)

not_some : {V : Type 0} (o : Option V) → not (is_some o) ≡ true → o ≡ none
not_some none e = refl
not_some (some v) e = cc

module _ {V : Type 0} where
  pub slot-nulls : (n i : ℕ) → slot i (nulls {V = V} n) ≡ none
  slot-nulls zero zero = refl
  slot-nulls zero (suc i) = refl
  slot-nulls (suc n) zero = refl
  slot-nulls (suc n) (suc i) = slot-nulls n i

  pub length-set : (s : ValueSet V) (i : ℕ) (v : Option V) → length (set s i v) ≡ length s
  length-set [] i v = refl
  length-set (x ∷ s) zero v = refl
  length-set (x ∷ s) (suc i) v = ap suc (length-set s i v)

  pub count-set :
      (s : ValueSet V) (i : ℕ) (v : V)
      → i < length s
      → slot i s ≡ none
      → count (set s i (some v)) ≡ count s + 1
  count-set [] i v lt e = elim lt [ ]
  count-set (none ∷ s) zero v lt e = omega arith
  count-set (some x ∷ s) zero v lt e = cc
  count-set (x ∷ s) (suc i) v lt e = omega (arith, count-set s i v (omega arith) e)

  pub count_ready : (s : ValueSet V) → is_ready s ≡ true → count s ≡ length s
  count_ready [] e = refl
  count_ready (none ∷ s) e = cc
  count_ready (some x ∷ s) e = omega (arith, count_ready s e)

  pub find_gap_lacks :
      (port : ℕ) (ss : List (ValueSet V)) (i : ℕ)
      → find_gap port ss ≡ some i
      → (s : ValueSet V) × (get_elem? ss i ≡ some s) × (slot port s ≡ none)
  unfolding find_gap
  find_gap_lacks port [] i e = cc
  find_gap_lacks port (s ∷ ss) i e =
      elim (or_zero-some (not (is_some (slot port s))) (find_gap port ss) i e) [
        | inl (j, found, at) ↦
            let (s', there, lacks) = find_gap_lacks port ss j found in
            (s', subst (λ n. get_elem? (s ∷ ss) n ≡ some s') at there, lacks)
        | inr (here, at) ↦
            (s, subst (λ n. get_elem? (s ∷ ss) n ≡ some s) at refl, not_some (slot port s) here)
      ]

  pub find_ready_ready :
      (ss : List (ValueSet V)) (i : ℕ)
      → find_ready ss ≡ some i
      → (s : ValueSet V) × (get_elem? ss i ≡ some s) × (is_ready s ≡ true)
  unfolding find_ready
  find_ready_ready [] i e = cc
  find_ready_ready (s ∷ ss) i e = elim (ready-some (is_ready s) (find_ready ss) i e) [
    | inl (j, found, at) ↦
        let (s', there, ready) = find_ready_ready ss j found in
        (s', subst (λ n. get_elem? (s ∷ ss) n ≡ some s') at there, ready)
    | inr (here, at) ↦ (s, subst (λ n. get_elem? (s ∷ ss) n ≡ some s) at refl, here)
  ]

  pub held-set :
      (ss : List (ValueSet V)) (i : ℕ) (s s' : ValueSet V)
      → get_elem? ss i ≡ some s
      → held (set ss i s') + count s ≡ held ss + count s'
  held-set [] i s s' e = cc
  held-set (x ∷ ss) zero s s' e = omega (arith, ap count (some-injective e))
  held-set (x ∷ ss) (suc i) s s' e = omega (arith, held-set ss i s s' e)

  pub held-erase_at :
      (ss : List (ValueSet V)) (i : ℕ) (s : ValueSet V)
      → get_elem? ss i ≡ some s
      → held (erase_at i ss) + count s ≡ held ss
  held-erase_at [] i s e = cc
  held-erase_at (x ∷ ss) zero s e = omega (arith, ap count (some-injective e))
  held-erase_at (x ∷ ss) (suc i) s e = omega (arith, held-erase_at ss i s e)

module _ {ℓ} {A : Type ℓ} where
  pub get_elem?-set :
      (xs : List A) (i : ℕ) (x y : A) → get_elem? xs i ≡ some x → get_elem? (set xs i y) i ≡ some y
  get_elem?-set [] i x y e = cc
  get_elem?-set (z ∷ xs) zero x y e = refl
  get_elem?-set (z ∷ xs) (suc i) x y e = get_elem?-set xs i x y e

  pub length-erase_at :
      (xs : List A) (i : ℕ) (x : A)
      → get_elem? xs i ≡ some x
      → length (erase_at i xs) + 1 ≡ length xs
  length-erase_at [] i x e = cc
  length-erase_at (z ∷ xs) zero x e = omega arith
  length-erase_at (z ∷ xs) (suc i) x e = omega (arith, length-erase_at xs i x e)

  pub All-set {κ} :
      (Q : A → Type κ) (xs : List A) (i : ℕ) (y : A) → All Q xs → Q y → All Q (set xs i y)
  All-set Q [] i y h q = h
  All-set Q (x ∷ xs) zero y h q = (q, h.1)
  All-set Q (x ∷ xs) (suc i) y h q = (h.0, All-set Q xs i y h.1 q)

  pub All-erase_at {κ} : (Q : A → Type κ) (xs : List A) (i : ℕ) → All Q xs → All Q (erase_at i xs)
  All-erase_at Q [] i h = h
  All-erase_at Q (x ∷ xs) zero h = h.1
  All-erase_at Q (x ∷ xs) (suc i) h = (h.0, All-erase_at Q xs i h.1)
