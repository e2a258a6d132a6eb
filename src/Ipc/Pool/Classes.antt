-- ===== src/Ipc/Pool/Classes.antt =====
-- `which_pow2` of archive/include/pool.hh: the size class of a request.
use charm_experiments.Common.{
  All-get_elem?, leb, Bool-cases, length, some-injective, All, fault, get_elem?, ℕ, zero, suc, ◌+◌,
  ◌≤◌, ◌<◌, ◌≡◌, refl, ap, subst, ◌∙◌, ◌⊎◌, inl, inr, Bool, true, ◌&&◌, some, List, [], ◌∷◌, arith,
  if◌then◌else◌, ok, nat_eq,
}
use charm_experiments.Ipc.Pool.{cut_off_points, num_cut_off_points, which_pow2, which_from}

-- Class `k` of the points is the least one that holds `sz`.
pub record IsLeast (ps : List ℕ) (sz k : ℕ) : Type 0 where
  pub point : ℕ
  pub there : get_elem? ps k ≡ some point
  pub holds : sz ≤ point
  pub least : (j : ℕ) (p : ℕ) → j < k → get_elem? ps j ≡ some p → p < sz

below :
    (p : ℕ) (ps : List ℕ) (sz k : ℕ)
    → p < sz
    → ((j : ℕ) (q : ℕ) → j < k → get_elem? ps j ≡ some q → q < sz)
    → (j : ℕ) (q : ℕ) → j < suc k
    → get_elem? (p ∷ ps) j ≡ some q
    → q < sz
below p ps sz k h least zero q lt e = subst (λ n. n < sz) (some-injective e) h
below p ps sz k h least (suc j) q lt e = least j q (omega arith) e

in_range : (ps : List ℕ) (k p : ℕ) → get_elem? ps k ≡ some p → k < length ps
in_range [] k p e = cc
in_range (x ∷ ps) zero p e = omega arith
in_range (x ∷ ps) (suc k) p e = omega (arith, in_range ps k p e)

all_leb : List ℕ → ℕ → Bool
all_leb [] m = true
all_leb (p ∷ ps) m = leb p m && all_leb ps m

all_leb-All : (ps : List ℕ) (m : ℕ) → all_leb ps m ≡ true → All (λ p. p ≤ m) ps
unfolding all_leb
all_leb-All [] m e = tt
all_leb-All (p ∷ ps) m e = (ground (arith, e), all_leb-All ps m (ground (arith, e)))

points_bounded : All (λ p. p ≤ 1073741824) cut_off_points
unfolding all_leb
points_bounded = all_leb-All cut_off_points 1073741824 refl

which_from-IsLeast :
    (ps : List ℕ) (i sz : ℕ)
    → ((k : ℕ) × (which_from ps i sz ≡ ok (i + k)) × IsLeast ps sz k)
      ⊎ ((which_from ps i sz ≡ fault) × All (λ p. p < sz) ps)
unfolding which_from
which_from-IsLeast [] i sz = inr (refl, tt)
which_from-IsLeast (p ∷ ps) i sz = elim (Bool-cases (leb sz p)) [
  | inl fits ↦ inl (
    0,
    ap (λ b. if b then ok i else which_from ps (i + 1) sz) fits ∙ ap ok (omega arith),
    record {
      point = p;
      there = refl;
      holds = ground (arith, fits);
      least = λ j q lt e. elim lt [ ];
    },
  )
  | inr small ↦ elim (which_from-IsLeast ps (i + 1) sz) [
    | inl (k, found, l) ↦ inl (
      suc k,
      ap (λ b. if b then ok i else which_from ps (i + 1) sz) small ∙ found ∙ ap ok (omega arith),
      record {
        point = l.point;
        there = l.there;
        holds = l.holds;
        least = below p ps sz k (ground (arith, small)) l.least;
      },
    )
    | inr (missing, all) ↦ inr (
      ap (λ b. if b then ok i else which_from ps (i + 1) sz) small ∙ missing,
      (ground (arith, small), all),
    )
  ]
]

too_large : {A : Type 0} (sz p : ℕ) → 1073741824 < sz → sz ≤ p → p ≤ 1073741824 → A
too_large sz p lt le le' = ground arith

too_small : {A : Type 0} (sz : ℕ) → sz ≤ 1073741824 → 1073741824 < sz → A
too_small sz le lt = ground arith

-- `which_pow2` finds the least cut-off point that is not below a size of at most 1 GiB; above that
-- it reads the array of cut-off points past its end.
pub which_pow2-IsLeast :
    (sz : ℕ)
    → (sz ≤ 1073741824
        → (k : ℕ) × (which_pow2 sz ≡ ok k) × (k < num_cut_off_points) × IsLeast cut_off_points sz k)
      × (1073741824 < sz → which_pow2 sz ≡ fault)
unfolding which_pow2
which_pow2-IsLeast sz = elim (which_from-IsLeast cut_off_points 0 sz) [
  | inl (k, found, l) ↦ (
    λ le. (k, found ∙ ap ok (omega arith), in_range cut_off_points k l.point l.there, l),
    λ lt.
        too_large sz l.point lt l.holds
          (All-get_elem? (λ p. p ≤ 1073741824) cut_off_points k l.point points_bounded l.there),
  )
  | inr (missing, all) ↦ (
    λ le. too_small sz le (All-get_elem? (λ p. p < sz) cut_off_points 24 1073741824 all refl),
    λ lt. missing,
  )
]
