-- ===== src/Relaxation/Ghosts.antt =====
-- The ghosts of archive/path2.0/examples/relaxation/pgm.cpp: who sends to whom.
use charm_experiments.Workgroup.{to_element}
use charm_experiments.Common.{
  pos, eq_ℤ, ℕ, zero, suc, ◌+◌, ◌<◌, ◌≡◌, refl, ap₂, ◌∙◌, Bool, false, ◌&&◌, List, [], ◌∷◌, ◌++◌,
  arith, ◌==◌, if◌then◌else◌, nat_eq, leb, ltb,
}
use charm_experiments.Relaxation.{neighbors_of, send_ghosts, TaskId, Double, Sent, Relaxer}

-- what is addressed to element `j`
abbrev pub is_to : {P : Type 0} → ℕ → Sent P → Bool
is_to j (to_element k tid p) = eq_ℤ k (pos j)
is_to j _ = false

abbrev pub count_to : {P : Type 0} → ℕ → List (Sent P) → ℕ
count_to j [] = 0
count_to j (s ∷ ss) = (if is_to j s then 1 else 0) + count_to j ss

count_to-append :
    {P : Type 0} (j : ℕ) (xs ys : List (Sent P))
    → count_to j (xs ++ ys) ≡ count_to j xs + count_to j ys
count_to-append j [] ys = omega arith
count_to-append j (x ∷ xs) ys = omega (arith, count_to-append j xs ys)

abbrev pub sum_below : (ℕ → ℕ) → ℕ → ℕ
sum_below f zero = 0
sum_below f (suc n) = sum_below f n + f n

-- The task of element `i`, as its constructor leaves `has_left` and `has_right`.
abbrev pub HasNeighbors : {W : Type 0} → ℕ → ℕ → Relaxer W → Type 0
HasNeighbors n i r = (r.has_left ≡ ltb 0 i) × (r.has_right ≡ ltb (i + 1) n)

sum_add : (f g : ℕ → ℕ) (m : ℕ) → sum_below (λ i. f i + g i) m ≡ sum_below f m + sum_below g m
sum_add f g zero = refl
sum_add f g (suc m) = omega (arith, sum_add f g m)

sum_at : (k m : ℕ) → sum_below (λ i. if i == k then 1 else 0) m ≡ (if ltb k m then 1 else 0)
sum_at k zero = ground arith
sum_at k (suc m) = ground (arith, sum_at k m)

sum_before :
    (j m : ℕ)
    → sum_below (λ i. if i + 1 == j then 1 else 0) m ≡ (if ltb 0 j && leb j m then 1 else 0)
sum_before j zero = ground arith
sum_before j (suc m) = ground (arith, sum_before j m)

module _ {W : Type 0} (d : Double W) (tid : TaskId) where
  abbrev to_each : ℕ → ℕ → ℕ
  to_each j i = (if i == j + 1 then 1 else 0) + (if i + 1 == j then 1 else 0)

  sent_to :
      (n i j : ℕ) (r : Relaxer W)
      → j < n
      → i < n
      → HasNeighbors n i r
      → count_to j (send_ghosts d i tid r) ≡ to_each j i
  unfolding send_ghosts
  sent_to n i j r lt lt_i h = ground (arith, h.0, h.1)

  sum_ext : (f g : ℕ → ℕ) (n : ℕ) → ((i : ℕ) → i < n → f i ≡ g i) → sum_below f n ≡ sum_below g n
  sum_ext f g zero h = refl
  sum_ext f g (suc n) h =
      ap₂ (λ a b. a + b) (sum_ext f g n (λ i lt. h i (omega arith))) (h n (omega arith))

  -- In one round of all the `n` tasks, element `j` is sent as many ghosts as it waits for: one from
  -- each neighbour it has, where every task has `has_left` and `has_right` as its constructor set them.
  pub send_ghosts_lem :
      (n j : ℕ) (r : ℕ → Relaxer W)
      → j < n
      → ((i : ℕ) → i < n → HasNeighbors n i (r i))
      → sum_below (λ i. count_to j (send_ghosts d i tid (r i))) n
        ≡ neighbors_of (ltb 0 j) (ltb (j + 1) n)
  send_ghosts_lem n j r lt h =
      sum_ext (λ i. count_to j (send_ghosts d i tid (r i))) (to_each j) n
        (λ i lt_i. sent_to n i j (r i) lt lt_i (h i lt_i))
      ∙ sum_add (λ i. if i == j + 1 then 1 else 0) (λ i. if i + 1 == j then 1 else 0) n
      ∙ ap₂ (λ a b. a + b) (sum_at (j + 1) n) (sum_before j n)
      ∙ ground arith
