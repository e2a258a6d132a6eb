-- ===== src/Ipc/Pool/Tests.antt =====
-- Runs of the model of archive/include/pool.hh, and instances of its theorems.
use charm_experiments.Ipc.Pool.Classes.{which_pow2-IsLeast, IsLeast}
use charm_experiments.Ipc.Pool.Blocks.{ralloc_fits, ralloc-lput, without}
use charm_experiments.Common.{
  ==_ne, get_elem?, All, eq_or_ne, update, fault, ℕ, ◌≤◌, ◌<◌, ◌≡◌, refl, sym, subst, inl, inr,
  true, false, none, some, List, [], ◌∷◌, arith, ◌==◌, if◌then◌else◌, ok, nat_eq,
}
use charm_experiments.Ipc.Queue.{null, tail, at}
use charm_experiments.Ipc.Queue.Stack.{Chain}
use charm_experiments.Ipc.Pool.{
  cut_off_points, num_cut_off_points, ralloc, which_from, lput, which_pow2, Mempool,
}

abbrev empty_pool : Mempool
empty_pool = record { cells = λ k. tail; next = λ b. null; size = λ b. 256; used = λ b. false }

-- Block 3 has 256 bytes and is in the list of its class.
abbrev one_block : Mempool
one_block = record empty_pool { cells = update 2 (at 3) empty_pool.cells; next = λ b. tail }

abbrev contents : ℕ → List ℕ
contents k = if k == 2 then 3 ∷ [] else []

class_of_200 : which_pow2 200 ≡ ok 2
unfolding which_pow2 which_from
class_of_200 = refl

one_block-chains : (k : ℕ) → Chain one_block.next (one_block.cells k) (contents k)
unfolding Chain update
one_block-chains k = elim (eq_or_ne k 2) [
  | inl same ↦
      subst (λ i. Chain one_block.next (one_block.cells i) (contents i)) (sym same) (refl, refl)
  | inr other ↦
      subst (λ b. Chain one_block.next (if b then at 3 else tail) (if b then 3 ∷ [] else []))
        (sym (==_ne k 2 other)) refl
]

one_block-sized :
    (k : ℕ) → All (λ b. (get_elem? cut_off_points k ≡ some 256) × (false ≡ false)) (contents k)
one_block-sized k = elim (eq_or_ne k 2) [
  | inl same ↦
      subst (λ i. All (λ b. (get_elem? cut_off_points i ≡ some 256) × (false ≡ false)) (contents i))
        (sym same) ((refl, refl), tt)
  | inr other ↦
      subst
        (λ c.
          All {A = ℕ} (λ b. (get_elem? cut_off_points k ≡ some 256) × (false ≡ false))
            (if c then 3 ∷ [] else []))
        (sym (==_ne k 2 other)) tt
]

ralloc_fits_example :
    (k : ℕ) × (which_pow2 200 ≡ ok k)
    × (contents k ≡ [] → ralloc 200 one_block ≡ ok (none, one_block))
    × ((b : ℕ) (bs : List ℕ)
        → contents k ≡ b ∷ bs
        → (ralloc 200 one_block ≡ ok (some b, without k b one_block))
          × (200 ≤ one_block.size b)
          × Chain (without k b one_block).next ((without k b one_block).cells k) bs)
ralloc_fits_example =
    ralloc_fits 200 (omega arith) one_block contents
      (record { chains = one_block-chains; sized = one_block-sized })

class_of_256 : which_pow2 256 ≡ ok 2
unfolding which_pow2 which_from
class_of_256 = refl

ralloc-lput_example :
    (s1 : Mempool) × (s2 : Mempool) × (lput 5 empty_pool ≡ ok (true, s1))
    × (ralloc 256 s1 ≡ ok (some 5, s2))
    × (s2.cells ≡ empty_pool.cells)
ralloc-lput_example = ralloc-lput 5 2 empty_pool class_of_256 (omega arith) refl refl refl

which_pow2-IsLeast_example :
    (1073741825 ≤ 1073741824
      → (k : ℕ) × (which_pow2 1073741825 ≡ ok k)
        × (k < num_cut_off_points)
        × IsLeast cut_off_points 1073741825 k)
    × (1073741824 < 1073741825 → which_pow2 1073741825 ≡ fault)
which_pow2-IsLeast_example = which_pow2-IsLeast 1073741825
