-- ===== src/Lfq/Threads/Total.antt =====
-- Sums over the producers of the queue of archive/lfq/ipc_lfq.hh, and the slots of its tickets.
use charm_experiments.Common.{
  update_self, eq_or_ne, update_ne, ℕ, zero, suc, ◌+◌, ◌-◌, ◌%◌, ◌≤◌, ◌<◌, ◌≡◌, refl, sym, ap, ap₂,
  ◌∙◌, ◌≢◌, ◌⊎◌, inl, inr, arith, nat_eq, update,
}
use native.Mathlib.Nat.{mod-eq-sub-mod, mod-add-mod, mod-eq_of_lt, mod-lt}

pub lt_or_ge : (a b : ℕ) → (a < b) ⊎ (b ≤ a)
lt_or_ge a b = ground arith

abbrev pub total : {P : Type 0} → (P → ℕ) → ℕ → (ℕ → P) → ℕ
total f zero pc = 0
total f (suc n) pc = total f n pc + f (pc n)

module _ {P : Type 0} (f : P → ℕ) where
  total-update_other :
      (n i : ℕ) (p : P) (pc : ℕ → P) → n ≤ i → total f n (update i p pc) ≡ total f n pc
  total-update_other zero i p pc le = refl
  total-update_other (suc n) i p pc le =
      ap₂ (λ a b. a + f b) (total-update_other n i p pc (omega arith))
        (update_ne i n p pc (λ e. ground (arith, e)))

  -- One producer is at another place.
  pub total-update :
      (n i : ℕ) (p : P) (pc : ℕ → P)
      → i < n
      → total f n (update i p pc) + f (pc i) ≡ total f n pc + f p
  total-update zero i p pc lt = ground (arith, lt)
  total-update (suc n) i p pc lt = elim (eq_or_ne i n) [
    | inl e ↦ omega (
      arith,
      total-update_other n i p pc (omega (arith, e)),
      ap f (ap (update i p pc) (sym e) ∙ update_self i p pc),
      ap (λ k. f (pc k)) e,
    )
    | inr ne ↦ omega (
      arith,
      total-update n i p pc (ground (arith, ne)),
      ap f (update_ne i n p pc (λ e. ne (sym e))),
    )
  ]

-- the remainder of a sum that goes round at most once
once_round : (n x : ℕ) → n ≤ x → x < n + n → x % n ≡ x - n
once_round n x le lt = mod-eq-sub-mod le ∙ mod-eq_of_lt (omega arith)

apart_by : (n a d : ℕ) → a < n → 0 < d → d < n → (a + d) % n ≡ a → ⊥
apart_by n a d lt pos_d lt_d e = elim (lt_or_ge (a + d) n) [
  | inl small ↦ ground (arith, mod-eq_of_lt small, e)
  | inr large ↦ ground (arith, once_round n (a + d) large (omega arith), e, lt_d)
]

-- Two tickets that are less than `n` apart have different slots.
pub slots_apart : (n h h' : ℕ) → h < h' → h' < h + n → h % n ≢ h' % n
slots_apart n h h' lt near e =
    apart_by n (h % n) (h' - h) (mod-lt h (omega arith)) (omega arith) (omega arith)
      (mod-add-mod h n (h' - h) ∙ ap (λ k. k % n) (omega arith) ∙ sym e)

pub total_le :
    {P : Type 0} (f g : P → ℕ) (n : ℕ) (pc : ℕ → P)
    → ((p : P) → f p ≤ g p)
    → total f n pc ≤ total g n pc
total_le f g zero pc h = omega arith
total_le f g (suc n) pc h = omega (arith, total_le f g n pc h, h (pc n))

pub total_one :
    {P : Type 0} (f : P → ℕ) (n : ℕ) (pc : ℕ → P) → ((p : P) → f p ≤ 1) → total f n pc ≤ n
total_one f zero pc h = omega arith
total_one f (suc n) pc h = omega (arith, total_one f n pc h, h (pc n))

pub total_zero : {P : Type 0} (f : P → ℕ) (n : ℕ) (p : P) → f p ≡ 0 → total f n (λ i. p) ≡ 0
total_zero f zero p e = refl
total_zero f (suc n) p e = omega (arith, total_zero f n p e, e)
