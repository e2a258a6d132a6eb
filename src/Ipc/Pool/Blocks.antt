-- ===== src/Ipc/Pool/Blocks.antt =====
-- What `lput` and `ralloc` of archive/include/pool.hh do with the blocks of a size class.
use charm_experiments.Ipc.Pool.Classes.{which_pow2-IsLeast}
use charm_experiments.Common.{
  update_id, update_twice, update_self, ==_refl, some-injective, get_elem?, All, update, not,
  ensure, ◌>>◌, leb, ℕ, ◌≤◌, ◌<◌, ◌≡◌, refl, sym, ap, subst, ◌∙◌, true, false, none, some, List, [],
  ◌∷◌, arith, if◌then◌else◌, ◌>>=◌, ok, nat_eq,
}
use charm_experiments.Ipc.Queue.{is_null, null, tail, at, Pointer}
use charm_experiments.Ipc.Queue.Stack.{Chain}
use charm_experiments.Ipc.Pool.{
  cut_off_points, put_block, which_pow2, lput, num_cut_off_points, ralloc, take_block, Mempool,
}

-- The lists of a pool that nobody has taken a head of: list `k` holds the blocks `lists k`, which
-- have the size of its cut-off point and are free.
pub record IsPool (s : Mempool) (lists : ℕ → List ℕ) : Type 0 where
  pub chains : (k : ℕ) → Chain s.next (s.cells k) (lists k)
  pub sized :
      (k : ℕ)
      → All (λ b. (get_elem? cut_off_points k ≡ some (s.size b)) × (s.used b ≡ false)) (lists k)

-- the pool without the first block of a list
abbrev pub without : ℕ → ℕ → Mempool → Mempool
without k b s = record s { cells = update k (s.next b) s.cells; used = update b true s.used }

take_first :
    (k b : ℕ) (p : Pointer) (s : Mempool)
    → p ≡ at b
    → s.used b ≡ false
    → take_block k p s ≡ ok (some b, without k b s)
unfolding take_block
take_first k b p s e free =
    ap (λ q. take_block k q s) e ∙ ap (λ u. ensure (not u) >> ok (some b, without k b s)) free

in_class : (k : ℕ) → k < num_cut_off_points → leb num_cut_off_points k ≡ false
in_class k lt = ground arith

module _ (sz : ℕ) (le : sz ≤ 1073741824) (s : Mempool) (lists : ℕ → List ℕ)
    (inv : IsPool s lists) where
  ralloc_class :
      (k : ℕ)
      → which_pow2 sz ≡ ok k
      → k < num_cut_off_points
      → ralloc sz s ≡ take_block k (s.cells k) s
  unfolding ralloc
  ralloc_class k found lt =
      ap
        (λ o. o >>= λ pt.
          if leb num_cut_off_points pt then ok (none, s) else take_block pt (s.cells pt) s)
        found
      ∙ ap (λ b. if b then ok (none, s) else take_block k (s.cells k) s) (in_class k lt)

  -- In a pool that nobody has taken a head of, and whose lists hold free blocks of their class's
  -- size, `ralloc` of at most 1 GiB looks at one list. If that list is empty it returns none and
  -- changes nothing; otherwise it returns the list's first block, which is large enough, and takes
  -- it out of the list.
  pub ralloc_fits :
      (k : ℕ) × (which_pow2 sz ≡ ok k)
      × (lists k ≡ [] → ralloc sz s ≡ ok (none, s))
      × ((b : ℕ) (bs : List ℕ)
          → lists k ≡ b ∷ bs
          → (ralloc sz s ≡ ok (some b, without k b s))
            × (sz ≤ s.size b)
            × Chain (without k b s).next ((without k b s).cells k) bs)
  unfolding Chain take_block
  ralloc_fits =
      let (k, found, lt, l) = (which_pow2-IsLeast sz).0 le in
      (
        k,
        found,
        λ e.
            ralloc_class k found lt
            ∙ ap (λ p. take_block k p s) (subst (Chain s.next (s.cells k)) e (inv.chains k)),
        λ b bs e.
            let chain = subst (Chain s.next (s.cells k)) e (inv.chains k) in
            let block =
              subst (All (λ b. (get_elem? cut_off_points k ≡ some (s.size b)) × (s.used b ≡ false)))
                e (inv.sized k) in
            (
              ralloc_class k found lt ∙ take_first k b (s.cells k) s chain.0 block.0.1,
              subst (λ n. sz ≤ n) (some-injective (sym l.there ∙ block.0.0)) l.holds,
              subst (λ p. Chain s.next p bs) (sym (update_self k (s.next b) s.cells)) chain.1,
            ),
      )

put_open :
    (k b : ℕ) (p : Pointer) (s : Mempool)
    → is_null p ≡ false
    → put_block k b p s
      ≡ (true, record s { next = update b p s.next; cells = update k (at b) s.cells })
put_open k b null s e = cc
put_open k b tail s e = refl
put_open k b (at c) s e = refl

-- A free block whose size is the cut-off point of its class, whose list nobody has taken the head
-- of, can be put into the pool and comes back from the next `ralloc` of that size, and the heads of
-- all lists are as they were before it was put into the pool.
pub ralloc-lput :
    (b k : ℕ) (s : Mempool)
    → which_pow2 (s.size b) ≡ ok k
    → k < num_cut_off_points
    → get_elem? cut_off_points k ≡ some (s.size b)
    → s.used b ≡ false
    → is_null (s.cells k) ≡ false
    → (s1 : Mempool) × (s2 : Mempool) × (lput b s ≡ ok (true, s1))
      × (ralloc (s.size b) s1 ≡ ok (some b, s2))
      × (s2.cells ≡ s.cells)
unfolding lput ralloc
ralloc-lput b k s found lt exact free ready =
    let s1 = record s { next = update b (s.cells k) s.next; cells = update k (at b) s.cells } in
    let s2 = without k b s1 in
    (
      s1,
      s2,
      simp (found, exact, in_class k lt, ==_refl (s.size b))
          (ap ok (put_open k b (s.cells k) s ready)),
      simp (found, in_class k lt)
          (take_first k b (s1.cells k) s1 (update_self k (at b) s.cells) free),
      ap (λ p. update k p s1.cells) (update_self b (s.cells k) s.next)
          ∙ update_twice k (s.cells k) (at b) s.cells
          ∙ update_id k s.cells,
    )
