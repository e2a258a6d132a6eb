-- ===== src/Charmlite/Locmgr.antt =====
-- archive/charmlite/include/locmgr.hh: where an element lives, and the broadcast tree of a group.
use charm_experiments.Common.{
  ℕ, zero, suc, ◌-◌, ◌%◌, ◌≡◌, refl, List, [], ◌∷◌, ◌++◌, append-nil, arith, ltb, leb,
  if◌then◌else◌, length, ℤ, pos, negsuc, ltb_ℤ, Outcome, ok, abort, fault, ensure, ◌>>◌,
}

-- The spanning tree of Converse over the PEs: `CmiSpanTreeParent` (negative at the root) and
-- `CmiSpanTreeChildren`, whose number is `CmiNumSpanTreeChildren`.
pub record SpanTree : Type 0 where
  pub parent : ℕ → ℤ
  pub children : ℕ → List ℕ

-- What a collective asks of its `locmgr<Mapper>`.
pub record Locmgr : Type 0 where
  pub pe_for : ℕ → ℕ
  pub root : Outcome ℕ
  pub upstream : ℕ → Outcome (List ℕ)
  pub downstream : ℕ → Outcome (List ℕ)

-- `default_mapper::pe_for`
unfoldable pub pe_for : ℕ → ℕ → ℕ
pe_for num_pes idx = idx % num_pes

-- `locmgr<Mapper>`: collective communication is not implemented.
unfoldable pub default_locmgr : ℕ → Locmgr
default_locmgr num_pes = record {
  pe_for = pe_for num_pes;
  root = abort;
  upstream = λ _. abort;
  downstream = λ _. abort;
}

abbrev pub zeros : ℕ → List ℕ
zeros zero = []
zeros (suc n) = 0 ∷ zeros n

-- A vector of `n` zeros, into which `CmiSpanTreeChildren` writes `cs` from the front.
fill : ℕ → List ℕ → Outcome (List ℕ)
fill n cs = if leb (length cs) n then ok (cs ++ zeros (n - length cs)) else fault

fill_self : (cs : List ℕ) → fill (length cs) cs ≡ ok cs
unfolding fill
fill_self cs =
    let e : length cs - length cs ≡ 0 = omega arith in rw e (ground (arith, append-nil cs))

fill_children : (cs : List ℕ) → (if ltb 0 (length cs) then fill (length cs) cs else ok []) ≡ ok cs
fill_children [] = refl
fill_children (c ∷ cs) = ground (arith, fill_self (c ∷ cs))

module _ (num_pes my_pe : ℕ) (tree : SpanTree) where
  unfoldable pub group_root : Outcome ℕ
  group_root = ensure (ltb_ℤ (tree.parent 0) (pos 0)) >> ok 0

  -- The number of children is asked for the element's PE, the children for this PE.
  unfoldable pub group_upstream : ℕ → Outcome (List ℕ)
  unfolding pe_for fill
  group_upstream idx =
      let n = length (tree.children (pe_for num_pes idx)) in
      if ltb 0 n then fill n (tree.children my_pe) else ok []

  group_downstream_of : ℤ → List ℕ
  group_downstream_of (pos p) = p ∷ []
  group_downstream_of (negsuc _) = []

  unfoldable pub group_downstream : ℕ → Outcome (List ℕ)
  unfolding pe_for group_downstream_of
  group_downstream idx = ok (group_downstream_of (tree.parent (pe_for num_pes idx)))

  -- `locmgr<group_mapper>`
  unfoldable pub group_locmgr : Locmgr
  unfolding group_root group_upstream group_downstream pe_for
  group_locmgr = record {
    pe_for = pe_for num_pes;
    root = group_root;
    upstream = group_upstream;
    downstream = group_downstream;
  }

  -- For an element whose home is this PE, `upstream` is the children of this PE in the tree.
  pub group_upstream_home :
      (idx : ℕ) → pe_for num_pes idx ≡ my_pe → group_upstream idx ≡ ok (tree.children my_pe)
  unfolding group_upstream
  group_upstream_home idx h = rw h (fill_children (tree.children my_pe))
