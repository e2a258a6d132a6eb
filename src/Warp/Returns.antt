-- ===== src/Warp/Returns.antt =====
-- The loops of `__run_once` of warp/warp.hpp.
use charm_experiments.Common.{
  Option-cases, List-cases, length, ℕ, zero, suc, ◌+◌, ◌*◌, ◌≤◌, ◌<◌, ◌≡◌, ap, ◌∙◌, inl, inr, none,
  some, List, [], ◌∷◌, ◌++◌, arith, ◌>>=◌, ok, nat_eq,
}
use charm_experiments.Warp.{
  test_one, foreach_from, run_entry, Message, foreach_receive, EntryInfo, Mpi, Rank,
}

module _ {M V T : Type 0} (mpi : Mpi M V) (table : List (EntryInfo M V T)) where
  -- An invariant of a rank that the loop keeps, and a bound on the messages that can come
  -- to the requests during one pass. An entry function posts at most one request that the pass still
  -- goes to.
  pub record IsSteady (Inv : Rank M V T → Type 0) (budget : M → ℕ) : Type 0 where
    pub waits :
        (s : Rank M V T) (e : ℕ × Message V) (rest : List (ℕ × Message V))
        → s.ahead ≡ e ∷ rest
        → Inv s
        → (mpi.test_receive e.0 s.mpi).0 ≡ none
        → Inv (record s {
          passed = s.passed ++ (e ∷ []);
          ahead = rest;
          mpi = (mpi.test_receive e.0 s.mpi).1;
        })
          × (budget (mpi.test_receive e.0 s.mpi).1 ≤ budget s.mpi)
    pub comes :
        (s : Rank M V T) (e : ℕ × Message V) (rest : List (ℕ × Message V)) (m : Message V)
        → s.ahead ≡ e ∷ rest
        → Inv s
        → (mpi.test_receive e.0 s.mpi).0 ≡ some m
        → (s' : Rank M V T) × (run_entry mpi table m
              (record s { ahead = rest; mpi = (mpi.test_receive e.0 s.mpi).1 })
            ≡ ok s')
          × Inv s'
          × (budget s'.mpi < budget s.mpi)
          × (length s'.ahead ≤ length rest + 1)

  module _ (Inv : Rank M V T → Type 0) (budget : M → ℕ) (steady : IsSteady Inv budget) where
    abbrev pub Returns : ℕ → Rank M V T → Type 0
    Returns fuel s =
        (s' : Rank M V T) × (foreach_receive mpi table fuel s
          ≡ ok (record s' { passed = []; ahead = s'.passed }))
        × Inv s'
        × (s'.ahead ≡ [])

    -- the end of the map, a request that waits, and one that is done
    at_end : (fuel : ℕ) (s : Rank M V T) → s.ahead ≡ [] → Inv s → Returns (suc fuel) s
    unfolding foreach_receive foreach_from
    at_end fuel s e inv =
        (s, ap (λ l. foreach_from mpi table (foreach_receive mpi table fuel) l s) e, inv, e)

    abbrev moved : ℕ × Message V → List (ℕ × Message V) → Rank M V T → Rank M V T
    moved e rest s = record s {
      passed = s.passed ++ (e ∷ []);
      ahead = rest;
      mpi = (mpi.test_receive e.0 s.mpi).1;
    }

    passes :
        (fuel : ℕ) (s : Rank M V T) (e : ℕ × Message V) (rest : List (ℕ × Message V))
        → s.ahead ≡ e ∷ rest
        → (mpi.test_receive e.0 s.mpi).0 ≡ none
        → foreach_receive mpi table (suc fuel) s ≡ foreach_receive mpi table fuel (moved e rest s)
    unfolding foreach_receive foreach_from test_one
    passes fuel s e rest ahead none_yet =
        ap (λ l. foreach_from mpi table (foreach_receive mpi table fuel) l s) ahead
        ∙ ap
            (λ o.
              test_one mpi table (foreach_receive mpi table fuel) e rest s
                (o, (mpi.test_receive e.0 s.mpi).1))
            none_yet

    runs :
        (fuel : ℕ) (s : Rank M V T) (e : ℕ × Message V) (rest : List (ℕ × Message V))
        (m : Message V)
        → s.ahead ≡ e ∷ rest
        → (mpi.test_receive e.0 s.mpi).0 ≡ some m
        → foreach_receive mpi table (suc fuel) s ≡ (
            run_entry mpi table m (record s { ahead = rest; mpi = (mpi.test_receive e.0 s.mpi).1 })
            >>= foreach_receive mpi table fuel)
    unfolding foreach_receive foreach_from test_one
    runs fuel s e rest m ahead come =
        ap (λ l. foreach_from mpi table (foreach_receive mpi table fuel) l s) ahead
        ∙ ap
            (λ o.
              test_one mpi table (foreach_receive mpi table fuel) e rest s
                (o, (mpi.test_receive e.0 s.mpi).1))
            come

    pub foreach_receive-Returns :
        (fuel : ℕ) (s : Rank M V T)
        → length s.ahead + 2 * budget s.mpi < fuel
        → Inv s
        → Returns fuel s
    foreach_receive-Returns zero s lt inv = ground (arith, lt)
    foreach_receive-Returns (suc fuel) s lt inv = elim (List-cases s.ahead) [
      | inl e ↦ at_end fuel s e inv
      | inr (e, rest, ahead) ↦
          let size : length s.ahead ≡ suc (length rest) = ap length ahead in
          elim (Option-cases (mpi.test_receive e.0 s.mpi).0) [
            | inl waits ↦
                let (inv', less) = steady.waits s e rest ahead inv waits in
                let (s', ret, inv'', end) =
                  foreach_receive-Returns fuel (moved e rest s) (omega arith) inv' in
                (s', passes fuel s e rest ahead waits ∙ ret, inv'', end)
            | inr (m, come) ↦
                let (s1, ran, inv', less, few) = steady.comes s e rest m ahead inv come in
                let (s', ret, inv'', end) = foreach_receive-Returns fuel s1 (omega arith) inv' in
                (
                  s',
                  runs fuel s e rest m ahead come
                      ∙ ap (λ o. o >>= foreach_receive mpi table fuel) ran
                      ∙ ret,
                  inv'',
                  end,
                )
          ]
    ]
