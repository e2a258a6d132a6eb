-- ===== src/Charmlite/Reduction.antt =====
-- archive/charmlite/include/reduction.hh: how Converse combines the contributions to a reduction.
-- Messages stand in a heap here, since the code compares, swaps and frees their pointers. `V` is the
-- value of a `data_message`.
use charm_experiments.Common.{
  ok-injective, sym, fault, abort, out_of_fuel, ==_ne, ==_refl, ap, ◌∙◌, ℕ, ◌≡◌, refl, ◌≢◌, Option,
  none, some, List, [], ◌∷◌, arith, ◌==◌, if◌then◌else◌, Outcome, ok, deref, ◌>>=◌,
}

-- Which messages are live, with their values.
abbrev pub Heap : Type 0 → Type 0
Heap V = ℕ → Option V

abbrev pub update : {V : Type 0} → Heap V → ℕ → Option V → Heap V
update h p v q = if q == p then v else h q

update_self : {V : Type 0} (h : Heap V) (p : ℕ) (v : Option V) → update h p v p ≡ v
update_self h p v = rw (==_refl p)

update_ne : {V : Type 0} (h : Heap V) (p q : ℕ) (v : Option V) → q ≢ p → update h p v q ≡ h q
update_ne h p q v n = rw (==_ne q p n)

-- `combiner_t`: the message that holds the result, in the heap after the call.
abbrev pub Combiner : Type 0 → Type 0
Combiner V = ℕ → ℕ → Heap V → Outcome (ℕ × Heap V)

-- `nop`
unfoldable pub nop : {V : Type 0} → Combiner V
nop lhs rhs h = ok (lhs, h)

-- `add<T>`, for the `+=` of the value type
unfoldable pub add : {V : Type 0} → (V → V → V) → Combiner V
add plus lhs rhs h = do
  a ← deref (h lhs)
  b ← deref (h rhs)
  ok (lhs, update h lhs (some (plus a b)))

-- What `converse_combiner_` leaves: the sum, the array of the other messages, the heap.
pub record Combined (V : Type 0) : Type 0 where
  pub sum : ℕ
  pub remote : List ℕ
  pub heap : Heap V

-- the three ways of one round, by the message that the combiner returns
unfoldable pub keep : {V : Type 0} → ℕ → ℕ → ℕ → Heap V → ℕ × ℕ × Heap V
keep lhs rhs res h =
    if res == lhs
    then (lhs, rhs, h)
    else if res == rhs
    then (rhs, lhs, h)
    else (lhs, rhs, update h lhs none)

module _ {V : Type 0} (comb : Combiner V) where
  -- `converse_combiner_`
  unfoldable pub converse_combiner : ℕ → List ℕ → Heap V → Outcome (Combined V)
  converse_combiner sum [] h = ok (record { sum = sum; remote = []; heap = h })
  converse_combiner sum (rhs ∷ rest) h = comb sum rhs h >>= λ r.
      let k = keep sum rhs r.0 r.1 in
      converse_combiner k.0 rest k.2 >>= λ c. ok (record c { remote = k.1 ∷ c.remote })

  combine_round :
      (sum r res sum1 r1 : ℕ) (rest : List ℕ) (h h1 h2 : Heap V) (c : Combined V)
      → comb sum r h ≡ ok (res, h1)
      → keep sum r res h1 ≡ (sum1, r1, h2)
      → converse_combiner sum1 rest h2 ≡ ok c
      → converse_combiner sum (r ∷ rest) h ≡ ok (record c { remote = r1 ∷ c.remote })
  unfolding converse_combiner
  combine_round sum r res sum1 r1 rest h h1 h2 c e k run = simp (e, k, run)

-- the values of the messages added up from the left
abbrev pub total : {V : Type 0} → (V → V → V) → V → List V → V
total plus acc [] = acc
total plus acc (v ∷ vs) = total plus (plus acc v) vs

-- The messages of the list hold the values, and none of them is `sum`.
abbrev pub Holds : {V : Type 0} → Heap V → ℕ → List ℕ → List V → Type 0
Holds h sum [] [] = Unit {0}
Holds h sum (r ∷ rs) (v ∷ vs) = (h r ≡ some v) × (r ≢ sum) × Holds h sum rs vs
Holds h sum _ _ = ⊥

module _ {V : Type 0} (plus : V → V → V) where
  Holds-update :
      (h : Heap V) (sum : ℕ) (v : V) (rs : List ℕ) (vs : List V)
      → Holds h sum rs vs
      → Holds (update h sum (some v)) sum rs vs
  Holds-update h sum v [] [] t = tt
  Holds-update h sum v [] (w ∷ vs) t = t
  Holds-update h sum v (r ∷ rs) [] t = t
  Holds-update h sum v (r ∷ rs) (w ∷ vs) t = (ground arith, t.1, Holds-update h sum v rs vs t.2)

  add_lem :
      (sum r : ℕ) (a v : V) (h : Heap V)
      → h sum ≡ some a
      → h r ≡ some v
      → add plus sum r h ≡ ok (sum, update h sum (some (plus a v)))
  unfolding add
  add_lem sum r a v h e f = rw (e, f)

  keep_lhs : (sum r : ℕ) (h : Heap V) → keep sum r sum h ≡ (sum, r, h)
  unfolding keep
  keep_lhs sum r h = rw (==_refl sum)

  -- With `add` as the combiner the reduction ends in the message that was local: it holds the sum of
  -- all values, no message is freed, and the array of the others is as it was.
  pub converse_combiner-add :
      (sum : ℕ) (a : V) (rs : List ℕ) (vs : List V) (h : Heap V)
      → h sum ≡ some a
      → Holds h sum rs vs
      → (c : Combined V) × (converse_combiner (add plus) sum rs h ≡ ok c)
        × (c.sum ≡ sum)
        × (c.remote ≡ rs)
        × (c.heap sum ≡ some (total plus a vs))
        × ((p : ℕ) → p ≢ sum → c.heap p ≡ h p)
  unfolding converse_combiner
  converse_combiner-add sum a [] [] h e t =
      (record { sum = sum; remote = []; heap = h }, refl, refl, refl, e, λ p n. refl)
  converse_combiner-add sum a [] (v ∷ vs) h e t = absurd t
  converse_combiner-add sum a (r ∷ rs) [] h e t = absurd t
  converse_combiner-add sum a (r ∷ rs) (v ∷ vs) h e t =
      let h1 : Heap V = update h sum (some (plus a v)) in
      let (c, run, s, rem, val, other) =
        converse_combiner-add sum (plus a v) rs vs h1 (update_self h sum (some (plus a v)))
          (Holds-update h sum (plus a v) rs vs t.2) in
      (
        record c { remote = r ∷ c.remote },
        combine_round (add plus) sum r sum sum r rs h h1 h1 c (add_lem sum r a v h e t.0)
            (keep_lhs sum r h1) run,
        s,
        ap (λ q. r ∷ q) rem,
        val,
        λ p n. other p n ∙ update_ne h sum p (some (plus a v)) n,
      )

keep_fresh :
    {V : Type 0} (sum r res : ℕ) (h : Heap V)
    → res ≢ sum
    → res ≢ r
    → keep sum r res h ≡ (sum, r, update h sum none)
unfolding keep
keep_fresh sum r res h a b = rw (==_ne res sum a, ==_ne res r b)

-- The combiner allocates its result, and follows its left pointer.
pub record IsFresh {V : Type 0} (comb : Combiner V) : Type 0 where
  pub own :
      (lhs rhs res : ℕ) (h h1 : Heap V) → comb lhs rhs h ≡ ok (res, h1) → (res ≢ lhs) × (res ≢ rhs)
  pub reads : (lhs rhs : ℕ) (h : Heap V) → h lhs ≡ none → comb lhs rhs h ≡ fault

module _ {V : Type 0} (comb : Combiner V) (fresh : IsFresh comb) where
  abbrev first_round : ℕ → ℕ → List ℕ → Outcome (ℕ × Heap V) → Outcome (Combined V)
  first_round sum r rest o = o >>= λ a.
      let k = keep sum r a.0 a.1 in
      converse_combiner comb k.0 rest k.2 >>= λ c. ok (record c { remote = k.1 ∷ c.remote })

  after_fresh :
      (sum r : ℕ) (rest : List ℕ) (h1 : Heap V) (c : Combined V)
      → (converse_combiner comb sum rest (update h1 sum none) >>= λ c.
          ok (record c { remote = r ∷ c.remote }))
        ≡ ok c
      → (rest ≡ []) × (c.sum ≡ sum) × (c.heap sum ≡ none)
  unfolding converse_combiner
  after_fresh sum r [] h1 c run =
      let e = ok-injective run in
      (refl, ap (λ c. c.sum) (sym e), ap (λ c. c.heap sum) (sym e) ∙ update_self h1 sum none)
  after_fresh sum r (r2 ∷ rest) h1 c run = absurd (
      fault_ne_ok (
        sym (
          ap (λ o. first_round sum r2 rest o >>= λ c. ok (record c { remote = r ∷ c.remote }))
            (fresh.reads sum r2 (update h1 sum none) (update_self h1 sum none)))
        ∙ run))
    where
      fault_ne_ok : fault ≡ ok c → ⊥
      fault_ne_ok e = cc

  by_result :
      (sum r : ℕ) (rest : List ℕ) (h : Heap V) (c : Combined V) (o : Outcome (ℕ × Heap V))
      → comb sum r h ≡ o
      → first_round sum r rest o ≡ ok c
      → (rest ≡ []) × (c.sum ≡ sum) × (c.heap sum ≡ none)
  by_result sum r rest h c (ok (res, h1)) e run =
      let (a, b) = fresh.own sum r res h h1 e in
      after_fresh sum r rest h1 c (
        sym (
          ap
            (λ k. converse_combiner comb k.0 rest k.2 >>= λ c.
              ok (record c { remote = k.1 ∷ c.remote }))
            (keep_fresh sum r res h1 a b))
        ∙ run)
  by_result sum r rest h c abort e run = cc
  by_result sum r rest h c fault e run = cc
  by_result sum r rest h c out_of_fuel e run = cc

  -- With a combiner that allocates its result and follows its left pointer, a reduction over one or
  -- more other messages never ends in a live message: it can only return if there is exactly one, and
  -- then what it returns is the local message, which has been freed.
  pub converse_combiner_fresh :
      (sum r : ℕ) (rest : List ℕ) (h : Heap V) (c : Combined V)
      → converse_combiner comb sum (r ∷ rest) h ≡ ok c
      → (rest ≡ []) × (c.sum ≡ sum) × (c.heap sum ≡ none)
  unfolding converse_combiner
  converse_combiner_fresh sum r rest h c run = by_result sum r rest h c (comb sum r h) refl run
