-- ===== src/Completion/Counts.antt =====
-- What the counts of archive/charmlite/examples/cdt/pgm.cc add up to.
use charm_experiments.Common.{
  eq_of_parts, +ℤ_parts, length, find-put_self, length, pos, ◌+ℤ◌, neg_ℤ, eq_ℤ, Eq, find, put,
  deref, Assoc, ℕ, zero, suc, ◌+◌, ◌-◌, ◌<◌, ◌≡◌, ap, ◌∙◌, none, some, List, [], ◌∷◌, arith, ◌==◌,
  if◌then◌else◌, ◌>>=◌, ok, nat_eq, ℤ,
}
use charm_experiments.Completion.{
  contributed, callback_sent, start_detection, consume, produce, receive_count, status_with, Status,
}

swap_last : (a n b : ℤ) → (a +ℤ n) +ℤ b ≡ (a +ℤ b) +ℤ n
swap_last a n b =
    eq_of_parts _ _
      (omega (arith, +ℤ_parts a n, +ℤ_parts (a +ℤ n) b, +ℤ_parts a b, +ℤ_parts (a +ℤ b) n))

assoc_last : (a b n : ℤ) → a +ℤ (b +ℤ n) ≡ (a +ℤ b) +ℤ n
assoc_last a b n =
    eq_of_parts _ _
      (omega (arith, +ℤ_parts b n, +ℤ_parts a (b +ℤ n), +ℤ_parts a b, +ℤ_parts (a +ℤ b) n))

add_pos : (a b : ℕ) → pos a +ℤ pos b ≡ pos (a + b)
add_pos a b = eq_of_parts _ _ (omega (arith, +ℤ_parts (pos a) (pos b)))

sub_one : (a : ℕ) → 0 < a → pos a +ℤ neg_ℤ (pos 1) ≡ pos (a - 1)
sub_one a lt = eq_of_parts _ _ (omega (arith, +ℤ_parts (pos a) (neg_ℤ (pos 1))))

-- the PEs, and the events that are produced and not consumed
pub record World (K M : Type 0) : Type 0 where
  pub pes : List (Assoc K (Status M))
  pub flying : ℕ

-- a change of one PE
abbrev pub at_pe {ℓ} : {A : Type ℓ} → ℕ → (A → A) → List A → List A
at_pe i f [] = []
at_pe zero f (c ∷ cs) = f c ∷ cs
at_pe (suc i) f (c ∷ cs) = c ∷ at_pe i f cs

module _ {K M : Type 0} ⦃eq_key : Eq K⦄ (idx : K) where
  -- the count of a PE, and the sum over all PEs, which the reduction computes
  abbrev pub count_of : Assoc K (Status M) → ℤ
  count_of statii = (status_with none (find idx statii)).lcount

  abbrev pub total : List (Assoc K (Status M)) → ℤ
  total [] = pos 0
  total (c ∷ cs) = count_of c +ℤ total cs

  pub count-produce :
      (n : ℤ) (c : Assoc K (Status M)) → count_of (produce idx n c) ≡ count_of c +ℤ n
  unfolding produce
  count-produce n c =
      let s = status_with none (find idx c) in
      ap (λ o. (status_with none o).lcount)
        (find-put_self idx (record s { lcount = s.lcount +ℤ n }) c)

  -- A PE produces events, or consumes one that flies.
  pub data Step : World K M → World K M → Type 0 where
    produces :
        (w : World K M) (i n : ℕ)
        → i < length w.pes
        → Step w (record { pes = at_pe i (produce idx (pos n)) w.pes; flying = w.flying + n })
    consumes :
        (w : World K M) (i : ℕ)
        → i < length w.pes
        → 0 < w.flying
        → Step w (record { pes = at_pe i (consume idx (pos 1)) w.pes; flying = w.flying - 1 })

  pub data Steps : World K M → World K M → Type 0 where
    done : {w : World K M} → Steps w w
    then_step : {w w' w'' : World K M} → Step w w' → Steps w' w'' → Steps w w''

  total-at_pe :
      (i : ℕ) (n : ℤ) (cs : List (Assoc K (Status M)))
      → i < length cs
      → total (at_pe i (produce idx n) cs) ≡ total cs +ℤ n
  total-at_pe i n [] lt = elim lt [ ]
  total-at_pe zero n (c ∷ cs) lt =
      ap (λ k. k +ℤ total cs) (count-produce n c) ∙ swap_last (count_of c) n (total cs)
  total-at_pe (suc i) n (c ∷ cs) lt =
      ap (λ k. count_of c +ℤ k) (total-at_pe i n cs (omega arith))
      ∙ assoc_last (count_of c) (total cs) n

  -- The counts add up to the number of events in flight.
  unfoldable pub IsExact : World K M → Type 0
  IsExact w = total w.pes ≡ pos w.flying

  Step-IsExact : {w w' : World K M} → Step w w' → IsExact w → IsExact w'
  unfolding IsExact consume
  Step-IsExact (produces w i n lt) e =
      total-at_pe i (pos n) w.pes lt ∙ ap (λ k. k +ℤ pos n) e ∙ add_pos w.flying n
  Step-IsExact (consumes w i lt some_fly) e =
      total-at_pe i (neg_ℤ (pos 1)) w.pes lt
      ∙ ap (λ k. k +ℤ neg_ℤ (pos 1)) e
      ∙ sub_one w.flying some_fly

  Steps-IsExact : {w w' : World K M} → Steps w w' → IsExact w → IsExact w'
  Steps-IsExact done e = e
  Steps-IsExact (then_step s r) e = Steps-IsExact r (Step-IsExact s e)

  -- the status of a PE when it has the sum `g`
  abbrev informed : ℤ → Status M → Status M
  informed g s = record s { complete = eq_ℤ g (pos 0) }

  receive_count_lem :
      (g : ℤ) (c : Assoc K (Status M)) (s : Status M) (m : M)
      → find idx c ≡ some s
      → s.msg ≡ some m
      → receive_count idx g c ≡ ok (start_detection idx m (put idx (informed g s) c))
  unfolding receive_count
  receive_count_lem g c s m here given =
      ap
        (λ o. deref (status_with none o).msg >>= λ m'.
          ok (start_detection idx m' (put idx (informed g (status_with none o)) c)))
        here
      ∙ ap (λ o. deref o >>= λ m'. ok (start_detection idx m' (put idx (informed g s) c))) given

  start_detection_lem :
      (m : M) (s : Status M) (c : Assoc K (Status M))
      → (start_detection idx m (put idx s c)).0
        ≡ (if s.complete then callback_sent m else contributed s.lcount)
  unfolding start_detection
  start_detection_lem m s c =
      ap
        (λ o.
          let s' = status_with (some m) o in
          if s'.complete then callback_sent m else contributed s'.lcount)
        (find-put_self idx s c)

  -- After any events on PEs whose counts were exact, if the counts of all PEs are added up at that
  -- point, a PE with a detection message that receives the sum sends the callback if no event is in
  -- flight, and contributes its count to another round otherwise.
  pub detection_exact :
      (w w' : World K M) (c : Assoc K (Status M)) (s : Status M) (m : M)
      → IsExact w
      → Steps w w'
      → find idx c ≡ some s
      → s.msg ≡ some m
      → (c' : Assoc K (Status M)) × (receive_count idx (total w'.pes) c
          ≡ ok (if w'.flying == 0 then callback_sent m else contributed s.lcount, c'))
  unfolding IsExact
  detection_exact w w' c s m e run here given =
      let g = total w'.pes in
      let next = put idx (informed g s) c in
      let c' = (start_detection idx m next).1 in
      (
        c',
        receive_count_lem g c s m here given
            ∙ ap (λ d. ok (d, c'))
                (start_detection_lem m (informed g s) c
                  ∙ ap (λ k. if eq_ℤ k (pos 0) then callback_sent m else contributed s.lcount)
                      (Steps-IsExact run e)),
      )
