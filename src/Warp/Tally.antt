-- ===== src/Warp/Tally.antt =====
-- What is counted of the messages of warp/warp.hpp.
use charm_experiments.Common.{
  ℕ, zero, suc, ◌+◌, ◌≤◌, ◌<◌, ◌≡◌, refl, ◌∙◌, ◌⊎◌, inl, inr, none, some, List, [], ◌∷◌, nat_eq,
}
use charm_experiments.Warp.{Message, Mpi, insert_at}

abbrev pub IsIn : {A : Type 0} → A → List A → Type 0
IsIn x [] = ⊥
IsIn x (y ∷ ys) = (x ≡ y) ⊎ IsIn x ys

-- What the program relies on: the messages that can come to its requests are bounded until other
-- ranks send more, and each is for the entry with number `ep` and one of `n` tasks.
pub record IsBounded {M V : Type 0} (mpi : Mpi M V) (budget : M → ℕ) (ep n : ℕ) : Type 0 where
  pub irecv_keeps : (m : Message V) (w : M) → budget (mpi.irecv m w).1 ≤ budget w
  pub isend_keeps : (rank : ℕ) (m : Message V) (w : M) → budget (mpi.isend rank m w).1 ≤ budget w
  pub test_send_keeps : (req : ℕ) (w : M) → budget (mpi.test_send req w).1 ≤ budget w
  pub test_receive_keeps : (req : ℕ) (w : M) → budget (mpi.test_receive req w).1 ≤ budget w
  pub test_receive_some :
      (req : ℕ) (w : M) (m : Message V)
      → (mpi.test_receive req w).0 ≡ some m
      → (budget (mpi.test_receive req w).1 < budget w) × (m.ep ≡ ep) × (m.obj < n)

-- From the world `w` to `w'` no receive is done and nothing is sent.
pub record IsQuiet {M : Type 0} (tested : M → ℕ → Type 0) (come went : M → ℕ) (w w' : M)
    : Type 0 where
  pub same_come : come w' ≡ come w
  pub same_went : went w' ≡ went w
  pub still_tested : (req : ℕ) → tested w req → tested w' req

-- Any record of the calls of MPI: `tested` tells which receives MPI_Test was called for, `come` how
-- many of them it found done, and `went` how often MPI_Isend was called.
pub record IsTally {M V : Type 0} (mpi : Mpi M V) (tested : M → ℕ → Type 0) (come went : M → ℕ)
    : Type 0 where
  pub irecv_quiet : (m : Message V) (w : M) → IsQuiet tested come went w (mpi.irecv m w).1
  pub test_send_quiet : (req : ℕ) (w : M) → IsQuiet tested come went w (mpi.test_send req w).1
  pub iprobe_quiet : (tag : ℕ) (w : M) → IsQuiet tested come went w (mpi.iprobe tag w).1
  pub isend_come : (rank : ℕ) (m : Message V) (w : M) → come (mpi.isend rank m w).1 ≡ come w
  pub isend_went : (rank : ℕ) (m : Message V) (w : M) → went (mpi.isend rank m w).1 ≡ went w + 1
  pub isend_tested :
      (rank : ℕ) (m : Message V) (w : M) (req : ℕ)
      → tested w req
      → tested (mpi.isend rank m w).1 req
  pub waits_quiet :
      (req : ℕ) (w : M)
      → (mpi.test_receive req w).0 ≡ none
      → IsQuiet tested come went w (mpi.test_receive req w).1
  pub come_more :
      (req : ℕ) (w : M) (m : Message V)
      → (mpi.test_receive req w).0 ≡ some m
      → come (mpi.test_receive req w).1 ≡ come w + 1
  pub receive_went : (req : ℕ) (w : M) → went (mpi.test_receive req w).1 ≡ went w
  pub receive_tested :
      (req : ℕ) (w : M) (other : ℕ) → tested w other → tested (mpi.test_receive req w).1 other
  pub now_tested : (req : ℕ) (w : M) → tested (mpi.test_receive req w).1 req

pub IsIn-insert_at :
    {A : Type 0} (x y : A) (i : ℕ) (xs : List A) → IsIn x xs → IsIn x (insert_at i y xs)
IsIn-insert_at x y zero xs h = inr h
IsIn-insert_at x y (suc i) [] h = elim h [ ]
IsIn-insert_at x y (suc i) (z ∷ zs) (inl e) = inl e
IsIn-insert_at x y (suc i) (z ∷ zs) (inr h) = inr (IsIn-insert_at x y i zs h)

module _ {M : Type 0} (tested : M → ℕ → Type 0) (come went : M → ℕ) where
  pub IsQuiet-trans :
      (w w1 w2 : M)
      → IsQuiet tested come went w w1
      → IsQuiet tested come went w1 w2
      → IsQuiet tested come went w w2
  IsQuiet-trans w w1 w2 p q = record {
    same_come = q.same_come ∙ p.same_come;
    same_went = q.same_went ∙ p.same_went;
    still_tested = λ req h. q.still_tested req (p.still_tested req h);
  }

  pub IsQuiet-refl : (w : M) → IsQuiet tested come went w w
  IsQuiet-refl w = record { same_come = refl; same_went = refl; still_tested = λ req h. h }
