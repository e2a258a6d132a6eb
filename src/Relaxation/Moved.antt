-- ===== src/Relaxation/Moved.antt =====
-- `pup` of the task of archive/path2.0/examples/relaxation/pgm.cpp.
pub mod Tests
use charm_experiments.Common.{
  ◌>>=◌, ◌≡◌, refl, ap, ◌∙◌, Bool, not, List, [], ◌∷◌, arith, ◌==◌, if◌then◌else◌, ok, fault,
  Outcome, nat_eq, ℤ,
}
use charm_experiments.Workgroup.Pup.{Pup, blob, int, num, read_num, Item}
use charm_experiments.Workgroup.Pup.Moved.{IsRead, Same}
use charm_experiments.Relaxation.{Relaxer}

-- a bool as its byte
abbrev pub bool_item : {B : Type 0} → Bool → Item B
bool_item b = num (if b then 1 else 0)

abbrev pub read_bool : {B : Type 0} → List (Item B) → Outcome (Bool × List (Item B))
read_bool (num n ∷ rest) = ok (not (n == 0), rest)
read_bool _ = fault

abbrev pub read_int : {B : Type 0} → List (Item B) → Outcome (ℤ × List (Item B))
read_int (int z ∷ rest) = ok (z, rest)
read_int _ = fault

abbrev pub read_blob : {B : Type 0} → List (Item B) → Outcome (B × List (Item B))
read_blob (blob b ∷ rest) = ok (b, rest)
read_blob _ = fault

abbrev pub write_relaxer : {W : Type 0} → Relaxer W → Outcome (List (Item W))
write_relaxer r = ok (
    bool_item r.converged
    ∷ blob r.tolerance
    ∷ bool_item r.has_left
    ∷ bool_item r.has_right
    ∷ num r.n_recvd
    ∷ num r.n_neighbors
    ∷ num r.n_workers
    ∷ int r.it
    ∷ int r.max_iters
    ∷ [])

abbrev pub read_relaxer : {W : Type 0} → List (Item W) → Outcome (Relaxer W × List (Item W))
read_relaxer items = do
  (converged, i1) ← read_bool items
  (tolerance, i2) ← read_blob i1
  (left, i3) ← read_bool i2
  (right, i4) ← read_bool i3
  (recvd, i5) ← read_num i4
  (neighbors, i6) ← read_num i5
  (workers, i7) ← read_num i6
  (it, i8) ← read_int i7
  (max_iters, i9) ← read_int i8
  ok (
    record {
      converged = converged;
      has_left = left;
      has_right = right;
      tolerance = tolerance;
      n_recvd = recvd;
      n_neighbors = neighbors;
      n_workers = workers;
      it = it;
      max_iters = max_iters;
    },
    i9,
  )

abbrev pub pup_relaxer : {W : Type 0} → Pup W (Relaxer W)
pup_relaxer = record { write = write_relaxer; read = read_relaxer }

bool_back : (b : Bool) → not ((if b then 1 else 0) == 0) ≡ b
bool_back b = ground arith

module _ {W : Type 0} (r : Relaxer W) where
  abbrev with_flags : List (Item W) → Bool → Bool → Bool → Outcome (Relaxer W × List (Item W))
  with_flags rest a b c = ok (record r { converged = a; has_left = b; has_right = c }, rest)

  abbrev back : Bool → Bool
  back b = not ((if b then 1 else 0) == 0)

  pub pup_relaxer-IsRead : IsRead pup_relaxer Same r
  pup_relaxer-IsRead = record {
    items = _;
    writes = refl;
    reads = λ rest. (
      r,
      ap (λ a. with_flags rest a (back r.has_left) (back r.has_right)) (bool_back r.converged)
          ∙ ap (λ b. with_flags rest r.converged b (back r.has_right)) (bool_back r.has_left)
          ∙ ap (with_flags rest r.converged r.has_left) (bool_back r.has_right),
      refl,
    );
  }
