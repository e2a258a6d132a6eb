-- ===== src/Relaxation/Moved/Tests.antt =====
-- An element of a workgroup that moves with a task of archive/path2.0/examples/relaxation/pgm.cpp.
use charm_experiments.Relaxation.Moved.{pup_relaxer-IsRead, pup_relaxer}
use charm_experiments.Relaxation.Rounds.{initial}
use charm_experiments.Relaxation.{Relaxer}
use charm_experiments.Workgroup.{Task, TaskId}
use charm_experiments.Common.{
  pos, true, append_assoc, length, All, ℕ, zero, suc, ◌+◌, ◌*◌, ◌≡◌, refl, ap, ◌∙◌, List, [], ◌∷◌,
  ◌++◌, ◌>>=◌, ok, Outcome, nat_eq,
}
use charm_experiments.Workgroup.Pup.{
  read_group, MovedGroup, MovedPayload, write_group, num, read_num, Pup, Item,
}
use charm_experiments.Workgroup.Pup.Moved.{
  read_group-write_group, IsMovable, IsRead, Each, SameQueues,
}

-- a container as its length and its elements
module _ {B X : Type 0} (p : Pup B X) where
  abbrev write_all : List X → Outcome (List (Item B))
  write_all [] = ok []
  write_all (x ∷ xs) = p.write x >>= λ items. write_all xs >>= λ more. ok (items ++ more)

  abbrev read_all : ℕ → List (Item B) → Outcome (List X × List (Item B))
  read_all zero items = ok ([], items)
  read_all (suc n) items = p.read items >>= λ r. read_all n r.1 >>= λ rs. ok (r.0 ∷ rs.0, rs.1)

abbrev write_counted : {B X : Type 0} → Pup B X → List X → Outcome (List (Item B))
write_counted p l = write_all p l >>= λ items. ok (num (length l) ∷ items)

abbrev read_counted : {B X : Type 0} → Pup B X → List (Item B) → Outcome (List X × List (Item B))
read_counted p items = read_num items >>= λ r. read_all p r.0 r.1

abbrev pup_list : {B : Type 0} (X : Type 0) → Pup B X → Pup B (List X)
pup_list X p = record { write = write_counted p; read = read_counted p }

module _ {B X : Type 0} (p : Pup B X) (R : X → X → Type 0) where
  put_first : X → List X × List (Item B) → Outcome (List X × List (Item B))
  put_first x rs = ok (x ∷ rs.0, rs.1)

  then_all : ℕ → X × List (Item B) → Outcome (List X × List (Item B))
  then_all n r = read_all p n r.1 >>= put_first r.0

  read_all-write_all :
      (l : List X)
      → All (IsRead p R) l
      → (items : List (Item B)) × (write_all p l ≡ ok items)
        × ((rest : List (Item B))
            → (l' : List X) × (read_all p (length l) (items ++ rest) ≡ ok (l', rest)) × Each R l l')
  unfolding put_first then_all
  read_all-write_all [] h = ([], refl, λ rest. ([], refl, tt))
  read_all-write_all (x ∷ xs) (hx, h) =
      let (more, writes, reads) = read_all-write_all xs h in
      (
        hx.items ++ more,
        ap (λ o. o >>= λ items. write_all p xs >>= λ more. ok (items ++ more)) hx.writes
            ∙ ap (λ o. o >>= λ more. ok (hx.items ++ more)) writes,
        λ rest.
            let (x', read_x, r) = hx.reads (more ++ rest) in
            let (xs', read_xs, rs) = reads rest in
            (
              x' ∷ xs',
              ap (λ items. p.read items >>= then_all (length xs)) (append_assoc hx.items more rest)
                  ∙ ap (λ o. o >>= then_all (length xs)) read_x
                  ∙ ap (λ o. o >>= put_first x') read_xs,
              (r, rs),
            ),
      )

list-IsRead :
    {B : Type 0} (X : Type 0) (p : Pup B X) (R : X → X → Type 0) (l : List X)
    → All (IsRead p R) l
    → IsRead (pup_list X p) (Each R) l
list-IsRead X p R l h =
    let (items, writes, reads) = read_all-write_all p R l h in
    record {
      items = num (length l) ∷ items;
      writes = ap (λ o. o >>= λ items. ok (num (length l) ∷ items)) writes;
      reads = reads;
    }

-- A pointer to a message: the address and the contents. Charm++ unpacks a message after which `n`
-- items are left at 8192 + 256 * n.
abbrev MessageAt : Type 0
MessageAt = ℕ × ℕ

abbrev read_message : List (Item ℕ) → Outcome (MessageAt × List (Item ℕ))
read_message items = read_num items >>= λ r. ok ((8192 + 256 * length r.1, r.0), r.1)

abbrev pup_message : Pup ℕ MessageAt
pup_message = record { write = λ m. ok (num m.1 ∷ []); read = read_message }

abbrev SameContents : MessageAt → MessageAt → Type 0
SameContents m m' = m'.1 ≡ m.1

abbrev address : MessageAt → ℕ
address m = m.0

abbrev tid : TaskId
tid = record { host = pos 0; task = 3 }

abbrev relaxer : Relaxer ℕ
relaxer = initial 1 3 100 5

abbrev task : Task (Relaxer ℕ)
task = record { obj = relaxer; active = true; kind = 0; continuation = 1 }

-- two payloads, each with its message at an address of its own
abbrev first_payload : MovedPayload MessageAt
first_payload = record { src = (4096, 17); len = 8; data_at = 4160 }

abbrev second_payload : MovedPayload MessageAt
second_payload = record { src = (6144, 18); len = 8; data_at = 6208 }

abbrev group : MovedGroup MessageAt (Relaxer ℕ)
group = record {
  last_task = 4;
  tasks = (tid, task) ∷ [];
  buffers = (tid, (0, first_payload ∷ second_payload ∷ []) ∷ []) ∷ [];
}

abbrev pupers : List (Pup ℕ (Relaxer ℕ))
pupers = pup_relaxer ∷ []

task-IsMovable : IsMovable pupers task
task-IsMovable = record {
  alive = refl;
  puper = pup_relaxer;
  registered = refl;
  obj_read = pup_relaxer-IsRead relaxer;
}

message-IsRead : (m : MessageAt) → IsRead pup_message SameContents m
message-IsRead m = record {
  items = num m.1 ∷ [];
  writes = refl;
  reads = λ rest. ((8192 + 256 * length rest, m.1), refl, refl);
}

read_group-write_group_example :
    (items : List (Item ℕ)) × (w' : MovedGroup MessageAt (Relaxer ℕ)) × (write_group pup_list pupers
        pup_message address group
      ≡ ok items)
    × (read_group pup_list pupers pup_message address (items ++ []) ≡ ok (w', []))
    × (w'.last_task ≡ 4)
    × (w'.tasks ≡ (tid, task) ∷ [])
    × Each (SameQueues SameContents address) group.buffers w'.buffers
read_group-write_group_example =
    read_group-write_group pup_list list-IsRead pupers pup_message SameContents address group []
      (task-IsMovable, tt)
      (((message-IsRead first_payload.src, (message-IsRead second_payload.src, tt)), tt), tt)
