-- ===== src/Workgroup/Pup/Moved.antt =====
-- Elements of a workgroup of archive/path2.0/include/hypercomm/workgroup.hpp that move: what is read
-- against what was written.
use charm_experiments.Common.{
  All, get_elem?, ap₂, append_assoc, ℕ, ◌+◌, ◌-◌, ◌%◌, ◌^◌, ◌≡◌, refl, sym, ap, ◌∙◌, true, some,
  List, [], ◌∷◌, ◌++◌, ◌>>=◌, ◌>>◌, ok, Outcome, ensure, deref, nat_eq,
}
use charm_experiments.Workgroup.Pup.{
  MovedGroup, read_group, pup_buffers, pup_tasks, write_group, pup_task, read_with, pup_payload,
  read_task, read_payload, write_with, read_num, write_payload, write_task, MovedPayload, Task, int,
  num, pup_id, pup_pair, Pup, TaskId, pup_num, Item,
}

-- What is written for `x` is read as something that `R` relates to it, whatever follows.
pub record IsRead {B X : Type 0} (p : Pup B X) (R : X → X → Type 0) (x : X) : Type 0 where
  pub items : List (Item B)
  pub writes : p.write x ≡ ok items
  pub reads : (rest : List (Item B)) → (y : X) × (p.read (items ++ rest) ≡ ok (y, rest)) × R x y

-- the same number, task id or task again
abbrev pub Same : {X : Type 0} → X → X → Type 0
Same x y = y ≡ x

abbrev pub Both : {X Y : Type 0} → (X → X → Type 0) → (Y → Y → Type 0) → X × Y → X × Y → Type 0
Both R S a b = R a.0 b.0 × S a.1 b.1

-- Two lists of one length, whose elements are related one by one
abbrev pub Each : {X : Type 0} → (X → X → Type 0) → List X → List X → Type 0
Each R [] [] = Unit
Each R [] (y ∷ ys) = ⊥
Each R (x ∷ xs) [] = ⊥
Each R (x ∷ xs) (y ∷ ys) = R x y × Each R xs ys

pup_num-IsRead : {B : Type 0} (n : ℕ) → IsRead {B = B} pup_num Same n
pup_num-IsRead n = record { items = num n ∷ []; writes = refl; reads = λ rest. (n, refl, refl) }

pup_id-IsRead : {B : Type 0} (tid : TaskId) → IsRead {B = B} pup_id Same tid
pup_id-IsRead tid = record {
  items = int tid.host ∷ num tid.task ∷ [];
  writes = refl;
  reads = λ rest. (tid, refl, refl);
}

module _ {B X Y : Type 0} (px : Pup B X) (py : Pup B Y) (R : X → X → Type 0)
    (S : Y → Y → Type 0) where
  abbrev pair_up : X → Y × List (Item B) → Outcome ((X × Y) × List (Item B))
  pair_up x r = ok ((x, r.0), r.1)

  abbrev then_second : Outcome (X × List (Item B)) → Outcome ((X × Y) × List (Item B))
  then_second o = o >>= λ r. py.read r.1 >>= pair_up r.0

  pup_pair-IsRead :
      (a : X × Y) → IsRead px R a.0 → IsRead py S a.1 → IsRead (pup_pair px py) (Both R S) a
  pup_pair-IsRead (x, y) hx hy = record {
    items = hx.items ++ hy.items;
    writes =
        ap (λ o. o >>= λ items. py.write y >>= λ items1. ok (items ++ items1)) hx.writes
        ∙ ap (λ o. o >>= λ items1. ok (hx.items ++ items1)) hy.writes;
    reads = λ rest.
        let (x', read_x, r) = hx.reads (hy.items ++ rest) in
        let (y', read_y, s) = hy.reads rest in
        (
          (x', y'),
          ap (λ items. then_second (px.read items)) (append_assoc hx.items hy.items rest)
              ∙ ap then_second read_x
              ∙ ap (λ o. o >>= pair_up x') read_y,
          (r, s),
        );
  }

-- The task is active, and its user's part can be read by the puper of its kind.
pub record IsMovable {B T : Type 0} (pupers : List (Pup B T)) (t : Task T) : Type 0 where
  pub alive : t.active ≡ true
  pub puper : Pup B T
  pub registered : get_elem? pupers t.kind ≡ some puper
  pub obj_read : IsRead puper Same t.obj

module _ {B T : Type 0} (pupers : List (Pup B T)) (t : Task T) (movable : IsMovable pupers t) where
  abbrev rebuilt : ℕ → T × List (Item B) → Outcome (Task T × List (Item B))
  rebuilt id r = ok (record { obj = r.0; active = true; kind = t.kind; continuation = id }, r.1)

  pup_task-IsRead : IsRead (pup_task pupers) Same t
  unfolding write_task write_with read_task read_with
  pup_task-IsRead = record {
    items = num t.kind ∷ (num t.continuation ∷ movable.obj_read.items);
    writes =
        ap
          (λ o. deref o >>= λ puper. write_with pupers t puper >>= λ items. ok (num t.kind ∷ items))
          movable.registered
        ∙ ap
            (λ b.
              (ensure b >> (movable.puper.write t.obj >>= λ items. ok (num t.continuation ∷ items)))
              >>= λ items. ok (num t.kind ∷ items))
            movable.alive
        ∙ ap
            (λ o.
              (o >>= λ items. ok (num t.continuation ∷ items)) >>= λ items. ok (num t.kind ∷ items))
            movable.obj_read.writes;
    reads = λ rest.
        let (obj', read_obj, same) = movable.obj_read.reads rest in
        (
          t,
          ap
                (λ o.
                  deref o
                  >>= read_with pupers t.kind
                      (num t.continuation ∷ (movable.obj_read.items ++ rest)))
                movable.registered
              ∙ ap (λ o. o >>= rebuilt t.continuation) read_obj
              ∙ ap (λ v. rebuilt t.continuation (v, rest)) same
              ∙ ap (λ b. ok (record t { active = b }, rest)) (sym movable.alive),
          refl,
        );
  }

-- where in its message the data of a payload stands
abbrev pub data_offset : {M : Type 0} → (M → ℕ) → MovedPayload M → ℕ
data_offset address p = (p.data_at + (2 ^ 64 - address p.src)) % 2 ^ 64

-- The payload `p'` has the message of `p`, at its own address, and its data at the same place in it.
pub record SamePayload {M : Type 0} (R : M → M → Type 0) (address : M → ℕ) (p p' : MovedPayload M)
    : Type 0 where
  pub same_message : R p.src p'.src
  pub same_len : p'.len ≡ p.len
  pub same_place : p'.data_at ≡ (address p'.src + data_offset address p) % 2 ^ 64

module _ {B M : Type 0} (pup_message : Pup B M) (R : M → M → Type 0) (address : M → ℕ)
    (p : MovedPayload M) (hm : IsRead pup_message R p.src) where
  abbrev placed : M × List (Item B) → Outcome (MovedPayload M × List (Item B))
  placed r = do
    (len, items2) ← read_num r.1
    (offset, items3) ← read_num items2
    ok (record { src = r.0; len = len; data_at = (address r.0 + offset) % 2 ^ 64 }, items3)

  abbrev numbers : List (Item B)
  numbers = num p.len ∷ (num (data_offset address p) ∷ [])

  pup_payload-IsRead : IsRead (pup_payload pup_message address) (SamePayload R address) p
  unfolding write_payload read_payload
  pup_payload-IsRead = record {
    items = hm.items ++ numbers;
    writes = ap (λ o. o >>= λ items. ok (items ++ numbers)) hm.writes;
    reads = λ rest.
        let (src, read_src, same) = hm.reads (numbers ++ rest) in
        (
          record {
            src = src;
            len = p.len;
            data_at = (address src + data_offset address p) % 2 ^ 64;
          },
          ap (λ items. pup_message.read items >>= placed) (append_assoc hm.items numbers rest)
              ∙ ap (λ o. o >>= placed) read_src,
          record { same_message = same; same_len = refl; same_place = refl },
        );
  }

All-implies :
    {X : Type 0} (P Q : X → Type 0) (xs : List X) → ((x : X) → P x → Q x) → All P xs → All Q xs
All-implies P Q [] f h = tt
All-implies P Q (x ∷ xs) f h = (f x h.0, All-implies P Q xs f h.1)

-- Lists of pairs that are the same one by one are the same.
Each-Same : {X Y : Type 0} (xs ys : List (X × Y)) → Each (Both Same Same) xs ys → ys ≡ xs
Each-Same [] [] h = refl
Each-Same [] (y ∷ ys) h = elim h [ ]
Each-Same (x ∷ xs) [] h = elim h [ ]
Each-Same (x ∷ xs) (y ∷ ys) ((a, b), h) =
    ap₂ (λ y ys. y ∷ ys) (ap₂ (λ u v. (u, v)) a b) (Each-Same xs ys h)

-- The messages of all payloads can be read.
abbrev pub HasReadable :
    {B M : Type 0} → Pup B M → (M → M → Type 0) → ℕ × List (MovedPayload M) → Type 0
HasReadable pup_message R q = All (λ p. IsRead pup_message R p.src) q.1

abbrev pub HasReadableQueues :
    {B M : Type 0} → Pup B M → (M → M → Type 0) → TaskId × List (ℕ × List (MovedPayload M)) → Type 0
HasReadableQueues pup_message R b = All (HasReadable pup_message R) b.1

-- the buffers of an element, with the same payloads in the same order
abbrev pub SameQueue :
    {M : Type 0}
    → (M → M → Type 0)
    → (M → ℕ)
    → ℕ × List (MovedPayload M)
    → ℕ × List (MovedPayload M)
    → Type 0
SameQueue R address = Both Same (Each (SamePayload R address))

abbrev pub SameQueues :
    {M : Type 0}
    → (M → M → Type 0)
    → (M → ℕ)
    → TaskId × List (ℕ × List (MovedPayload M))
    → TaskId × List (ℕ × List (MovedPayload M))
    → Type 0
SameQueues R address = Both Same (Each (SameQueue R address))

-- `list-IsRead`: a container is read when its elements are. `R` relates a message to its copy.
module _ {B M T : Type 0} (pup_list : (X : Type 0) → Pup B X → Pup B (List X))
    (list-IsRead : (X : Type 0) (p : Pup B X) (R : X → X → Type 0) (l : List X)
      → All (IsRead p R) l
      → IsRead (pup_list X p) (Each R) l)
    (pupers : List (Pup B T)) (pup_message : Pup B M) (R : M → M → Type 0) (address : M → ℕ) where
  tasks-IsRead :
      (l : List (TaskId × Task T))
      → All (λ kt. IsMovable pupers kt.1) l
      → IsRead (pup_tasks pup_list pupers pup_message address) (Each (Both Same Same)) l
  tasks-IsRead l h = list-IsRead _ (pup_pair pup_id (pup_task pupers)) (Both Same Same) l (
      All-implies _ _ l
        (λ kt m.
          pup_pair-IsRead pup_id (pup_task pupers) Same Same kt (pup_id-IsRead kt.0)
            (pup_task-IsRead pupers kt.1 m))
        h)

  queue-IsRead :
      (q : ℕ × List (MovedPayload M))
      → HasReadable pup_message R q
      → IsRead
          (pup_pair pup_num (pup_list _ (pup_payload pup_message address)))
          (SameQueue R address)
          q
  queue-IsRead q h =
      pup_pair-IsRead pup_num (pup_list _ (pup_payload pup_message address)) Same
        (Each (SamePayload R address)) q (pup_num-IsRead q.0)
        (list-IsRead _ (pup_payload pup_message address) (SamePayload R address) q.1
          (All-implies _ _ q.1 (λ p m. pup_payload-IsRead pup_message R address p m) h))

  buffers-IsRead :
      (l : List (TaskId × List (ℕ × List (MovedPayload M))))
      → All (HasReadableQueues pup_message R) l
      → IsRead (pup_buffers pup_list pupers pup_message address) (Each (SameQueues R address)) l
  buffers-IsRead l h = list-IsRead _ _ (SameQueues R address) l (
      All-implies _ _ l
        (λ b m.
          pup_pair-IsRead pup_id _ Same (Each (SameQueue R address)) b (pup_id-IsRead b.0)
            (list-IsRead _ _ (SameQueue R address) b.1 (All-implies _ _ b.1 queue-IsRead m)))
        h)

  -- Where containers are read when their elements are, an element whose tasks are all active and of
  -- registered kinds, with objects and messages that can be read, is read as it was written: its
  -- count and its tasks are the same, and each queue has the same payloads in the same order, each
  -- with the copy of its message, at the address of the copy, and its data at the same place in it.
  pub read_group-write_group :
      (w : MovedGroup M T) (rest : List (Item B))
      → All (λ kt. IsMovable pupers kt.1) w.tasks
      → All (HasReadableQueues pup_message R) w.buffers
      → (items : List (Item B)) × (w' : MovedGroup M T) × (write_group pup_list pupers pup_message
            address w
          ≡ ok items)
        × (read_group pup_list pupers pup_message address (items ++ rest) ≡ ok (w', rest))
        × (w'.last_task ≡ w.last_task)
        × (w'.tasks ≡ w.tasks)
        × Each (SameQueues R address) w.buffers w'.buffers
  unfolding write_group read_group
  read_group-write_group w rest h_tasks h_buffers =
      let ts = tasks-IsRead w.tasks h_tasks in
      let bs = buffers-IsRead w.buffers h_buffers in
      let (tasks', read_tasks, same_tasks) = ts.reads (bs.items ++ rest) in
      let (buffers', read_buffers, same_buffers) = bs.reads rest in
      (
        num w.last_task ∷ (ts.items ++ bs.items),
        record { last_task = w.last_task; tasks = tasks'; buffers = buffers' },
        ap
              (λ o. o >>= λ items.
                (pup_buffers pup_list pupers pup_message address).write w.buffers >>= λ items1.
                ok (num w.last_task ∷ (items ++ items1)))
              ts.writes
            ∙ ap (λ o. o >>= λ items1. ok (num w.last_task ∷ (ts.items ++ items1))) bs.writes,
        ap
              (λ items.
                then_buffers w.last_task
                  ((pup_tasks pup_list pupers pup_message address).read items))
              (append_assoc ts.items bs.items rest)
            ∙ ap (then_buffers w.last_task) read_tasks
            ∙ ap (λ o. o >>= put_together w.last_task tasks') read_buffers,
        refl,
        Each-Same w.tasks tasks' same_tasks,
        same_buffers,
      )
    where
      put_together :
          ℕ
          → List (TaskId × Task T)
          → List (TaskId × List (ℕ × List (MovedPayload M))) × List (Item B)
          → Outcome (MovedGroup M T × List (Item B))
      put_together last tasks r =
          ok (record { last_task = last; tasks = tasks; buffers = r.0 }, r.1)

      then_buffers :
          ℕ
          → Outcome (List (TaskId × Task T) × List (Item B))
          → Outcome (MovedGroup M T × List (Item B))
      then_buffers last o = o >>= λ r.
          (pup_buffers pup_list pupers pup_message address).read r.1 >>= put_together last r.0
