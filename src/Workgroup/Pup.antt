-- ===== src/Workgroup/Pup.antt =====
-- The PUP methods of archive/path2.0/include/hypercomm/workgroup.hpp, which write an element of a
-- workgroup when it moves to another process and read it there. What Charm++ writes for a message or
-- a container is a parameter.
use charm_experiments.Common.{
  get_elem?, ℕ, ◌+◌, ◌-◌, ◌%◌, ◌^◌, true, List, [], ◌∷◌, ◌++◌, ◌>>=◌, ◌>>◌, ok, fault, Outcome,
  ensure, deref, nat_eq, ℤ,
}
pub mod Moved
use charm_experiments.Workgroup.{TaskId, Task}

-- What stands in the buffer of a PUP::er; `B` is what else the user's code writes.
pub data Item (B : Type 0) : Type 0 where
  num : ℕ → Item B
  int : ℤ → Item B
  blob : B → Item B

-- `p | x` of a PUP::er that packs, and of one that unpacks
pub record Pup (B X : Type 0) : Type 0 where
  pub write : X → Outcome (List (Item B))
  pub read : List (Item B) → Outcome (X × List (Item B))

abbrev pub read_num : {B : Type 0} → List (Item B) → Outcome (ℕ × List (Item B))
read_num (num n ∷ rest) = ok (n, rest)
read_num _ = fault

-- `task_payload`; `M` is a pointer to a message, and `data_at` an address.
pub record MovedPayload (M : Type 0) : Type 0 where
  pub src : M
  pub len : ℕ
  pub data_at : ℕ

-- `workgroup`, as far as it moves, with its maps as the lists that are gone through
pub record MovedGroup (M T : Type 0) : Type 0 where
  pub last_task : ℕ
  pub tasks : List (TaskId × Task T)
  pub buffers : List (TaskId × List (ℕ × List (MovedPayload M)))

module _ {B T : Type 0} (pupers : List (Pup B T)) where
  -- `pup_base_` and `pup` of a task, given the puper of its kind
  unfoldable pub write_with : Task T → Pup B T → Outcome (List (Item B))
  write_with t puper =
      ensure t.active >> (puper.write t.obj >>= λ items. ok (num t.continuation ∷ items))

  unfoldable pub read_with : ℕ → List (Item B) → Pup B T → Outcome (Task T × List (Item B))
  read_with kind items puper = do
    (id, items1) ← read_num items
    (obj, items2) ← puper.read items1
    ok (record { obj = obj; active = true; kind = kind; continuation = id }, items2)

  -- `ptr_helper<task_base_>`
  unfoldable pub write_task : Task T → Outcome (List (Item B))
  unfolding write_with
  write_task t = do
    puper ← deref (get_elem? pupers t.kind)
    items ← write_with t puper
    ok (num t.kind ∷ items)

  unfoldable pub read_task : List (Item B) → Outcome (Task T × List (Item B))
  unfolding read_with
  read_task items = do
    (kind, items1) ← read_num items
    puper ← deref (get_elem? pupers kind)
    read_with kind items1 puper

  abbrev pub pup_task : Pup B (Task T)
  pup_task = record { write = write_task; read = read_task }

-- `task_payload::pup`; `address` is that of a message. A message that is unpacked has one of its own.
module _ {B M : Type 0} (pup_message : Pup B M) (address : M → ℕ) where
  unfoldable pub write_payload : MovedPayload M → Outcome (List (Item B))
  write_payload p = pup_message.write p.src >>= λ items.
      ok (items ++ (num p.len ∷ num ((p.data_at + (2 ^ 64 - address p.src)) % 2 ^ 64) ∷ []))

  unfoldable pub read_payload : List (Item B) → Outcome (MovedPayload M × List (Item B))
  read_payload items = do
    (src, items1) ← pup_message.read items
    (len, items2) ← read_num items1
    (offset, items3) ← read_num items2
    ok (record { src = src; len = len; data_at = (address src + offset) % 2 ^ 64 }, items3)

  abbrev pub pup_payload : Pup B (MovedPayload M)
  pup_payload = record { write = write_payload; read = read_payload }

-- A task id and a number of a continuation are written as their bytes, a pair part by part.
abbrev pub pup_num : {B : Type 0} → Pup B ℕ
pup_num = record { write = λ n. ok (num n ∷ []); read = read_num }

abbrev pub read_id : {B : Type 0} → List (Item B) → Outcome (TaskId × List (Item B))
read_id (int host ∷ num task ∷ rest) = ok (record { host = host; task = task }, rest)
read_id _ = fault

abbrev pub pup_id : {B : Type 0} → Pup B TaskId
pup_id = record { write = λ tid. ok (int tid.host ∷ num tid.task ∷ []); read = read_id }

module _ {B X Y : Type 0} (px : Pup B X) (py : Pup B Y) where
  abbrev pub write_pair : X × Y → Outcome (List (Item B))
  write_pair (x, y) = do items ← px.write x; items1 ← py.write y; ok (items ++ items1)

  abbrev pub read_pair : List (Item B) → Outcome ((X × Y) × List (Item B))
  read_pair items = do
    (x, items1) ← px.read items
    (y, items2) ← py.read items1
    ok ((x, y), items2)

  abbrev pub pup_pair : Pup B (X × Y)
  pup_pair = record { write = write_pair; read = read_pair }

-- `workgroup::pup`; `pup_list` is what Charm++ does with a container.
module _ {B M T : Type 0} (pup_list : (X : Type 0) → Pup B X → Pup B (List X))
    (pupers : List (Pup B T)) (pup_message : Pup B M) (address : M → ℕ) where
  abbrev pub pup_tasks : Pup B (List (TaskId × Task T))
  pup_tasks = pup_list _ (pup_pair pup_id (pup_task pupers))

  abbrev pub pup_buffers : Pup B (List (TaskId × List (ℕ × List (MovedPayload M))))
  pup_buffers = pup_list _ (
      pup_pair pup_id
        (pup_list _ (pup_pair pup_num (pup_list _ (pup_payload pup_message address)))))

  unfoldable pub write_group : MovedGroup M T → Outcome (List (Item B))
  write_group w = do
    items ← pup_tasks.write w.tasks
    items1 ← pup_buffers.write w.buffers
    ok (num w.last_task ∷ (items ++ items1))

  unfoldable pub read_group : List (Item B) → Outcome (MovedGroup M T × List (Item B))
  read_group items = do
    (last, items1) ← read_num items
    (tasks, items2) ← pup_tasks.read items1
    (buffers, items3) ← pup_buffers.read items2
    ok (record { last_task = last; tasks = tasks; buffers = buffers }, items3)
