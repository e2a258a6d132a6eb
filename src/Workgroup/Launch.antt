-- ===== src/Workgroup/Launch.antt =====
-- The ends of archive/path2.0/include/hypercomm/workgroup.hpp: the ids of new tasks, payloads that a
-- reduction carries, and the addresses in a message that moves.
use charm_experiments.Common.{
  map, length, ap₂, ◌>>◌, ensure, some-injective, abort, Outcome, get_elem?, ℕ, zero, suc, ◌+◌, ◌-◌,
  ◌%◌, ◌^◌, ◌≤◌, ◌<◌, ◌≡◌, refl, sym, ap, ◌∙◌, ◌≢◌, some, List, [], ◌∷◌, arith, ◌==◌, ◌>>=◌, ok,
  nat_eq,
}
use charm_experiments.Workgroup.{resume, Registry, TaskId, Workgroup, generate_id, task_id_eq}

-- `CkReduction::tupleElement`, with what its bytes are as a task id and as data
pub record TupleElement (P : Type 0) : Type 0 where
  pub data_size : ℕ
  pub as_task : TaskId
  pub as_payload : P

-- `CkReductionMsg`: its reference number and its tuple
pub record ReductionMsg (P : Type 0) : Type 0 where
  pub ref : ℕ
  pub results : List (TupleElement P)

-- `sizeof(task_id)`
abbrev pub sizeof_task_id : ℕ
sizeof_task_id = 8

-- What `task<T>::reduce` contributes in a host whose active task is `tid`: the id and the data. The
-- bytes of each element read as the other type are in `junk`.
abbrev pub contribution :
    {P : Type 0} → TaskId → ℕ → P → TaskId × P → TupleElement P × TupleElement P
contribution tid size contents junk = (
  record { data_size = sizeof_task_id; as_task = tid; as_payload = junk.1 },
  record { data_size = size; as_task = junk.0; as_payload = contents },
)

-- The message that comes of the contributions of all elements with reference number `id`. What
-- Charm++ makes of the ids, by CkReduction::bitvec_and_int, and of the data, by the reducer that the
-- task names, is `and_ids` and `combine`.
module _ {P : Type 0} (and_ids : List TaskId → TaskId) (combine : List P → P) where
  abbrev pub reduction_msg :
      ℕ → ℕ → List (TupleElement P × TupleElement P) → TaskId × P → ReductionMsg P
  reduction_msg id size contributions junk = record {
    ref = id;
    results =
        record {
          data_size = sizeof_task_id;
          as_task = and_ids (map (λ c. c.0.as_task) contributions);
          as_payload = junk.1;
        }
        ∷ record {
          data_size = size;
          as_task = junk.0;
          as_payload = combine (map (λ c. c.1.as_payload) contributions);
        }
        ∷ [];
  }

abbrev pub copies : {A : Type 0} → ℕ → A → List A
copies zero x = []
copies (suc n) x = x ∷ copies n x

module _ {P T : Type 0} (rt : Registry P T) where
  -- `resume(CkReductionMsg *)`, given the tuple of the message
  unfoldable pub resume_results :
      ℕ → ℕ → List (TupleElement P) → Workgroup P T → Outcome (Workgroup P T)
  resume_results fuel ref (first ∷ second ∷ []) w =
      ensure (first.data_size == sizeof_task_id)
      >> resume rt fuel first.as_task (record { ref = ref; contents = second.as_payload }) w
  resume_results fuel ref _ w = abort

  unfoldable pub resume_reduction : ℕ → ReductionMsg P → Workgroup P T → Outcome (Workgroup P T)
  unfolding resume_results
  resume_reduction fuel msg w = resume_results fuel msg.ref msg.results w

  module _ (and_ids : List TaskId → TaskId) (combine : List P → P) where
    -- what the hosts of the same task contribute, each with its own data
    abbrev pub contributed_by :
        TaskId → ℕ → List (P × TaskId × P) → List (TupleElement P × TupleElement P)
    contributed_by tid size [] = []
    contributed_by tid size (d ∷ ds) =
        contribution tid size d.0 (d.1, d.2) ∷ contributed_by tid size ds

    same_task_ids :
        (tid : TaskId) (size : ℕ) (ds : List (P × TaskId × P))
        → map (λ c. c.0.as_task) (contributed_by tid size ds) ≡ copies (length ds) tid
    same_task_ids tid size [] = refl
    same_task_ids tid size (d ∷ ds) = ap (λ ts. tid ∷ ts) (same_task_ids tid size ds)

    all_data :
        (tid : TaskId) (size : ℕ) (ds : List (P × TaskId × P))
        → map (λ c. c.1.as_payload) (contributed_by tid size ds) ≡ map (λ d. d.0) ds
    all_data tid size [] = refl
    all_data tid size (d ∷ ds) = ap (λ xs. d.0 ∷ xs) (all_data tid size ds)

    -- Where the hosts of one task contribute to a reduction, and Charm++ makes of copies of an id the
    -- same id, the message of the reduction comes to that task, as a payload for the continuation that
    -- `reduce` names, with what the reducer makes of the data of all hosts.
    pub resume_reduction-reduction_msg :
        (fuel : ℕ) (tid : TaskId) (id size : ℕ) (d : P × TaskId × P) (ds : List (P × TaskId × P))
        (junk : TaskId × P)
        → and_ids (tid ∷ copies (length ds) tid) ≡ tid
        → (w : Workgroup P T)
        → resume_reduction fuel
            (reduction_msg and_ids combine id size (contributed_by tid size (d ∷ ds)) junk)
            w
          ≡ resume rt fuel tid (record { ref = id; contents = combine (d.0 ∷ map (λ d. d.0) ds) }) w
    unfolding resume_reduction resume_results
    resume_reduction-reduction_msg fuel tid id size d ds junk and_same w =
        ap₂ (λ t xs. resume rt fuel t (record { ref = id; contents = combine (d.0 ∷ xs) }) w)
          (ap (λ ts. and_ids (tid ∷ ts)) (same_task_ids tid size ds) ∙ and_same)
          (all_data tid size ds)

-- `launch`, on the elements of the group that are on this PE: the id and the state of the first
-- element after it.
abbrev pub launch_id :
    {P T : Type 0} → List (Workgroup P T) → Outcome (TaskId × List (Workgroup P T))
launch_id [] = abort
launch_id (w ∷ ws) = let (tid, w') = generate_id w in ok (tid, w' ∷ ws)

-- the ids of `n` launches in a row
abbrev pub launch_ids : {P T : Type 0} → ℕ → List (Workgroup P T) → Outcome (List TaskId)
launch_ids zero ws = ok []
launch_ids (suc n) ws = do (tid, ws') ← launch_id ws; rest ← launch_ids n ws'; ok (tid ∷ rest)

next_number : (a i : ℕ) → ((a + 1) % 2 ^ 32 + i) % 2 ^ 32 ≡ (a + suc i) % 2 ^ 32
next_number a i = omega arith

numbers_differ : (a i j : ℕ) → i < j → j < 2 ^ 32 → (a + i) % 2 ^ 32 ≢ (a + j) % 2 ^ 32
numbers_differ a i j lt lt' e = omega arith

module _ {P T : Type 0} where
  numbered :
      (w : Workgroup P T) (ids : List TaskId) (n : ℕ)
      → w.last_task < 2 ^ 32
      → ((i : ℕ)
          → i < n
          → get_elem? ids i
            ≡ some
                (record { host = w.this_index; task = ((generate_id w).1.last_task + i) % 2 ^ 32 }))
      → (i : ℕ) → i < suc n
      → get_elem? ((generate_id w).0 ∷ ids) i
        ≡ some (record { host = w.this_index; task = (w.last_task + i) % 2 ^ 32 })
  unfolding generate_id
  numbered w ids n bound each zero lt =
      ap (λ k. some (record { host = w.this_index; task = k })) (omega arith)
  numbered w ids n bound each (suc i) lt =
      each i (omega arith)
      ∙ ap (λ k. some (record { host = w.this_index; task = k })) (next_number w.last_task i)

  launch_ids_numbered :
      (n : ℕ) (w : Workgroup P T) (ws : List (Workgroup P T))
      → w.last_task < 2 ^ 32
      → (ids : List TaskId) × (launch_ids n (w ∷ ws) ≡ ok ids)
        × ((i : ℕ)
            → i < n
            → get_elem? ids i
              ≡ some (record { host = w.this_index; task = (w.last_task + i) % 2 ^ 32 }))
  unfolding generate_id
  launch_ids_numbered zero w ws bound = ([], refl, λ i lt. elim lt [ ])
  launch_ids_numbered (suc n) w ws bound =
      let (ids, run, each) = launch_ids_numbered n (generate_id w).1 ws (omega arith) in
      (
        (generate_id w).0 ∷ ids,
        ap (λ o. o >>= λ rest. ok ((generate_id w).0 ∷ rest)) run,
        numbered w ids n bound each,
      )

  -- No id is given twice in up to 2 ^ 32 launches in a row from one element: they all succeed, and
  -- two of their ids differ.
  pub launch_ids_distinct :
      (n : ℕ) (w : Workgroup P T) (ws : List (Workgroup P T))
      → w.last_task < 2 ^ 32
      → n ≤ 2 ^ 32
      → (ids : List TaskId) × (launch_ids n (w ∷ ws) ≡ ok ids)
        × ((i j : ℕ) → i < j → j < n → get_elem? ids i ≢ get_elem? ids j)
  launch_ids_distinct n w ws bound le =
      let (ids, run, each) = launch_ids_numbered n w ws bound in
      (
        ids,
        run,
        λ i j lt lt' e.
            numbers_differ w.last_task i j lt (omega arith)
              (ap TaskId.task (some-injective (sym (each i (omega arith)) ∙ e ∙ each j lt'))),
      )

-- pointer arithmetic on `std::uintptr_t`
abbrev pub add_u64 : ℕ → ℕ → ℕ
add_u64 a b = (a + b) % 2 ^ 64

abbrev pub sub_u64 : ℕ → ℕ → ℕ
sub_u64 a b = (a + (2 ^ 64 - b)) % 2 ^ 64

-- `task_message::pack` and `unpack` of a message at address `msg`: what becomes of `data`
abbrev pub pack : ℕ → ℕ → ℕ
pack msg contents = sub_u64 contents msg

abbrev pub unpack : ℕ → ℕ → ℕ
unpack msg contents = add_u64 msg contents

-- The data of a message keep its place in the message when it is packed at one address and
-- unpacked at another.
pub unpack-pack :
    (old new offset : ℕ)
    → old < 2 ^ 64
    → unpack new (pack old (add_u64 old offset)) ≡ add_u64 new offset
unpack-pack old new offset lt = omega arith
