-- ===== src/Workgroup.antt =====
-- archive/path2.0/include/hypercomm/workgroup.hpp: one element of a workgroup, the tasks that it
-- hosts and the payloads that wait for them. `P` is the data of a payload and `T` the user's part
-- of a task.
pub mod Settle
pub mod Total
pub mod Operations
pub mod Order
pub mod Rounds
pub mod Early
pub mod Commute
pub mod Launch
pub mod Pup
pub mod Tests
use charm_experiments.Common.{
  nat_eq, zero, arith, get_elem?, [], abort, deref, suc, ◌&&◌, ◌==◌, ◌^◌, ◌↔◌, eq_ℤ, if◌then◌else◌,
  none, ok, out_of_fuel, some, true, update, ◌%◌, ◌>>=◌, ◌∷◌, Bool, Eq, List, Option, Outcome,
  false, ℤ, ◌++◌, ◌+◌, ◌≡◌, ℕ,
}

-- `task_id`
pub record TaskId : Type 0 where
  pub host : ℤ
  pub task : ℕ  -- std::uint32_t

-- `operator==`
abbrev pub same_task : TaskId → TaskId → Bool
same_task a b = eq_ℤ a.host b.host && (a.task == b.task)

pub same_task_iff : (a b : TaskId) → (same_task a b ≡ true) ↔ (a ≡ b)
same_task_iff a b = ground arith

instance abbrev pub task_id_eq : Eq TaskId
task_id_eq = record { beq = same_task; beq_iff = same_task_iff }

-- `task_payload`; `ref` is the reference number of its message, which `id()` returns.
pub record Payload (P : Type 0) : Type 0 where
  pub ref : ℕ
  pub contents : P

-- `task_base_`, with the object of type `T` that derives from it
pub record Task (T : Type 0) : Type 0 where
  pub obj : T
  pub active : Bool
  pub kind : ℕ
  pub continuation : ℕ

-- `suspend` and `terminate`
abbrev pub suspend : {T : Type 0} → ℕ → Task T → Task T
suspend id t = record t { continuation = id }

abbrev pub terminate : {T : Type 0} → Task T → Task T
terminate t = record t { active = false }

-- What a task hands to Charm++: `resume` of one element or of all, or a contribution to a reduction
-- whose callback is `resume` of one element or of all.
pub data Sent (P : Type 0) : Type 0 where
  to_element : ℤ → TaskId → Payload P → Sent P
  to_all : TaskId → Payload P → Sent P
  reduce_to_element : ℤ → TaskId → Payload P → Sent P
  reduce_to_all : TaskId → Payload P → Sent P

-- `task<T>::send`, `broadcast`, `reduce` and `all_reduce` in a host whose active task is `tid`, for
-- the continuation with number `id`
module _ {P : Type 0} (tid : TaskId) (id : ℕ) where
  abbrev pub task_send : ℤ → P → Sent P
  task_send index args = to_element index tid (record { ref = id; contents = args })

  abbrev pub task_broadcast : P → Sent P
  task_broadcast args = to_all tid (record { ref = id; contents = args })

  abbrev pub task_reduce : ℤ → P → Sent P
  task_reduce index args = reduce_to_element index tid (record { ref = id; contents = args })

  abbrev pub task_all_reduce : P → Sent P
  task_all_reduce args = reduce_to_all tid (record { ref = id; contents = args })

-- The user's code, registered by number: the task constructors and the continuations. Both are
-- given the element's index and its active task.
pub record Registry (P T : Type 0) : Type 0 where
  pub creators : List (ℤ → TaskId → Payload P → Task T × List (Sent P))
  pub continuations : List (ℤ → TaskId → Task T → Payload P → Task T × List (Sent P))

-- `workgroup`, with all that it has handed to Charm++. A missing queue is an empty one.
pub record Workgroup (P T : Type 0) : Type 0 where
  pub this_index : ℤ
  pub active : TaskId
  pub last_task : ℕ  -- std::uint32_t
  pub tasks : TaskId → Option (Task T)
  pub buffers : TaskId → ℕ → List (Payload P)
  pub net : List (Sent P)

-- `workgroup()`; it leaves `active_` as it finds it.
abbrev pub new_workgroup : {P T : Type 0} → ℤ → TaskId → Workgroup P T
new_workgroup index indeterminate = record {
  this_index = index;
  active = indeterminate;
  last_task = 0;
  tasks = λ tid. none;
  buffers = λ tid id. [];
  net = [];
}

-- the task that a call of user code leaves is kept while it is active
abbrev pub keep_task : {T : Type 0} → Task T → Option (Task T)
keep_task t = if t.active then some t else none

module _ {P T : Type 0} where
  -- `generate_id`
  unfoldable pub generate_id : Workgroup P T → TaskId × Workgroup P T
  generate_id w = (
    record { host = w.this_index; task = w.last_task },
    record w { last_task = (w.last_task + 1) % 2 ^ 32 },
  )

  -- the queue of a task for one of its continuations becomes `q`
  abbrev pub with_queue : TaskId → ℕ → List (Payload P) → Workgroup P T → Workgroup P T
  with_queue tid id q w = record w { buffers = update tid (update id q (w.buffers tid)) w.buffers }

  -- `buffer_`
  abbrev pub buffer_payload : TaskId → Payload P → Workgroup P T → Workgroup P T
  buffer_payload tid p w = with_queue tid p.ref (w.buffers tid p.ref ++ (p ∷ [])) w

  abbrev pub after_call : TaskId → Task T × List (Sent P) → Workgroup P T → Workgroup P T
  after_call tid r w = record w {
    active = tid;
    tasks = update tid (keep_task r.0) w.tasks;
    net = w.net ++ r.1;
  }

module _ {P T : Type 0} (rt : Registry P T) where
  -- `resume(tid, payload, active)`, given the task it finds: none where the payload is rejected,
  -- and otherwise whether the task is kept.
  unfoldable pub resume_task :
      Option (Task T) → TaskId → Payload P → Workgroup P T → Outcome (Option (Bool × Workgroup P T))
  resume_task none tid p w = ok none
  resume_task (some t) tid p w =
      if t.continuation == p.ref
      then (deref (get_elem? rt.continuations t.continuation) >>= λ k.
          let r = k w.this_index tid t p in ok (some (r.0.active, after_call tid r w)))
      else ok none

  -- what `try_continue_` does after its call of `resume`
  unfoldable pub popped :
      (Workgroup P T → Outcome (Workgroup P T))
      → TaskId
      → ℕ
      → List (Payload P)
      → Workgroup P T
      → Option (Bool × Workgroup P T)
      → Outcome (Workgroup P T)
  popped next tid id rest w none = ok w
  popped next tid id rest w (some (keep, w')) =
      if keep then next (with_queue tid id rest w') else ok (with_queue tid id rest w')

  -- one round of `try_continue_`, given the queue for the task's continuation `id`
  unfoldable pub continue_round :
      (Workgroup P T → Outcome (Workgroup P T))
      → ℕ
      → List (Payload P)
      → Workgroup P T
      → Outcome (Workgroup P T)
  unfolding resume_task popped
  continue_round next id [] w = ok w
  continue_round next id (p ∷ rest) w =
      resume_task (w.tasks w.active) w.active p w >>= popped next w.active id rest w

  -- `try_continue_` on the task under `it`
  unfoldable pub try_continue : ℕ → TaskId → Workgroup P T → Outcome (Workgroup P T)
  unfolding continue_round
  try_continue zero it w = out_of_fuel
  try_continue (suc fuel) it w = deref (w.tasks it) >>= λ t.
      continue_round (try_continue fuel it) t.continuation (w.buffers w.active t.continuation) w

  -- what the two entry methods `resume` do with the result of the third one
  unfoldable pub resumed :
      ℕ
      → TaskId
      → Payload P
      → Workgroup P T
      → Option (Bool × Workgroup P T)
      → Outcome (Workgroup P T)
  resumed fuel tid p w none = ok (buffer_payload tid p w)
  resumed fuel tid p w (some (keep, w')) = if keep then try_continue fuel tid w' else ok w'

  -- `resume(task_message *)`
  unfoldable pub resume : ℕ → TaskId → Payload P → Workgroup P T → Outcome (Workgroup P T)
  unfolding resumed resume_task
  resume fuel tid p w = resume_task (w.tasks tid) tid p w >>= resumed fuel tid p w

  -- `emplace` of the new task, given what stands under its id
  unfoldable pub insert_task :
      ℕ → TaskId → Option (Task T) → Task T → Workgroup P T → Outcome (Workgroup P T)
  insert_task fuel tid (some _) t w = abort
  insert_task fuel tid none t w =
      try_continue fuel tid (record w { tasks = update tid (some t) w.tasks })

  -- `create`
  unfoldable pub create : ℕ → TaskId → ℕ → Payload P → Workgroup P T → Outcome (Workgroup P T)
  unfolding insert_task
  create fuel tid kind p w = do
    creator ← deref (get_elem? rt.creators kind)
    let r = creator w.this_index tid p
    let w1 = record w { active = tid; net = w.net ++ r.1 }
    if r.0.active then insert_task fuel tid (w.tasks tid) r.0 w1 else ok w1
