-- ===== src/Workgroup/Tests.antt =====
-- Runs of the model of archive/path2.0/include/hypercomm/workgroup.hpp, and instances of its
-- theorems: a task that reads one payload with each of two continuations.
use charm_experiments.Workgroup.Launch.{
  unpack-pack, add_u64, resume_reduction-reduction_msg, launch_ids_distinct, pack, reduction_msg,
  contribution, copies, launch_ids, resume_reduction, unpack,
}
use charm_experiments.Workgroup.Commute.{create_comm, resume_comm, SameEither}
use charm_experiments.Workgroup.Operations.{resume_settles}
use charm_experiments.Workgroup.Rounds.{create-HasCreated, HasCreated}
use charm_experiments.Workgroup.Total.{buffer_payload-IsFiled}
use charm_experiments.Common.{
  update_ne, update_self, key_cases, some-injective, get_elem?, pos, update, Outcome, ℕ, zero, suc,
  ◌+◌, ◌*◌, ◌≤◌, ◌<◌, ◌≡◌, refl, sym, subst, ◌∙◌, ◌≢◌, inl, inr, true, Option, none, some, List, [],
  ◌∷◌, arith, ◌==◌, if◌then◌else◌, ◌>>=◌, ok, nat_eq, ℤ,
}
use charm_experiments.Workgroup.{
  buffer_payload, try_continue, task_reduce, task_send, suspend, terminate, Sent, Task, create,
  new_workgroup, Payload, Registry, TaskId, Workgroup, resume, task_id_eq,
}
use charm_experiments.Workgroup.Settle.{IsReady, IsFiled, IsProper, IsSettled, queued}

abbrev tid : TaskId
tid = record { host = pos 0; task = 3 }

-- It adds the payload, sends it on to element 1 and waits for the second continuation.
abbrev first_step : ℤ → TaskId → Task ℕ → Payload ℕ → Task ℕ × List (Sent ℕ)
first_step index me t p =
    (suspend 1 (record t { obj = t.obj + p.contents }), task_send me 1 (pos 1) p.contents ∷ [])

-- It multiplies by the payload and ends the task on a zero.
abbrev second_step : ℤ → TaskId → Task ℕ → Payload ℕ → Task ℕ × List (Sent ℕ)
second_step index me t p =
    if p.contents == 0
    then (terminate t, task_reduce me 0 (pos 0) t.obj ∷ [])
    else (suspend 0 (record t { obj = t.obj * p.contents }), [])

abbrev start : ℤ → TaskId → Payload ℕ → Task ℕ × List (Sent ℕ)
start index me p = (record { obj = p.contents; active = true; kind = 0; continuation = 0 }, [])

abbrev rt : Registry ℕ ℕ
rt = record { creators = start ∷ []; continuations = first_step ∷ second_step ∷ [] }

abbrev empty_group : Workgroup ℕ ℕ
empty_group = new_workgroup (pos 0) tid

abbrev waiting : Task ℕ
waiting = record { obj = 5; active = true; kind = 0; continuation = 0 }

abbrev one_task : Workgroup ℕ ℕ
one_task = record empty_group { tasks = update tid (some waiting) empty_group.tasks }

abbrev payload : ℕ → ℕ → Payload ℕ
payload ref contents = record { ref = ref; contents = contents }

second_step_registered :
    (index : ℤ) (me : TaskId) (t : Task ℕ) (p : Payload ℕ)
    → t.continuation < 2
    → (second_step index me t p).0.continuation < 2
second_step_registered index me t p lt = ground arith

continues :
    (i : ℕ) (k : ℤ → TaskId → Task ℕ → Payload ℕ → Task ℕ × List (Sent ℕ))
    → get_elem? rt.continuations i ≡ some k
    → (index : ℤ) (me : TaskId) (t : Task ℕ) (p : Payload ℕ) → t.continuation < 2
    → (k index me t p).0.continuation < 2
continues zero k e index me t p lt =
    subst (λ f. (f index me t p).0.continuation < 2) (some-injective e) (omega arith)
continues (suc zero) k e index me t p lt =
    subst (λ f. (f index me t p).0.continuation < 2) (some-injective e)
      (second_step_registered index me t p lt)
continues (suc (suc i)) k e index me t p lt = cc

creates :
    (i : ℕ) (k : ℤ → TaskId → Payload ℕ → Task ℕ × List (Sent ℕ))
    → get_elem? rt.creators i ≡ some k
    → (index : ℤ) (me : TaskId) (p : Payload ℕ) → (k index me p).0.active ≡ true
    → (k index me p).0.continuation < 2
creates zero k e index me p a =
    subst (λ f. (f index me p).0.continuation < 2) (some-injective e) (omega arith)
creates (suc i) k e index me p a = cc

rt-IsProper : IsProper rt
rt-IsProper = record { continues = continues; creates = creates }

empty_group-IsSettled : IsSettled rt empty_group
empty_group-IsSettled j t h = cc

one_task-IsSettled : IsSettled rt one_task
one_task-IsSettled j t h = elim (key_cases j tid) [
  | inl same ↦
      subst (IsReady rt one_task j)
        (some-injective (
          sym (update_self tid (some waiting) empty_group.tasks)
          ∙ subst (λ i. one_task.tasks i ≡ some t) same h))
        (record { live = refl; registered = omega arith; drained = refl })
  | inr other ↦ ground (arith, update_ne tid j (some waiting) empty_group.tasks other)
]

empty_group-IsFiled : IsFiled empty_group
empty_group-IsFiled j i = tt

-- the task and its queue for continuation 1 after a run
abbrev seen : Outcome (Workgroup ℕ ℕ) → Option (Option (Task ℕ) × List (Payload ℕ))
seen (ok w) = some (w.tasks tid, w.buffers tid 1)
seen _ = none

-- The second payload comes first and waits; then both are read.
resume_early :
    seen (resume rt 9 tid (payload 1 7) one_task >>= resume rt 9 tid (payload 0 2))
    ≡ some (some (record { obj = 49; active = true; kind = 0; continuation = 0 }), [])
unfolding resume try_continue update
resume_early = refl

resume_settles_example :
    (w' : Workgroup ℕ ℕ) × (resume rt 1 tid (payload 1 7) one_task ≡ ok w')
    × IsSettled rt w'
    × IsFiled w'
    × ((j : TaskId) → j ≢ tid → w'.tasks j ≡ one_task.tasks j)
    × ((j : TaskId) → j ≢ tid → w'.buffers j ≡ one_task.buffers j)
resume_settles_example =
    resume_settles rt rt-IsProper 1 tid (payload 1 7) one_task one_task-IsSettled
      empty_group-IsFiled (omega arith)

-- Two payloads came before the task, one for each continuation.
abbrev early_group : Workgroup ℕ ℕ
early_group = buffer_payload tid (payload 1 7) (buffer_payload tid (payload 0 2) empty_group)

early_group-IsSettled : IsSettled rt early_group
early_group-IsSettled j t h = cc

early_group-IsFiled : IsFiled early_group
early_group-IsFiled =
    buffer_payload-IsFiled tid (payload 1 7) (buffer_payload tid (payload 0 2) empty_group)
      (buffer_payload-IsFiled tid (payload 0 2) empty_group empty_group-IsFiled)

two_early : queued 2 (early_group.buffers tid) < 3
unfolding update
two_early = omega arith

create-HasCreated_example :
    (w' : Workgroup ℕ ℕ) × (create rt 3 tid 0 (payload 0 5) early_group ≡ ok w')
    × HasCreated rt tid 0 (payload 0 5) early_group w'
    × IsSettled rt w'
    × IsFiled w'
create-HasCreated_example =
    create-HasCreated rt tid rt-IsProper 3 (payload 0 5) early_group early_group-IsSettled
      early_group-IsFiled two_early 0 (omega arith) refl

resume_comm_example :
    (N : ℕ) × (w' : Workgroup ℕ ℕ) × SameEither rt tid (payload 1 7) (payload 0 2) one_task N w'
resume_comm_example =
    resume_comm rt tid rt-IsProper one_task one_task-IsSettled empty_group-IsFiled (payload 1 7)
      (payload 0 2) (λ e. omega arith)

create_comm_example :
    (N : ℕ) × (w' : Workgroup ℕ ℕ) × ((fuel : ℕ)
      → N ≤ fuel
      → ((create rt fuel tid 0 (payload 0 5) empty_group >>= resume rt fuel tid (payload 0 2))
          ≡ ok w')
        × ((resume rt fuel tid (payload 0 2) empty_group >>= create rt fuel tid 0 (payload 0 5))
            ≡ ok w'))
create_comm_example =
    create_comm rt tid rt-IsProper empty_group empty_group-IsSettled empty_group-IsFiled
      (payload 0 5) (payload 0 2) 0 (omega arith) refl

launch_ids_distinct_example :
    (ids : List TaskId) × (launch_ids 3 (empty_group ∷ []) ≡ ok ids)
    × ((i j : ℕ) → i < j → j < 3 → get_elem? ids i ≢ get_elem? ids j)
launch_ids_distinct_example = launch_ids_distinct 3 empty_group [] (omega arith) (omega arith)

-- Two elements contribute 2 and 3 with the id of the task, and the data are added.
abbrev and_ids : List TaskId → TaskId
and_ids [] = record { host = pos 9; task = 9 }
and_ids (t ∷ ts) = t

abbrev add_all : List ℕ → ℕ
add_all [] = 0
add_all (n ∷ ns) = n + add_all ns

same_ids : (t : TaskId) (n : ℕ) → and_ids (t ∷ copies n t) ≡ t
same_ids t n = refl

resume_reduction-reduction_msg_example :
    resume_reduction rt 9
      (reduction_msg and_ids add_all 0 8
        (contribution tid 8 2 (tid, 0) ∷ (contribution tid 8 3 (tid, 0) ∷ []))
        (tid, 0))
      one_task
    ≡ resume rt 9 tid (record { ref = 0; contents = 5 }) one_task
resume_reduction-reduction_msg_example =
    resume_reduction-reduction_msg rt and_ids add_all 9 tid 0 8 (2, tid, 0) ((3, tid, 0) ∷ [])
      (tid, 0) (same_ids tid 1) one_task

moved_message : unpack 96 (pack 64 (add_u64 64 16)) ≡ add_u64 96 16
moved_message = unpack-pack 64 96 16 (omega arith)
