-- ===== src/Ipc/Queue/Tests.antt =====
-- A run of the model of archive/include/queue.hh with two threads, and instances of its theorems.
use charm_experiments.Ipc.Queue.Refines.{new_queue-IsStack, Steps-IsStack, exchange_check}
use charm_experiments.Ipc.Queue.Stack.{IsStack, replay}
use charm_experiments.Common.{update, ℕ, ◌≡◌, refl, ◌≢◌, some, List, [], ◌∷◌, nat_eq}
use charm_experiments.Ipc.Queue.{
  at, enqueued, exchange, new_queue, start_dequeue, start_enqueue, tail, write_next, Shared, Steps,
  idle, null, begin_enqueue, begin_dequeue, link, end_enqueue, done, then_step,
}

abbrev s0 : Shared
s0 = new_queue (λ b. null)

-- Thread 0 begins to enqueue block 7, thread 1 finds the head taken and thread 0 goes on.
abbrev s1 : Shared
s1 = start_enqueue 0 7 s0

abbrev s2 : Shared
s2 = start_dequeue 1 s1

abbrev s3 : Shared
s3 = write_next 0 7 tail s2

abbrev s4 : Shared
s4 = exchange 0 (at 7) idle s3

run_to_s3 : Steps s0 [] s3
unfolding update
run_to_s3 =
    then_step (begin_enqueue 0 7 refl refl)
      (then_step (begin_dequeue 1 refl) (then_step (link 0 7 tail refl) done))

run_to_s4 : Steps s0 (enqueued 7 ∷ []) s4
unfolding update
run_to_s4 = then_step (begin_enqueue 0 7 refl refl) (
    then_step (begin_dequeue 1 refl)
      (then_step (link 0 7 tail refl) (then_step (end_enqueue 0 7 refl) done)))

Steps-IsStack_example : (ys : List ℕ) × (replay (enqueued 7 ∷ []) [] ≡ some ys) × IsStack s4 ys
Steps-IsStack_example =
    Steps-IsStack s0 s4 (enqueued 7 ∷ []) [] run_to_s4 (new_queue-IsStack (λ b. null))

thread_0_busy : s3.threads 0 ≢ idle
unfolding update
thread_0_busy e = cc

exchange_check_example : (s3.head ≡ null) × ((u : ℕ) → u ≢ 0 → s3.threads u ≡ idle)
exchange_check_example = exchange_check (λ b. null) s3 [] 0 run_to_s3 thread_0_busy
