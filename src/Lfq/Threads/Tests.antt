-- ===== src/Lfq/Threads/Tests.antt =====
-- A run of two producers and the consumer of archive/lfq/ipc_lfq.hh on two slots: the producer with
-- the first ticket is late, so that the consumer finds its slot empty.
use charm_experiments.Lfq.Threads.{
  finishes, fetches, takes_ticket, looks, reserves, takes_lock, look_step, start, stores,
  fetch_step, finish_step, fresh, later, lock_step, reserve_step, store_step, ticket_step, Reach,
  Shared,
}
use charm_experiments.Common.{
  length, ℕ, ◌%◌, ◌≤◌, ◌≡◌, refl, none, List, [], ◌∷◌, ◌++◌, arith, nat_eq, update,
}
use charm_experiments.Lfq.Threads.Order.{locked_slot_empty, Reach-IsOrdered}

abbrev start_state : Shared ℕ
start_state = fresh

abbrev both_reserved : Shared ℕ
both_reserved = reserve_step 2 1 6 (reserve_step 2 0 5 start_state)

abbrev both_tickets : Shared ℕ
both_tickets = ticket_step 0 5 (ticket_step 1 6 both_reserved)

abbrev second_stored : Shared ℕ
second_stored = store_step 2 0 1 5 (lock_step 2 0 1 5 both_tickets)

abbrev found_nothing : Shared ℕ
found_nothing = fetch_step (look_step second_stored)

abbrev first_locked : Shared ℕ
first_locked = lock_step 2 1 0 6 found_nothing

abbrev first_taken : Shared ℕ
first_taken = finish_step 2 (fetch_step (look_step (store_step 2 1 0 6 first_locked)))

reach_tickets : Reach 2 2 (6 ∷ 5 ∷ []) [] both_tickets
unfolding update
reach_tickets =
    later
      (later
        (later (later start (reserves 0 5 (omega arith) refl)) (reserves 1 6 (omega arith) refl))
        (takes_ticket 1 6 (omega arith) refl))
      (takes_ticket 0 5 (omega arith) refl)

reach_locked : Reach 2 2 (6 ∷ 5 ∷ []) [] first_locked
unfolding update
reach_locked =
    later
      (later
        (later
          (later (later reach_tickets (takes_lock 0 1 5 (omega arith) refl refl))
            (stores 0 1 5 (omega arith) refl))
          (looks refl refl))
        (fetches refl))
      (takes_lock 1 0 6 (omega arith) refl refl)

reach_taken : Reach 2 2 (6 ∷ 5 ∷ []) (6 ∷ []) first_taken
unfolding update
reach_taken =
    later
      (later (later (later reach_locked (stores 1 0 6 (omega arith) refl)) (looks refl refl))
        (fetches refl))
      (finishes 6 refl)

Reach-IsOrdered_example : (rest : List ℕ) × (6 ∷ 5 ∷ [] ≡ (6 ∷ []) ++ rest) × (length rest ≤ 2)
Reach-IsOrdered_example =
    Reach-IsOrdered 2 2 (omega arith) (omega arith) (6 ∷ 5 ∷ []) (6 ∷ []) first_taken (omega arith)
      reach_taken

locked_slot_empty_example : first_locked.slots (0 % 2) ≡ none
unfolding update
locked_slot_empty_example =
    locked_slot_empty 2 2 (omega arith) (omega arith) (6 ∷ 5 ∷ []) [] first_locked 1 0 6
      (omega arith) reach_locked (omega arith) refl
