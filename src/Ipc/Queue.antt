-- ===== src/Ipc/Queue.antt =====
-- archive/include/queue.hh: the queue of blocks, as the atomic steps of the threads that use it.
pub mod Stack
pub mod Refines
pub mod Tests
use charm_experiments.Common.{
  ℕ, ◌≡◌, Bool, true, false, Option, none, some, List, [], ◌∷◌, ◌++◌, arith, if◌then◌else◌, nat_eq,
  update,
}

-- a `block *`: a null pointer, `kTail`, or the address of a block, given by a number
pub data Pointer : Type 0 where
  null tail : Pointer
  at : ℕ → Pointer

-- Where a thread stands in `enqueue` or `dequeue`: the shared steps of the two functions are their
-- exchanges of the head, the write of `next` and the read of it.
pub data Local : Type 0 where
  idle : Local
  putting : ℕ → Pointer → Local  -- `prev` was taken from the head
  linked : ℕ → Local  -- `next` of the block was written
  taking : Pointer → Local  -- `prev` was taken from the head
  unlinked : Pointer → Pointer → Local  -- `prev`, and `next` was read

-- `queue`, the blocks' `next` fields and the threads. `lent` marks the blocks that the queue has
-- been given: a client gives it no block twice.
pub record Shared : Type 0 where
  pub head : Pointer
  pub next : ℕ → Pointer
  pub threads : ℕ → Local
  pub lent : ℕ → Bool

-- `queue(pe)`
abbrev pub new_queue : (ℕ → Pointer) → Shared
new_queue next = record { head = tail; next = next; threads = λ t. idle; lent = λ b. false }

-- what a call returns when it gets the head: an enqueue, and a dequeue with its result
pub data Event : Type 0 where
  enqueued : ℕ → Event
  dequeued : Option ℕ → Event

abbrev pub is_null : Pointer → Bool
is_null null = true
is_null _ = false

-- `head.exchange(value)` gives the old head, which the code keeps in the thread's state.
abbrev pub exchange : ℕ → Pointer → Local → Shared → Shared
exchange t value local s = record s { head = value; threads = update t local s.threads }

-- the first exchange of `enqueue`: it returns false where the head is null
abbrev pub start_enqueue : ℕ → ℕ → Shared → Shared
start_enqueue t b s =
    if is_null s.head
    then exchange t null idle s
    else record (exchange t null (putting b s.head) s) { lent = update b true s.lent }

-- `loc->next = prev`
abbrev pub write_next : ℕ → ℕ → Pointer → Shared → Shared
write_next t b prev s = record s {
  next = update b prev s.next;
  threads = update t (linked b) s.threads;
}

-- the first exchange of `dequeue`: it returns a null pointer where the head is null
abbrev pub start_dequeue : ℕ → Shared → Shared
start_dequeue t s = exchange t null (if is_null s.head then idle else taking s.head) s

-- `nil ? prev : prev->next`
abbrev pub next_of : Pointer → Shared → Pointer
next_of (at b) s = s.next b
next_of p s = p

-- `nil ? nullptr : prev`
abbrev pub block_of : Pointer → Option ℕ
block_of (at b) = some b
block_of p = none

abbrev pub give_back : Option ℕ → (ℕ → Bool) → ℕ → Bool
give_back none lent = lent
give_back (some b) lent = update b false lent

-- One step of one thread, and the event of the step that ends a call.
pub data Step : Shared → List Event → Shared → Type 0 where
  begin_enqueue :
      {s : Shared} (t b : ℕ)
      → s.threads t ≡ idle
      → s.lent b ≡ false
      → Step s [] (start_enqueue t b s)
  link :
      {s : Shared} (t b : ℕ) (prev : Pointer)
      → s.threads t ≡ putting b prev
      → Step s [] (write_next t b prev s)
  end_enqueue :
      {s : Shared} (t b : ℕ)
      → s.threads t ≡ linked b
      → Step s (enqueued b ∷ []) (exchange t (at b) idle s)
  begin_dequeue : {s : Shared} (t : ℕ) → s.threads t ≡ idle → Step s [] (start_dequeue t s)
  read :
      {s : Shared} (t : ℕ) (prev : Pointer)
      → s.threads t ≡ taking prev
      → Step s [] (record s { threads = update t (unlinked prev (next_of prev s)) s.threads })
  end_dequeue :
      {s : Shared} (t : ℕ) (prev next : Pointer)
      → s.threads t ≡ unlinked prev next
      → Step s
          (dequeued (block_of prev) ∷ [])
          (record (exchange t next idle s) { lent = give_back (block_of prev) s.lent })

pub data Steps : Shared → List Event → Shared → Type 0 where
  done : {s : Shared} → Steps s [] s
  then_step :
      {s s' s'' : Shared} {es fs : List Event}
      → Step s es s'
      → Steps s' fs s''
      → Steps s (es ++ fs) s''
