-- ===== src/Lfq/Threads.antt =====
-- archive/lfq/ipc_lfq.hh with any number of producers and one consumer: the atomic steps of
-- `enqueue` and `dequeue`. What a thread does to a slot under its lock is one step, with the release
-- of the lock; `tail` belongs to the consumer.
pub mod Total
pub mod Invariant
pub mod Enqueuing
pub mod Dequeuing
pub mod Order
pub mod Tests
use charm_experiments.Common.{
  ℕ, ◌+◌, ◌-◌, ◌%◌, ◌^◌, ◌<◌, ◌≡◌, Bool, true, false, Option, none, some, List, [], ◌∷◌, ◌++◌,
  arith, if◌then◌else◌, nat_eq, update, leb,
}
use charm_experiments.Lfq.{add_size}

-- Where a producer stands in `enqueue`.
pub data Producer (V : Type 0) : Type 0 where
  idle : Producer V
  reserved : V → Producer V  -- `count` was below the number of slots
  refused : Producer V  -- `count` was not
  ticket : ℕ → V → Producer V  -- the old `head`
  locked : ℕ → V → Producer V  -- the slot's lock is taken

-- Where the consumer stands in `dequeue`.
pub data Consumer (V : Type 0) : Type 0 where
  resting : Consumer V
  looking : Consumer V  -- the lock of the slot at `tail` is taken
  taken : V → Consumer V  -- the value was copied, and the slot cleared and released

pub record Shared (V : Type 0) : Type 0 where
  pub head : ℕ
  pub count : ℕ
  pub tail : ℕ
  pub slots : ℕ → Option V
  pub locks : ℕ → Bool
  pub producers : ℕ → Producer V
  pub consumer : Consumer V

abbrev pub fresh : {V : Type 0} → Shared V
fresh = record {
  head = 0;
  count = 0;
  tail = 0;
  slots = λ i. none;
  locks = λ i. false;
  producers = λ i. idle;
  consumer = resting;
}

-- fetch_sub(1)
abbrev pub sub_size : ℕ → ℕ
sub_size a = (a + (2 ^ 64 - 1)) % 2 ^ 64

-- A step may fix the place of a value in the queue, or hand the value at the front to the caller.
pub data Event (V : Type 0) : Type 0 where
  silent : Event V
  enqueued : V → Event V
  dequeued : V → Event V

module _ {V : Type 0} where
  abbrev pub go : ℕ → Producer V → Shared V → Shared V
  go i p s = record s { producers = update i p s.producers }

  -- `count.fetch_add(1)`, and the test of what it returns
  abbrev pub reserve_step : ℕ → ℕ → V → Shared V → Shared V
  reserve_step n i v s = record (go i (if leb n s.count then refused else reserved v) s) {
    count = add_size s.count;
  }

  -- `count.fetch_sub(1)` of a producer that found the queue full
  abbrev pub refuse_step : ℕ → Shared V → Shared V
  refuse_step i s = record (go i idle s) { count = sub_size s.count }

  -- `head.fetch_add(1)`
  abbrev pub ticket_step : ℕ → V → Shared V → Shared V
  ticket_step i v s = record (go i (ticket s.head v) s) { head = add_size s.head }

  -- `acquire` of a free lock
  abbrev pub lock_step : ℕ → ℕ → ℕ → V → Shared V → Shared V
  lock_step n i h v s = record (go i (locked h v) s) { locks = update (h % n) true s.locks }

  -- the write of the slot and `release`
  abbrev pub store_step : ℕ → ℕ → ℕ → V → Shared V → Shared V
  store_step n i h v s = record (go i idle s) {
    slots = update (h % n) (some v) s.slots;
    locks = update (h % n) false s.locks;
  }

  abbrev pub look_step : Shared V → Shared V
  look_step s = record s { consumer = looking; locks = update s.tail true s.locks }

  -- What the consumer reads in the slot decides how it goes on. An empty slot is left as it is.
  abbrev pub consumer_after : Option V → Consumer V
  consumer_after none = resting
  consumer_after (some v) = taken v

  abbrev pub fetch_step : Shared V → Shared V
  fetch_step s = record s {
    consumer = consumer_after (s.slots s.tail);
    slots = update s.tail none s.slots;
    locks = update s.tail false s.locks;
  }

  -- the step of `tail` and `count.fetch_sub(1)`
  abbrev pub finish_step : ℕ → Shared V → Shared V
  finish_step n s = record s {
    consumer = resting;
    tail = if leb n (s.tail + 1) then 0 else s.tail + 1;
    count = sub_size s.count;
  }

-- One step of one of `k` producers or of the consumer, on `n` slots.
pub data Step {V : Type 0} (n k : ℕ) (s : Shared V) : Event V → Shared V → Type 0 where
  reserves :
      (i : ℕ) (v : V) → i < k → s.producers i ≡ idle → Step n k s silent (reserve_step n i v s)
  refuses : (i : ℕ) → i < k → s.producers i ≡ refused → Step n k s silent (refuse_step i s)
  takes_ticket :
      (i : ℕ) (v : V)
      → i < k
      → s.producers i ≡ reserved v
      → Step n k s (enqueued v) (ticket_step i v s)
  takes_lock :
      (i h : ℕ) (v : V)
      → i < k
      → s.producers i ≡ ticket h v
      → s.locks (h % n) ≡ false
      → Step n k s silent (lock_step n i h v s)
  stores :
      (i h : ℕ) (v : V)
      → i < k
      → s.producers i ≡ locked h v
      → Step n k s silent (store_step n i h v s)
  looks : s.consumer ≡ resting → s.locks s.tail ≡ false → Step n k s silent (look_step s)
  fetches : s.consumer ≡ looking → Step n k s silent (fetch_step s)
  finishes : (v : V) → s.consumer ≡ taken v → Step n k s (dequeued v) (finish_step n s)

abbrev pub in_of : {V : Type 0} → Event V → List V
in_of (enqueued v) = v ∷ []
in_of _ = []

abbrev pub out_of : {V : Type 0} → Event V → List V
out_of (dequeued v) = v ∷ []
out_of _ = []

-- A state that the threads can reach, with the values that were given a place in the queue and the
-- values that were dequeued, both in their order.
pub data Reach {V : Type 0} (n k : ℕ) : List V → List V → Shared V → Type 0 where
  start : Reach n k [] [] fresh
  later :
      {ins outs : List V} {s s' : Shared V} {e : Event V}
      → Reach n k ins outs s
      → Step n k s e s'
      → Reach n k (ins ++ in_of e) (outs ++ out_of e) s'
