-- ===== src/Lfq.antt =====
-- archive/lfq/ipc_lfq.hh: a bounded queue of `n` slots in shared memory, as one caller at a time sees
-- it: a lock that is free is taken at once.
pub mod Fifo
pub mod Runs
pub mod Threads
pub mod Tester
pub mod Tests
use charm_experiments.Common.{
  abort, Outcome, update, ensure, ◌>>◌, leb, ltb, ℕ, ◌+◌, ◌-◌, ◌%◌, ◌^◌, Bool, true, false, Option,
  none, some, [], arith, if◌then◌else◌, ok, nat_eq,
}

-- `ipc_lfq<T, N>`; a slot has a value or not. `head` and `count` are of type std::size_t.
pub record Lfq (V : Type 0) : Type 0 where
  pub head : ℕ
  pub count : ℕ
  pub tail : ℕ
  pub slots : ℕ → Option V

-- `ipc_lfq(fd)`
abbrev pub new_lfq : {V : Type 0} → Lfq V
new_lfq = record { head = 0; count = 0; tail = 0; slots = λ i. none }

-- fetch_add(1)
abbrev pub add_size : ℕ → ℕ
add_size a = (a + 1) % 2 ^ 64

-- the part of `enqueue` under the lock of a slot, given what the slot holds
unfoldable pub store : {V : Type 0} → ℕ → V → Option V → Lfq V → Outcome (Bool × Lfq V)
store i v none q = ok (true, record q { slots = update i (some v) q.slots })
store i v (some w) q = abort

-- the part of `dequeue` from the lock of a slot on, given what the slot holds
unfoldable pub fetch : {V : Type 0} → ℕ → Option V → Lfq V → Outcome (Option V × Lfq V)
fetch n none q = ok (none, q)
fetch n (some v) q =
    ensure (ltb 0 q.count)
    >> ok (
      some v,
      record q {
        slots = update q.tail none q.slots;
        tail = if leb n (q.tail + 1) then 0 else q.tail + 1;
        count = q.count - 1;
      },
    )

module _ {V : Type 0} (n : ℕ) where
  -- `enqueue`; a queue that is full gives its number of values back.
  unfoldable pub enqueue : V → Lfq V → Outcome (Bool × Lfq V)
  unfolding store
  enqueue v q =
      if leb n q.count
      then ok (false, q)
      else store (q.head % n) v (q.slots (q.head % n))
          (record q { head = add_size q.head; count = add_size q.count })

  -- `dequeue`
  unfoldable pub dequeue : Lfq V → Outcome (Option V × Lfq V)
  unfolding fetch
  dequeue q = fetch n (q.slots q.tail) q
