-- ===== src/Relay.antt =====
-- archive/xpmem-experiments/tester.cc: two processes that pass messages on through two queues in
-- shared memory; a message says where a number stands in the memory of its sender.
pub mod Sides
pub mod Turn
pub mod Course
pub mod Tests
use charm_experiments.Common.{
  Eq, ℕ, ◌+◌, ◌-◌, ◌≡◌, ◌↔◌, Bool, true, false, ◌&&◌, Option, none, some, List, [], ◌∷◌, arith,
  if◌then◌else◌, ◌>>=◌, ok, fault, Outcome, nat_eq, update, leb, ltb,
}
use charm_experiments.Lfq.{dequeue, enqueue, new_lfq, Lfq}
use charm_experiments.Ipc.Address.{length_of, base_of}

-- `sm_`
pub record Sm : Type 0 where
  pub segid : ℕ
  pub ptr : ℕ
  pub size : ℕ

-- The program runs on two PEs: 0 has `main`, and 1 has `neighbor`.
pub data Side : Type 0 where
  main_side : Side
  neighbor_side : Side

abbrev pub same_side : Side → Side → Bool
same_side main_side main_side = true
same_side neighbor_side neighbor_side = true
same_side _ _ = false

pub same_side_iff : (a b : Side) → (same_side a b ≡ true) ↔ (a ≡ b)
same_side_iff a b = ground arith

instance abbrev pub side_eq : Eq Side
side_eq = record { beq = same_side; beq_iff = same_side_iff }

pub data QueueName : Type 0 where
  send_queue : QueueName
  recv_queue : QueueName

abbrev pub same_queue : QueueName → QueueName → Bool
same_queue send_queue send_queue = true
same_queue recv_queue recv_queue = true
same_queue _ _ = false

pub same_queue_iff : (a b : QueueName) → (same_queue a b ≡ true) ↔ (a ≡ b)
same_queue_iff a b = ground arith

instance abbrev pub queue_name_eq : Eq QueueName
queue_name_eq = record { beq = same_queue; beq_iff = same_queue_iff }

-- kNumMsgs
abbrev pub num_msgs : ℕ
num_msgs = 32

-- sizeof(int)
abbrev pub sizeof_int : ℕ
sizeof_int = 4

-- The queues, the numbers that stand in the memory of each segment, and whether the loop of
-- `pseudo_scheduler` goes on.
pub record Processes : Type 0 where
  pub queues : QueueName → Lfq Sm
  pub memory : ℕ → ℕ → ℕ
  pub running : Side → Bool

-- the queue that a side takes messages from, and the one that it sends to
abbrev pub in_queue : Side → QueueName
in_queue main_side = recv_queue
in_queue neighbor_side = send_queue

abbrev pub out_queue : Side → QueueName
out_queue main_side = send_queue
out_queue neighbor_side = recv_queue

-- the number is read in the window from `base` to `bound`
abbrev pub is_attached : Sm → Bool
is_attached m =
    leb (base_of m.ptr) m.ptr && leb (m.ptr - base_of m.ptr + m.size) (length_of m.ptr m.size)

-- The segment of each side, and where its `data` stands. The calls of XPMEM succeed: in an attached
-- window stand the numbers of the segment it is attached to.
module _ (segid_of data_of : Side → ℕ) where
  -- `send_msg` of an int
  unfoldable pub send_msg : Side → Processes → Outcome Processes
  send_msg side w =
      enqueue num_msgs (record { segid = segid_of side; ptr = data_of side; size = sizeof_int })
        (w.queues (out_queue side))
      >>= λ r. ok (record w { queues = update (out_queue side) r.1 w.queues })

  -- `*(this->data) = ...`
  abbrev pub write_data : Side → ℕ → Processes → Processes
  write_data side v w = record w {
    memory = update (segid_of side) (update (data_of side) v (w.memory (segid_of side))) w.memory;
  }

  -- `recv_msg` on the number that it has read
  unfoldable pub handle_number : Side → ℕ → Processes → Outcome (Bool × Processes)
  unfolding send_msg
  handle_number side recvd w =
      (if ltb recvd (num_msgs - 1) then send_msg side (write_data side (recvd + 1) w) else ok w)
      >>= λ w'. ok (ltb recvd (num_msgs - 2), w')

  -- `recv_msg`
  unfoldable pub recv_msg : Side → Sm → Processes → Outcome (Bool × Processes)
  unfolding handle_number
  recv_msg side m w = if is_attached m then handle_number side (w.memory m.segid m.ptr) w else fault

  -- the body of `pseudo_scheduler`, given what `dequeue` returns
  unfoldable pub polled : Side → Processes → Option Sm × Lfq Sm → Outcome Processes
  unfolding recv_msg
  polled side w (none, q) = ok (record w { queues = update (in_queue side) q w.queues })
  polled side w (some m, q) =
      recv_msg side m (record w { queues = update (in_queue side) q w.queues }) >>= λ r.
      ok (record r.1 { running = update side r.0 r.1.running })

  -- one turn of the loops of `pseudo_scheduler`
  unfoldable pub poll : Side → Processes → Outcome Processes
  unfolding polled
  poll side w =
      if w.running side then dequeue num_msgs (w.queues (in_queue side)) >>= polled side w else ok w

  -- The sides take turns in an order that is not fixed.
  abbrev pub schedule : List Side → Processes → Outcome Processes
  schedule [] w = ok w
  schedule (side ∷ sides) w = poll side w >>= schedule sides

  -- the constructors of the chares
  unfoldable pub start_relay : (ℕ → ℕ → ℕ) → Outcome Processes
  unfolding send_msg
  start_relay memory = send_msg main_side (
      write_data main_side 0
        (record { queues = λ name. new_lfq; memory = memory; running = λ side. true }))
