-- ===== src/Relay/Sides.antt =====
-- The two sides of archive/xpmem-experiments/tester.cc and what is true between their turns.
use charm_experiments.Relay.{
  num_msgs, sizeof_int, Processes, Sm, in_queue, main_side, neighbor_side, out_queue, side_eq,
  queue_name_eq, Side,
}
use charm_experiments.Lfq.Fifo.{IsFifo}
use charm_experiments.Common.{
  ℕ, zero, suc, ◌+◌, ◌≤◌, ◌<◌, ◌≡◌, refl, ap, ◌≢◌, ◌⊎◌, inl, inr, true, false, [], ◌∷◌, arith,
  nat_eq, leb,
}

abbrev pub other : Side → Side
other main_side = neighbor_side
other neighbor_side = main_side

-- The side that the message with number `k` goes to
abbrev pub turn : ℕ → Side
turn zero = neighbor_side
turn (suc k) = other (turn k)

pub other_ne : (t : Side) → in_queue t ≢ in_queue (other t)
other_ne main_side e = cc
other_ne neighbor_side e = cc

pub out_queue-in_queue : (t : Side) → out_queue t ≡ in_queue (other t)
out_queue-in_queue main_side = refl
out_queue-in_queue neighbor_side = refl

pub other-other : (t : Side) → other (other t) ≡ t
other-other main_side = refl
other-other neighbor_side = refl

pub sides_differ : main_side ≢ neighbor_side
sides_differ e = cc

pub turn_suc : (k : ℕ) → other (turn k) ≡ turn (k + 1)
turn_suc k = let e : suc k ≡ k + 1 = omega arith in ap turn e

pub one_of_two : (t u : Side) → (u ≡ t) ⊎ (u ≡ other t)
one_of_two main_side main_side = inl refl
one_of_two main_side neighbor_side = inr refl
one_of_two neighbor_side main_side = inr refl
one_of_two neighbor_side neighbor_side = inl refl

pub ne_other : (t : Side) → other t ≢ t
ne_other main_side e = cc
ne_other neighbor_side e = cc

module _ (segid_of data_of : Side → ℕ) where
  abbrev pub msg_of : Side → Sm
  msg_of side = record { segid = segid_of side; ptr = data_of side; size = sizeof_int }

  -- The message with number `k` is on its way to `t`, whose turn it is.
  pub record IsFlying (k : ℕ) (t : Side) (w : Processes) : Type 0 where
    pub small : k < num_msgs
    pub whose : t ≡ turn k
    pub full : IsFifo num_msgs (w.queues (in_queue t)) (msg_of (other t) ∷ [])
    pub empty : IsFifo num_msgs (w.queues (in_queue (other t))) []
    pub few_in : (w.queues (in_queue t)).head ≤ k + 1
    pub few_out : (w.queues (in_queue (other t))).head ≤ k + 1
    pub number : w.memory (segid_of (other t)) (data_of (other t)) ≡ k
    pub main_runs : w.running main_side ≡ true
    pub neighbor_runs : w.running neighbor_side ≡ leb k 30

  -- All messages have been received, and both loops have ended.
  pub record IsOver (w : Processes) : Type 0 where
    pub no_message : (side : Side) → IsFifo num_msgs (w.queues (in_queue side)) []
    pub stopped : (side : Side) → w.running side ≡ false
