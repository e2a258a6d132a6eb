-- ===== src/Lfq/Tester.antt =====
-- archive/lfq/tester.cc: two processes that send each other the numbers from 1 to 16, 16 times. A call
-- of the queue is one step.
pub mod Course
pub mod Channels
pub mod Progress
pub mod Turns
pub mod Orders
pub mod Tests
use charm_experiments.Lfq.{dequeue, enqueue, new_lfq, Lfq}
use charm_experiments.Common.{
  Eq, ℕ, zero, suc, ◌+◌, ◌-◌, ◌*◌, ◌/◌, ◌%◌, ◌^◌, ◌≤◌, ◌<◌, ◌≡◌, refl, sym, ap, ap₂, subst, fun_ext,
  ◌∙◌, ◌≢◌, ◌↔◌, ◌⊎◌, inl, inr, Bool, true, false, not, ◌&&◌, ◌||◌, Option, none, some, List, [],
  ◌∷◌, ◌++◌, arith, ◌==◌, if◌then◌else◌, ◌>>=◌, ◌>>◌, ok, abort, fault, out_of_fuel, Outcome,
  ensure, deref, nat_eq, ℤ, update, leb, ltb,
}

-- `procNum`; every number but 0 is taken as 1.
pub data Proc : Type 0 where
  proc_0 : Proc
  proc_1 : Proc

abbrev pub same_proc : Proc → Proc → Bool
same_proc proc_0 proc_0 = true
same_proc proc_1 proc_1 = true
same_proc _ _ = false

pub same_proc_iff : (a b : Proc) → (same_proc a b ≡ true) ↔ (a ≡ b)
same_proc_iff a b = ground arith

instance abbrev pub proc_eq : Eq Proc
proc_eq = record { beq = same_proc; beq_iff = same_proc_iff }

-- whose queue is `theirs`
abbrev pub peer_of : Proc → Proc
peer_of proc_0 = proc_1
peer_of proc_1 = proc_0

-- Where a process is: in the iteration `it`, in the loop that sends or the one that receives, at the
-- number `i`. `num_msgs_` is 16.
pub record Place : Type 0 where
  pub iteration : ℕ
  pub sending : Bool
  pub number_at : ℕ

-- the queue that each process calls `mine`, and the processes
pub record TestRun : Type 0 where
  pub mine : Proc → Lfq ℕ
  pub places : Proc → Place

abbrev pub after_send : Place → Place
after_send p =
    if leb 16 p.number_at
    then record p { sending = false; number_at = 1 }
    else record p { number_at = p.number_at + 1 }

abbrev pub after_receive : Place → Place
after_receive p =
    if leb 16 p.number_at
    then record { iteration = p.iteration + 1; sending = true; number_at = 1 }
    else record p { number_at = p.number_at + 1 }

-- one turn of `while (!theirs->enqueue(i))`, given what `enqueue` returns
unfoldable pub sent_turn : Proc → TestRun → Bool × Lfq ℕ → TestRun
sent_turn p r (true, q) = record {
  mine = update (peer_of p) q r.mine;
  places = update p (after_send (r.places p)) r.places;
}
sent_turn p r (false, q) = record r { mine = update (peer_of p) q r.mine }

-- one turn of `while (!mine->dequeue(&j))`, with the test of `j`, given what `dequeue` returns
unfoldable pub received_turn : Proc → TestRun → Option ℕ × Lfq ℕ → Outcome TestRun
received_turn p r (none, q) = ok (record r { mine = update p q r.mine })
received_turn p r (some j, q) =
    if (r.places p).number_at == j
    then ok (record {
      mine = update p q r.mine;
      places = update p (after_receive (r.places p)) r.places;
    })
    else abort

-- one turn of process `p`, which ends after 16 iterations
unfoldable pub proc_turn : Proc → TestRun → Outcome TestRun
unfolding sent_turn received_turn
proc_turn p r =
    if leb 16 (r.places p).iteration
    then ok r
    else if (r.places p).sending
    then (enqueue 16 (r.places p).number_at (r.mine (peer_of p)) >>= λ a. ok (sent_turn p r a))
    else (dequeue 16 (r.mine p) >>= received_turn p r)

abbrev pub test_turns : List Proc → TestRun → Outcome TestRun
test_turns [] r = ok r
test_turns (p ∷ ps) r = proc_turn p r >>= test_turns ps

abbrev pub test_start : TestRun
test_start = record {
  mine = λ p. new_lfq;
  places = λ p. record { iteration = 0; sending = true; number_at = 1 };
}
