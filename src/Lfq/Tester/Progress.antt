-- ===== src/Lfq/Tester/Progress.antt =====
-- How far the processes of archive/lfq/tester.cc have come, and when they wait.
use charm_experiments.Common.{
  update_ne, update_self, ℕ, ◌+◌, ◌≤◌, ◌≡◌, ap₂, ◌∙◌, true, false, arith, nat_eq, update,
}
use charm_experiments.Lfq.Tester.{proc_1, proc_0, Lfq, Place, TestRun, peer_of, proc_eq, Proc}
use charm_experiments.Lfq.Tester.Course.{IsOnCourse, InLoop, sent_in, received_in, peer_ne}

-- how many times the processes have sent or received
abbrev pub progress : TestRun → ℕ
progress t =
    (sent_in (t.places proc_0) + received_in (t.places proc_0))
    + (sent_in (t.places proc_1) + received_in (t.places proc_1))

-- A process has ended, or waits for room or for a number.
pub data IsStuck (p : Proc) (t : TestRun) : Type 0 where
  ended : (t.places p).iteration ≡ 16 → IsStuck p t
  no_room :
      (t.places p).sending ≡ true
      → sent_in (t.places p) ≡ received_in (t.places (peer_of p)) + 16
      → IsStuck p t
  no_number :
      (t.places p).sending ≡ false
      → sent_in (t.places (peer_of p)) ≡ received_in (t.places p)
      → IsStuck p t

pub progress_more :
    (p : Proc) (t : TestRun) (to : Place) (queues : Proc → Lfq ℕ)
    → sent_in to + received_in to ≡ sent_in (t.places p) + received_in (t.places p) + 1
    → progress (record { mine = queues; places = update p to t.places }) ≡ progress t + 1
progress_more proc_0 t to queues more =
    ap₂ (λ a b. (sent_in a + received_in a) + (sent_in b + received_in b))
      (update_self proc_0 to t.places) (update_ne proc_0 proc_1 to t.places (peer_ne proc_0))
    ∙ omega (arith, more)
progress_more proc_1 t to queues more =
    ap₂ (λ a b. (sent_in a + received_in a) + (sent_in b + received_in b))
      (update_ne proc_1 proc_0 to t.places (peer_ne proc_1)) (update_self proc_1 to t.places)
    ∙ omega (arith, more)

-- Both processes are stuck only when both have ended.
pub stuck_lem :
    (t : TestRun)
    → IsOnCourse t
    → IsStuck proc_0 t
    → IsStuck proc_1 t
    → ((t.places proc_0).iteration ≡ 16) × ((t.places proc_1).iteration ≡ 16)
stuck_lem t inv (ended a) (ended b) = (a, b)
stuck_lem t inv (ended a) (no_room b c) =
    ground (arith, inv.loops proc_0, inv.loops proc_1, a, b, c)
stuck_lem t inv (ended a) (no_number b c) =
    ground (arith, inv.loops proc_0, inv.loops proc_1, a, b, c)
stuck_lem t inv (no_room a b) (ended c) =
    ground (arith, inv.loops proc_0, inv.loops proc_1, a, b, c)
stuck_lem t inv (no_room a b) (no_room c d) =
    ground (arith, inv.loops proc_0, inv.loops proc_1, a, b, c, d)
stuck_lem t inv (no_room a b) (no_number c d) = omega (arith, b, d)
stuck_lem t inv (no_number a b) (ended c) =
    ground (arith, inv.loops proc_0, inv.loops proc_1, a, b, c)
stuck_lem t inv (no_number a b) (no_room c d) = omega (arith, b, d)
stuck_lem t inv (no_number a b) (no_number c d) =
    ground (arith, inv.loops proc_0, inv.loops proc_1, a, b, c, d)

-- Both processes have ended when they have sent and received 1024 times together.
pub progress_lem :
    (t : TestRun)
    → IsOnCourse t
    → 1024 ≤ progress t
    → ((t.places proc_0).iteration ≡ 16) × ((t.places proc_1).iteration ≡ 16)
progress_lem t inv many = (
  all_done (t.places proc_0) (inv.loops proc_0) (
      omega (
        arith,
        many,
        done_le (t.places proc_0) (inv.loops proc_0),
        done_le (t.places proc_1) (inv.loops proc_1),
      )),
  all_done (t.places proc_1) (inv.loops proc_1) (
      omega (
        arith,
        many,
        done_le (t.places proc_0) (inv.loops proc_0),
        done_le (t.places proc_1) (inv.loops proc_1),
      )),
)
  where
    done_le : (p : Place) → InLoop p → sent_in p + received_in p ≤ 512
    done_le p loop = ground (arith, loop)

    all_done : (p : Place) → InLoop p → 512 ≤ sent_in p + received_in p → p.iteration ≡ 16
    all_done p loop enough = ground (arith, loop, enough)
