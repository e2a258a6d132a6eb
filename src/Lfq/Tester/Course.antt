-- ===== src/Lfq/Tester/Course.antt =====
-- The course of archive/lfq/tester.cc in every order of the turns of its two processes.
use charm_experiments.Common.{
  update_ne, update_self, length, ℕ, zero, suc, ◌+◌, ◌-◌, ◌*◌, ◌%◌, ◌≤◌, ◌<◌, ◌≡◌, refl, sym, ap,
  subst, ◌∙◌, ◌≢◌, ◌⊎◌, inl, inr, true, false, List, [], ◌∷◌, ◌++◌, arith, if◌then◌else◌, nat_eq,
  update,
}
use charm_experiments.Lfq.Tester.{
  proc_1, after_receive, after_send, proc_0, Lfq, Place, TestRun, peer_of, proc_eq, Proc,
}
use charm_experiments.Lfq.Fifo.{IsFifo}

-- how many numbers a process has sent and received
abbrev pub sent_in : Place → ℕ
sent_in p = 16 * p.iteration + (if p.sending then p.number_at - 1 else 16)

abbrev pub received_in : Place → ℕ
received_in p = 16 * p.iteration + (if p.sending then 0 else p.number_at - 1)

abbrev pub InLoop : Place → Type 0
InLoop p =
    (0 < p.number_at)
    × (p.number_at ≤ 16)
    × (16 * p.iteration + (if p.sending then p.number_at - 1 else 15) ≤ 256)

-- the number that is sent after `k` others, and `n` of them in a row
abbrev pub number_after : ℕ → ℕ
number_after k = k % 16 + 1

abbrev pub numbers_from : ℕ → ℕ → List ℕ
numbers_from k zero = []
numbers_from k (suc n) = number_after k ∷ numbers_from (k + 1) n

pub numbers_more :
    (k n : ℕ) → numbers_from k n ++ (number_after (k + n) ∷ []) ≡ numbers_from k (suc n)
numbers_more k zero = ap (λ j. number_after j ∷ []) (omega arith)
numbers_more k (suc n) =
    ap (λ j. number_after k ∷ (numbers_from (k + 1) n ++ (number_after j ∷ []))) (omega arith)
    ∙ ap (λ xs. number_after k ∷ xs) (numbers_more (k + 1) n)

pub length-numbers_from : (k n : ℕ) → length (numbers_from k n) ≡ n
length-numbers_from k zero = refl
length-numbers_from k (suc n) = ap suc (length-numbers_from (k + 1) n)

-- The queue holds what one process has sent and the other has not received.
pub record IsChannel (s r : ℕ) (q : Lfq ℕ) : Type 0 where
  pub left : ℕ
  pub adds_up : r + left ≡ s
  pub held : IsFifo 16 q (numbers_from r left)
  pub head_is : q.head ≡ s

pub record IsOnCourse (t : TestRun) : Type 0 where
  pub channels :
      (u : Proc) → IsChannel (sent_in (t.places (peer_of u))) (received_in (t.places u)) (t.mine u)
  pub loops : (u : Proc) → InLoop (t.places u)

pub peer-peer : (p : Proc) → peer_of (peer_of p) ≡ p
peer-peer proc_0 = refl
peer-peer proc_1 = refl

pub peer_ne : (p : Proc) → peer_of p ≢ p
peer_ne proc_0 e = cc
peer_ne proc_1 e = cc

pub itself_or_peer : (p u : Proc) → (u ≡ p) ⊎ (u ≡ peer_of p)
itself_or_peer proc_0 proc_0 = inl refl
itself_or_peer proc_0 proc_1 = inr refl
itself_or_peer proc_1 proc_0 = inr refl
itself_or_peer proc_1 proc_1 = inl refl

-- Process `p` goes to another place, and the queues change.
pub moved-IsOnCourse :
    (p : Proc) (t : TestRun) (to : Place) (queues : Proc → Lfq ℕ)
    → IsOnCourse t
    → InLoop to
    → IsChannel (sent_in (t.places (peer_of p))) (received_in to) (queues p)
    → IsChannel (sent_in to) (received_in (t.places (peer_of p))) (queues (peer_of p))
    → IsOnCourse (record { mine = queues; places = update p to t.places })
moved-IsOnCourse p t to queues inv loop into out =
    let at_p = update_self p to t.places in
    let at_peer = update_ne p (peer_of p) to t.places (peer_ne p) in
    record {
      channels = λ u. elim (itself_or_peer p u) [
        | inl e ↦
            subst
              (λ u.
                IsChannel (sent_in (update p to t.places (peer_of u)))
                  (received_in (update p to t.places u)) (queues u))
              (sym e)
              (subst (λ a. IsChannel (sent_in a) (received_in (update p to t.places p)) (queues p))
                (sym at_peer)
                (subst (λ a. IsChannel (sent_in (t.places (peer_of p))) (received_in a) (queues p))
                  (sym at_p) into))
        | inr e ↦
            subst
              (λ u.
                IsChannel (sent_in (update p to t.places (peer_of u)))
                  (received_in (update p to t.places u)) (queues u))
              (sym e)
              (subst
                (λ a.
                  IsChannel (sent_in a) (received_in (update p to t.places (peer_of p)))
                    (queues (peer_of p)))
                (sym (ap (update p to t.places) (peer-peer p) ∙ at_p))
                (subst (λ a. IsChannel (sent_in to) (received_in a) (queues (peer_of p)))
                  (sym at_peer) out))
      ];
      loops = λ u. elim (itself_or_peer p u) [
        | inl e ↦ subst InLoop (sym (ap (update p to t.places) e ∙ at_p)) loop
        | inr e ↦ subst InLoop (sym (ap (update p to t.places) e ∙ at_peer)) (inv.loops (peer_of p))
      ];
    }

-- The two loops
pub after_send_lem :
    (p : Place)
    → InLoop p
    → p.iteration < 16
    → p.sending ≡ true
    → InLoop (after_send p)
      × (sent_in (after_send p) ≡ sent_in p + 1)
      × (received_in (after_send p) ≡ received_in p)
      × (p.number_at ≡ number_after (sent_in p))
after_send_lem p loop lt on = ground (arith, loop, lt, on)

pub after_receive_lem :
    (p : Place)
    → InLoop p
    → p.iteration < 16
    → p.sending ≡ false
    → InLoop (after_receive p)
      × (sent_in (after_receive p) ≡ sent_in p)
      × (received_in (after_receive p) ≡ received_in p + 1)
      × (p.number_at ≡ number_after (received_in p))
after_receive_lem p loop lt off = ground (arith, loop, lt, off)
