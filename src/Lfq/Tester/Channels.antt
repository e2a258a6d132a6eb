-- ===== src/Lfq/Tester/Channels.antt =====
-- What a call of the queue of archive/lfq/tester.cc does to the numbers that it holds.
use charm_experiments.Common.{
  update_ne, update_self, ℕ, suc, ◌+◌, ◌<◌, ◌≡◌, sym, ap, subst, fun_ext, ◌∙◌, inl, inr, [], ◌∷◌,
  ◌++◌, arith, nat_eq, update,
}
use charm_experiments.Lfq.{Lfq}
use charm_experiments.Lfq.Tester.{Proc, Place, TestRun, peer_of, proc_eq}
use charm_experiments.Lfq.Tester.Course.{
  IsOnCourse, IsChannel, sent_in, received_in, number_after, numbers_from, numbers_more,
  length-numbers_from, peer-peer, peer_ne, itself_or_peer,
}
use charm_experiments.Lfq.Fifo.{
  IsFifo, with_value, without_first, with_value-IsFifo, without_first-IsFifo,
}

pub unchanged_lem : (t : TestRun) (u : Proc) → record t { mine = update u (t.mine u) t.mine } ≡ t
unchanged_lem t u = ap (λ m. record t { mine = m }) (fun_ext same)
  where
    same : (k : Proc) → update u (t.mine u) t.mine k ≡ t.mine k
    same k = elim (itself_or_peer u k) [
      | inl e ↦
          ap (update u (t.mine u) t.mine) e ∙ update_self u (t.mine u) t.mine ∙ ap t.mine (sym e)
      | inr e ↦
          ap (update u (t.mine u) t.mine) e
          ∙ update_ne u (peer_of u) (t.mine u) t.mine (peer_ne u)
          ∙ ap t.mine (sym e)
    ]

module _ (p : Proc) (t : TestRun) (inv : IsOnCourse t) where
  abbrev here : Place
  here = t.places p

  abbrev there : Place
  there = t.places (peer_of p)

  pub into : IsChannel (sent_in there) (received_in here) (t.mine p)
  into = inv.channels p

  pub out : IsChannel (sent_in here) (received_in there) (t.mine (peer_of p))
  out =
      subst (λ u. IsChannel (sent_in (t.places u)) (received_in there) (t.mine (peer_of p)))
        (peer-peer p) (inv.channels (peer_of p))

-- The queue after a value has been added, and after the first has been taken
pub added-IsChannel :
    (s r : ℕ) (q : Lfq ℕ) (inv : IsChannel s r q)
    → inv.left < 16
    → IsChannel (s + 1) r (with_value 16 q (numbers_from r inv.left) inv.held (number_after s))
added-IsChannel s r q inv room = record {
  left = suc inv.left;
  adds_up = omega (arith, inv.adds_up);
  held =
      subst (IsFifo 16 _)
        (ap (λ k. numbers_from r inv.left ++ (number_after k ∷ [])) (sym inv.adds_up)
          ∙ numbers_more r inv.left)
        (with_value-IsFifo 16 q (numbers_from r inv.left) inv.held (number_after s)
          (omega (arith, length-numbers_from r inv.left)));
  head_is = ap (λ k. k + 1) inv.head_is;
}

pub taken-IsChannel :
    (s r n : ℕ) (q : Lfq ℕ)
    → r + suc n ≡ s
    → IsFifo 16 q (numbers_from r (suc n))
    → q.head ≡ s
    → IsChannel s (r + 1) (without_first 16 q)
taken-IsChannel s r n q adds held at = record {
  left = n;
  adds_up = omega arith;
  held = without_first-IsFifo 16 q (number_after r) (numbers_from (r + 1) n) held;
  head_is = at;
}
