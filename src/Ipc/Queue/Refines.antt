-- ===== src/Ipc/Queue/Refines.antt =====
-- The steps of the threads in archive/include/queue.hh, and calls on a stack.
use charm_experiments.Common.{
  ==_refl, none, some, All, Option, update_id, update_self, eq_or_ne, update_ne, update, ℕ, ◌≡◌,
  refl, sym, ap, ap₂, subst, ◌∙◌, ◌≢◌, inl, inr, true, false, List, [], ◌∷◌, if◌then◌else◌, nat_eq,
}
use charm_experiments.Ipc.Queue.{
  block_of, Step, Steps, dequeued, give_back, Event, new_queue, begin_enqueue, begin_dequeue, link,
  end_enqueue, read, end_dequeue, done, then_step, at, is_null, linked, next_of, write_next,
  exchange, putting, start_dequeue, start_enqueue, unlinked, null, taking, idle, Local, Shared,
  Pointer,
}
use charm_experiments.Ipc.Queue.Stack.{
  replay-append, then_replay, replay, Chain-update, lent-update, owner, Chain-is_null, lent-Fresh,
  Distinct, Held, IsStack, Chain,
}

-- An exchange by an idle thread that finds the head taken changes nothing.
exchange_nothing :
    (s : Shared) (t : ℕ) → s.threads t ≡ idle → s.head ≡ null → exchange t null idle s ≡ s
exchange_nothing s t e n =
    ap₂ (λ h th. record s { head = h; threads = th }) (sym n)
      (ap (λ l. update t l s.threads) (sym e) ∙ update_id t s.threads)

others_idle :
    (threads : ℕ → Local) (t : ℕ) (l : Local)
    → ((u : ℕ) → u ≢ t → threads u ≡ idle)
    → (u : ℕ) → u ≢ t
    → update t l threads u ≡ idle
others_idle threads t l h u ne = update_ne t u l threads ne ∙ h u ne

all_idle_again :
    (threads : ℕ → Local) (t : ℕ)
    → ((u : ℕ) → u ≢ t → threads u ≡ idle)
    → (u : ℕ) → update t idle threads u ≡ idle
all_idle_again threads t h u = elim (eq_or_ne u t) [
  | inl same ↦ ap (update t idle threads) same ∙ update_self t idle threads
  | inr other ↦ others_idle threads t idle h u other
]

module _ (s : Shared) (xs : List ℕ) (inv : IsStack s xs) where
  begin_enqueue_stays :
      (t b : ℕ) → s.threads t ≡ idle → s.lent b ≡ false → IsStack (start_enqueue t b s) xs
  unfolding Held
  begin_enqueue_stays t b e free_block = elim inv.holder [
    | inl free ↦
        let fresh = lent-Fresh s.lent b xs free_block inv.owned in
        let started : Shared = record (exchange t null (putting b s.head) s) {
          lent = update b true s.lent;
        } in
        subst (λ v. IsStack v xs)
          (sym (
            ap (λ c. if c then exchange t null idle s else started)
              (Chain-is_null s.next s.head xs free.chain)))
          (record {
            distinct = inv.distinct;
            owned = lent-update s.lent b true xs fresh inv.owned;
            holder = inr (
              t,
              record {
                taken = refl;
                holds =
                    subst (Held started xs) (sym (update_self t (putting b s.head) s.threads))
                      (free.chain, fresh, update_self b true s.lent);
                others = others_idle s.threads t (putting b s.head) (λ u ne. free.all_idle u);
              },
            );
          })
    | inr (t0, locked) ↦
        subst (λ v. IsStack v xs)
          (sym (
            ap
              (λ c.
                if c
                then exchange t null idle s
                else record (exchange t null (putting b s.head) s) { lent = update b true s.lent })
              (ap is_null locked.taken)
            ∙ exchange_nothing s t e locked.taken))
          inv
  ]

  begin_dequeue_stays : (t : ℕ) → s.threads t ≡ idle → IsStack (start_dequeue t s) xs
  unfolding Held
  begin_dequeue_stays t e = elim inv.holder [
    | inl free ↦
        subst (λ v. IsStack v xs)
          (sym (
            ap (λ c. exchange t null (if c then idle else taking s.head) s)
              (Chain-is_null s.next s.head xs free.chain)))
          (record {
            distinct = inv.distinct;
            owned = inv.owned;
            holder = inr (
              t,
              record {
                taken = refl;
                holds =
                    subst (Held (exchange t null (taking s.head) s) xs)
                      (sym (update_self t (taking s.head) s.threads)) free.chain;
                others = others_idle s.threads t (taking s.head) (λ u ne. free.all_idle u);
              },
            );
          })
    | inr (t0, locked) ↦
        subst (λ v. IsStack v xs)
          (sym (
            ap (λ c. exchange t null (if c then idle else taking s.head) s)
              (ap is_null locked.taken)
            ∙ exchange_nothing s t e locked.taken))
          inv
  ]

  link_stays :
      (t b : ℕ) (prev : Pointer) → s.threads t ≡ putting b prev → IsStack (write_next t b prev s) xs
  unfolding Held Chain
  link_stays t b prev e =
      let (taken, (chain, fresh, mine), others) = owner s xs t (putting b prev) inv e (λ q. cc) in
      record {
        distinct = inv.distinct;
        owned = inv.owned;
        holder = inr (
          t,
          record {
            taken = taken;
            holds =
                subst (Held (write_next t b prev s) xs) (sym (update_self t (linked b) s.threads)) (
                  (
                    refl,
                    subst (λ p. Chain (update b prev s.next) p xs) (sym (update_self b prev s.next))
                        (Chain-update s.next b prev prev xs fresh chain),
                  ),
                  fresh,
                  mine,
                );
            others = others_idle s.threads t (linked b) others;
          },
        );
      }

  read-Held :
      (ys : List ℕ) (prev : Pointer)
      → Held s ys (taking prev)
      → Held s ys (unlinked prev (next_of prev s))
  unfolding Held Chain
  read-Held [] prev h = (h, ap (λ p. next_of p s) h)
  read-Held (b ∷ ys) prev h =
      (h.0, subst (λ p. Chain s.next p ys) (sym (ap (λ p. next_of p s) h.0)) h.1)

  with_threads-Held :
      (ys : List ℕ) (th : ℕ → Local) (prev next : Pointer)
      → Held s ys (unlinked prev next)
      → Held (record s { threads = th }) ys (unlinked prev next)
  unfolding Held
  with_threads-Held [] th prev next h = h
  with_threads-Held (b ∷ ys) th prev next h = h

  read_stays :
      (t : ℕ) (prev : Pointer)
      → s.threads t ≡ taking prev
      → IsStack (record s { threads = update t (unlinked prev (next_of prev s)) s.threads }) xs
  read_stays t prev e =
      let (taken, held, others) = owner s xs t (taking prev) inv e (λ q. cc) in
      let l = unlinked prev (next_of prev s) in
      record {
        distinct = inv.distinct;
        owned = inv.owned;
        holder = inr (
          t,
          record {
            taken = taken;
            holds =
                subst (Held (record s { threads = update t l s.threads }) xs)
                  (sym (update_self t l s.threads))
                  (with_threads-Held xs (update t l s.threads) prev (next_of prev s)
                    (read-Held xs prev held));
            others = others_idle s.threads t l others;
          },
        );
      }

  end_enqueue_pushes :
      (t b : ℕ) → s.threads t ≡ linked b → IsStack (exchange t (at b) idle s) (b ∷ xs)
  unfolding Held Distinct
  end_enqueue_pushes t b e =
      let (taken, (chain, fresh, mine), others) = owner s xs t (linked b) inv e (λ q. cc) in
      record {
        distinct = (fresh, inv.distinct);
        owned = (mine, inv.owned);
        holder = inl (record { chain = chain; all_idle = all_idle_again s.threads t others });
      }

-- The blocks stay lent when one that is not among them is given back.
given_back : (r : Option ℕ) (s : Shared) (t : ℕ) (next : Pointer) → Shared
given_back r s t next = record (exchange t next idle s) { lent = give_back r s.lent }

-- what the last step of `dequeue` takes off the stack
Popped : Shared → List ℕ → ℕ → Pointer → Pointer → Type 0
Popped s xs t prev next =
    (ys : List ℕ) × (replay (dequeued (block_of prev) ∷ []) xs ≡ some ys)
    × IsStack (given_back (block_of prev) s t next) ys

pop_from :
    (s : Shared) (xs : List ℕ) (t : ℕ) (prev next : Pointer)
    → Distinct xs
    → All (λ b. s.lent b ≡ true) xs
    → ((u : ℕ) → u ≢ t → s.threads u ≡ idle)
    → Held s xs (unlinked prev next)
    → Popped s xs t prev next
unfolding Held Distinct Chain Popped given_back
pop_from s [] t prev next d owned others held =
    subst (λ p. Popped s [] t p next) (sym held.0)
      (
        [],
        refl,
        record {
          distinct = tt;
          owned = tt;
          holder = inl (record { chain = held.1; all_idle = all_idle_again s.threads t others });
        },
      )
pop_from s (b ∷ ys) t prev next d owned others held =
    subst (λ p. Popped s (b ∷ ys) t p next) (sym held.0)
      (
        ys,
        ap (λ c. then_replay (replay []) (if c then some ys else none)) (==_refl b),
        record {
          distinct = d.1;
          owned = lent-update s.lent b false ys d.0 owned.1;
          holder = inl (record { chain = held.1; all_idle = all_idle_again s.threads t others });
        },
      )

Step-IsStack :
    (s s' : Shared) (es : List Event) (xs : List ℕ)
    → Step s es s'
    → IsStack s xs
    → (ys : List ℕ) × (replay es xs ≡ some ys) × IsStack s' ys
unfolding Popped given_back
Step-IsStack s _ _ xs (begin_enqueue t b e f) inv = (xs, refl, begin_enqueue_stays s xs inv t b e f)
Step-IsStack s _ _ xs (link t b prev e) inv = (xs, refl, link_stays s xs inv t b prev e)
Step-IsStack s _ _ xs (end_enqueue t b e) inv = (b ∷ xs, refl, end_enqueue_pushes s xs inv t b e)
Step-IsStack s _ _ xs (begin_dequeue t e) inv = (xs, refl, begin_dequeue_stays s xs inv t e)
Step-IsStack s _ _ xs (read t prev e) inv = (xs, refl, read_stays s xs inv t prev e)
Step-IsStack s _ _ xs (end_dequeue t prev next e) inv =
    let (taken, held, others) = owner s xs t (unlinked prev next) inv e (λ q. cc) in
    pop_from s xs t prev next inv.distinct inv.owned others held

-- From a queue that holds the stack `xs`, whatever the threads do in whatever order, as long as no
-- block is enqueued that the queue has already: the calls that get the head act one after the other,
-- in the order of their last steps, as pushes and pops on a stack (the block enqueued last is
-- dequeued first), and the queue holds the resulting stack.
pub Steps-IsStack :
    (s s' : Shared) (es : List Event) (xs : List ℕ)
    → Steps s es s'
    → IsStack s xs
    → (ys : List ℕ) × (replay es xs ≡ some ys) × IsStack s' ys
Steps-IsStack s _ _ xs done inv = (xs, refl, inv)
Steps-IsStack s s'' _ xs (then_step {s' = s'} {es = es} {fs = fs} step rest) inv =
    let (ys, one, inv') = Step-IsStack s s' es xs step inv in
    let (zs, all, inv'') = Steps-IsStack s' s'' fs ys rest inv' in
    (zs, replay-append es fs xs ys one ∙ all, inv'')

pub new_queue-IsStack : (next : ℕ → Pointer) → IsStack (new_queue next) []
unfolding Chain Distinct
new_queue-IsStack next = record {
  distinct = tt;
  owned = tt;
  holder = inl (record { chain = refl; all_idle = λ t. refl });
}

-- In every state that threads reach from a new queue in this way, while one thread is between its
-- two exchanges the head is null, so that the check of its second exchange succeeds, and all other
-- threads are outside the two calls.
pub exchange_check :
    (next : ℕ → Pointer) (s : Shared) (es : List Event) (t : ℕ)
    → Steps (new_queue next) es s
    → s.threads t ≢ idle
    → (s.head ≡ null) × ((u : ℕ) → u ≢ t → s.threads u ≡ idle)
exchange_check next s es t run busy =
    let (xs, _, inv) = Steps-IsStack (new_queue next) s es [] run (new_queue-IsStack next) in
    let (taken, _, others) = owner s xs t (s.threads t) inv refl busy in (taken, others)
