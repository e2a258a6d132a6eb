-- ===== src/Ipc/Queue/Stack.antt =====
-- The queue of archive/include/queue.hh, and a stack of blocks.
use charm_experiments.Common.{
  Option-cases, eq_or_ne, some-injective, All, update_ne, update, ℕ, ◌≡◌, sym, ap, subst, ◌∙◌, ◌≢◌,
  ◌⊎◌, inl, inr, Bool, true, false, Option, none, some, List, [], ◌∷◌, ◌++◌, ◌==◌, if◌then◌else◌,
  nat_eq,
}
use charm_experiments.Ipc.Queue.{
  unlinked, taking, linked, dequeued, putting, Local, at, enqueued, idle, null, Event, Shared,
  is_null, tail, Pointer,
}

-- the blocks from a pointer on
unfoldable pub Chain : (ℕ → Pointer) → Pointer → List ℕ → Type 0
Chain next p [] = p ≡ tail
Chain next p (b ∷ bs) = (p ≡ at b) × Chain next (next b) bs

unfoldable pub Fresh : ℕ → List ℕ → Type 0
Fresh b xs = All (λ c. c ≢ b) xs

unfoldable pub Distinct : List ℕ → Type 0
unfolding Fresh
Distinct [] = Unit
Distinct (b ∷ bs) = Fresh b bs × Distinct bs

-- What the thread that took the head knows; `xs` are the blocks of the queue.
unfoldable pub Held : Shared → List ℕ → Local → Type 0
unfolding Chain Fresh
Held s xs idle = true ≡ false
Held s xs (putting b prev) = Chain s.next prev xs × Fresh b xs × (s.lent b ≡ true)
Held s xs (linked b) = Chain s.next (at b) (b ∷ xs) × Fresh b xs × (s.lent b ≡ true)
Held s xs (taking prev) = Chain s.next prev xs
Held s [] (unlinked prev next) = (prev ≡ tail) × (next ≡ tail)
Held s (b ∷ ys) (unlinked prev next) = (prev ≡ at b) × Chain s.next next ys

-- Nobody has the head, and it leads to the blocks.
pub record Free (s : Shared) (xs : List ℕ) : Type 0 where
  pub chain : Chain s.next s.head xs
  pub all_idle : (t : ℕ) → s.threads t ≡ idle

-- One thread has the head.
pub record Locked (s : Shared) (xs : List ℕ) (t : ℕ) : Type 0 where
  pub taken : s.head ≡ null
  pub holds : Held s xs (s.threads t)
  pub others : (u : ℕ) → u ≢ t → s.threads u ≡ idle

pub record IsStack (s : Shared) (xs : List ℕ) : Type 0 where
  pub distinct : Distinct xs
  pub owned : All (λ b. s.lent b ≡ true) xs
  pub holder : Free s xs ⊎ ((t : ℕ) × Locked s xs t)

-- the specification: a call on a stack of blocks, none where the event is not possible
abbrev pub dequeue_from : Option ℕ → List ℕ → Option (List ℕ)
dequeue_from none [] = some []
dequeue_from none (b ∷ bs) = none
dequeue_from (some a) [] = none
dequeue_from (some a) (b ∷ bs) = if a == b then some bs else none

abbrev pub replay_one : Event → List ℕ → Option (List ℕ)
replay_one (enqueued b) xs = some (b ∷ xs)
replay_one (dequeued r) xs = dequeue_from r xs

abbrev pub then_replay : (List ℕ → Option (List ℕ)) → Option (List ℕ) → Option (List ℕ)
then_replay f none = none
then_replay f (some xs) = f xs

abbrev pub replay : List Event → List ℕ → Option (List ℕ)
replay [] xs = some xs
replay (e ∷ es) xs = then_replay (replay es) (replay_one e xs)

pub true_ne : true ≢ false
true_ne e = cc

pub replay-append :
    (es fs : List Event) (xs ys : List ℕ)
    → replay es xs ≡ some ys
    → replay (es ++ fs) xs ≡ replay fs ys
replay-append [] fs xs ys e = ap (replay fs) (some-injective e)
replay-append (ev ∷ es) fs xs ys e = elim (Option-cases (replay_one ev xs)) [
  | inl n ↦ let bad = ap (then_replay (replay es)) (sym n) ∙ e in cc
  | inr (zs, found) ↦
      ap (then_replay (replay (es ++ fs))) found
      ∙ replay-append es fs zs ys (ap (then_replay (replay es)) (sym found) ∙ e)
]

pub Chain-update :
    (next : ℕ → Pointer) (b : ℕ) (v p : Pointer) (xs : List ℕ)
    → Fresh b xs
    → Chain next p xs
    → Chain (update b v next) p xs
unfolding Chain Fresh
Chain-update next b v p [] f c = c
Chain-update next b v p (x ∷ xs) f c = (
  c.0,
  Chain-update next b v (update b v next x) xs f.1
      (subst (λ q. Chain next q xs) (sym (update_ne b x v next f.0)) c.1),
)

pub Chain-is_null :
    (next : ℕ → Pointer) (p : Pointer) (xs : List ℕ) → Chain next p xs → is_null p ≡ false
unfolding Chain
Chain-is_null next p [] c = ap is_null c
Chain-is_null next p (x ∷ xs) c = ap is_null c.0

pub lent-Fresh :
    (lent : ℕ → Bool) (b : ℕ) (xs : List ℕ)
    → lent b ≡ false
    → All (λ c. lent c ≡ true) xs
    → Fresh b xs
unfolding Fresh
lent-Fresh lent b [] e h = tt
lent-Fresh lent b (x ∷ xs) e h =
    ((λ same. true_ne (sym h.0 ∙ ap lent same ∙ e)), lent-Fresh lent b xs e h.1)

pub lent-update :
    (lent : ℕ → Bool) (b : ℕ) (v : Bool) (xs : List ℕ)
    → Fresh b xs
    → All (λ c. lent c ≡ true) xs
    → All (λ c. update b v lent c ≡ true) xs
unfolding Fresh
lent-update lent b v [] f h = tt
lent-update lent b v (x ∷ xs) f h =
    (update_ne b x v lent f.0 ∙ h.0, lent-update lent b v xs f.1 h.1)

-- A thread that is not idle has the head.
pub owner :
    (s : Shared) (xs : List ℕ) (t : ℕ) (l : Local)
    → IsStack s xs
    → s.threads t ≡ l
    → l ≢ idle
    → (s.head ≡ null) × Held s xs l × ((u : ℕ) → u ≢ t → s.threads u ≡ idle)
owner s xs t l inv e busy = elim inv.holder [
  | inl free ↦ elim (busy (sym e ∙ free.all_idle t)) [ ]
  | inr (t0, locked) ↦ elim (eq_or_ne t t0) [
    | inl same ↦ (
      locked.taken,
      subst (Held s xs) (ap s.threads (sym same) ∙ e) locked.holds,
      λ u ne. locked.others u (λ q. ne (q ∙ sym same)),
    )
    | inr other ↦ elim (busy (sym e ∙ locked.others t other)) [ ]
  ]
]
