-- ===== src/Warp/Turns.antt =====
-- One call of `receive` of warp/pingpong.cpp, for a task that has got `k` of its messages.
use charm_experiments.Warp.{
  send, allocate, set_properties, request_into, request_sized, Message, Rank, insert_at,
  request_entry, Mpi,
}
use charm_experiments.Common.{
  map, All, append_assoc, length, ℕ, zero, suc, ◌+◌, ◌*◌, ◌%◌, ◌≤◌, ◌<◌, ◌≡◌, refl, ap, ◌∙◌, ◌⊎◌,
  inl, inr, Bool, true, false, List, [], ◌∷◌, ◌++◌, arith, ◌==◌, if◌then◌else◌, ok, nat_eq, leb,
}
use charm_experiments.Warp.Calls.{MpiCall, IsLog, passed_on, own_request, log-request_own}
use charm_experiments.Warp.Pingpong.{
  reply, receive, request_own, advance, finish, Settings, Pingpong,
}

pub length-insert_at :
    {A : Type 0} (i : ℕ) (x : A) (xs : List A) → length (insert_at i x xs) ≡ suc (length xs)
length-insert_at zero x xs = refl
length-insert_at (suc i) x [] = refl
length-insert_at (suc i) x (y ∷ ys) = ap suc (length-insert_at i x ys)

module _ {M V T : Type 0} where
  -- the receives that wait
  abbrev pub requests : Rank M V T → ℕ
  requests s = length s.passed + length s.ahead

  -- `s'` is `s` with one more receive.
  pub record IsPosted (s s' : Rank M V T) : Type 0 where
    pub posted : requests s' ≡ suc (requests s)
    pub same_sends : s'.sends ≡ s.sends
    pub same_running : s'.running ≡ s.running

  emplaced :
      (e : ℕ × Message V) (s : Rank M V T) (before : Bool) (i : ℕ)
      → IsPosted s (
          if before
          then record s { passed = insert_at i e s.passed }
          else record s { ahead = insert_at i e s.ahead })
  emplaced e s true i = record {
    posted = omega (arith, length-insert_at i e s.passed);
    same_sends = refl;
    same_running = refl;
  }
  emplaced e s false i = record {
    posted = omega (arith, length-insert_at i e s.ahead);
    same_sends = refl;
    same_running = refl;
  }

module _ {M V T : Type 0} (mpi : Mpi M V) where
  pub request_own-IsPosted :
      (c : Settings) (index : ℕ) (s : Rank M V T) → IsPosted s (request_own mpi c index s)
  unfolding request_entry request_sized request_into
  request_own-IsPosted c index s =
      let m =
        set_properties index c.receive_index index (allocate c.msg_size (mpi.new_memory s.mpi)) in
      let (req, w) = mpi.irecv m s.mpi in
      let (before, i) = mpi.place req (map (λ x. x.0) s.passed) (map (λ x. x.0) s.ahead) in
      let p = emplaced (req, m) (record s { mpi = w }) before i in
      record { posted = p.posted; same_sends = p.same_sends; same_running = p.same_running }

-- What a task has done after the messages that it got: it made the calls `calls` of MPI, as the log
-- tells, of which `k` are sends, all to its peer, and `posted` are requests.
pub record HasPlayed {M V T : Type 0} (log : M → List (MpiCall V)) (peer k posted : ℕ)
    (calls : List (MpiCall V)) (s s' : Rank M V T) : Type 0 where
  pub logged : log s'.mpi ≡ log s.mpi ++ calls
  pub new_sends : List (ℕ × Message V)
  pub sent : s'.sends ≡ s.sends ++ new_sends
  pub number_sent : length new_sends ≡ k
  pub to_peer : All (λ x. (x.1.obj ≡ peer) × (x.1.tag ≡ peer)) new_sends
  pub number_posted : requests s' ≡ requests s + posted

-- A task that has got `k` messages of its `2 * n`
pub record IsAfter (n index k : ℕ) (t : Pingpong) : Type 0 where
  pub index_kept : t.index ≡ index
  pub progress :
      ((k < n) × (t.it ≡ k) × (t.warmup ≡ true)) ⊎ ((n ≤ k) × (t.it + n ≡ k) × (t.warmup ≡ false))

lt_or_ge : (a b : ℕ) → (a < b) ⊎ (b ≤ a)
lt_or_ge a b = ground arith

module _ {M V : Type 0} (mpi : Mpi M V) (c : Settings) where
  abbrev advance_branch :
      Pingpong → Rank M V Pingpong → Bool → (Pingpong × Rank M V Pingpong) × Bool
  advance_branch t s b =
      if b
      then finish mpi c (record t { it = t.it + 1 }) s
      else ((record t { it = t.it + 1 }, s), false)

  advance_inner :
      (t : Pingpong) (s : Rank M V Pingpong)
      → t.it + 1 < c.n_iters
      → advance mpi c t s ≡ ((record t { it = t.it + 1 }, s), false)
  unfolding advance
  advance_inner t s lt =
      let e : leb c.n_iters (t.it + 1) ≡ false = ground arith in ap (advance_branch t s) e

  advance_warm :
      (t : Pingpong) (s : Rank M V Pingpong)
      → c.n_iters ≤ t.it + 1
      → t.warmup ≡ true
      → advance mpi c t s ≡ ((record t { it = 0; warmup = false }, s), false)
  unfolding advance finish
  advance_warm t s le warm =
      let e : leb c.n_iters (t.it + 1) ≡ true = ground arith in
      ap (advance_branch t s) e
      ∙ ap
          (λ b. if b then ((record t { it = 0; warmup = false }, s), false) else (
            (record t { it = 0 }, if t.index == c.rank then record s { running = false } else s),
            true,
          ))
          warm

  pub advance_last :
      (t : Pingpong) (s : Rank M V Pingpong)
      → c.n_iters ≤ t.it + 1
      → t.warmup ≡ false
      → advance mpi c t s ≡ (
        (record t { it = 0 }, if t.index == c.rank then record s { running = false } else s),
        true,
      )
  unfolding advance finish
  advance_last t s le warm =
      let e : leb c.n_iters (t.it + 1) ≡ true = ground arith in
      ap (advance_branch t s) e
      ∙ ap
          (λ b. if b then ((record t { it = 0; warmup = false }, s), false) else (
            (record t { it = 0 }, if t.index == c.rank then record s { running = false } else s),
            true,
          ))
          warm

  -- the state after the `send` of a task
  abbrev pub replied : Message V → Pingpong → Rank M V Pingpong → Rank M V Pingpong
  replied m t s =
      send mpi ((t.index + 1) % 2 % c.n_ranks) ((t.index + 1) % 2) c.receive_index
        ((t.index + 1) % 2) m s

  receive_going :
      (m : Message V) (t t' : Pingpong) (s s' : Rank M V Pingpong)
      → advance mpi c t s ≡ ((t', s'), false)
      → receive mpi c t m s ≡ ok (t', request_own mpi c t'.index (replied m t' s'))
  unfolding receive reply
  receive_going m t t' s s' e = ap (λ r. ok (reply mpi c m r)) e

  pub receive_done :
      (m : Message V) (t t' : Pingpong) (s s' : Rank M V Pingpong)
      → advance mpi c t s ≡ ((t', s'), true)
      → receive mpi c t m s ≡ ok (t', replied m t' s')
  unfolding receive reply
  receive_done m t t' s s' e = ap (λ r. ok (reply mpi c m r)) e

  pub replied_running :
      (m : Message V) (t : Pingpong) (s : Rank M V Pingpong) → (replied m t s).running ≡ s.running
  unfolding send
  replied_running m t s = refl

module _ {M V : Type 0} (mpi : Mpi M V) (c : Settings) (log : M → List (MpiCall V))
    (logs : IsLog mpi log) where
  pub replied-HasPlayed :
      (index : ℕ) (m : Message V) (t : Pingpong) (s : Rank M V Pingpong)
      → t.index ≡ index
      → HasPlayed log ((index + 1) % 2) 1 0 (passed_on c index m ∷ []) s (replied mpi c m t s)
  unfolding send
  replied-HasPlayed index m t s e = record {
    logged =
        logs.isend_logged ((t.index + 1) % 2 % c.n_ranks)
          (record m { obj = (t.index + 1) % 2; ep = c.receive_index; tag = (t.index + 1) % 2 })
          s.mpi
        ∙ ap (λ i. log s.mpi ++ (passed_on c i m ∷ [])) e;
    new_sends = _;
    sent = refl;
    number_sent = refl;
    to_peer = ((ap (λ i. (i + 1) % 2) e, ap (λ i. (i + 1) % 2) e), tt);
    number_posted = omega arith;
  }

  -- What one message does to a task that goes on.
  pub record GoesOn (index : ℕ) (m : Message V) (t t' : Pingpong) (s : Rank M V Pingpong)
      : Type 0 where
    pub after : Rank M V Pingpong
    pub returns : receive mpi c t m s ≡ ok (t', after)
    pub played :
        HasPlayed log
          ((index + 1) % 2)
          1
          1
          (passed_on c index m ∷ (own_request c index ∷ []))
          s
          after
    pub still : after.running ≡ s.running

  goes_on :
      (index : ℕ) (m : Message V) (t t' : Pingpong) (s : Rank M V Pingpong)
      → t'.index ≡ index
      → advance mpi c t s ≡ ((t', s), false)
      → GoesOn index m t t' s
  goes_on index m t t' s e adv =
      let p = replied-HasPlayed index m t' s e in
      let q = request_own-IsPosted mpi c t'.index (replied mpi c m t' s) in
      record {
        after = request_own mpi c t'.index (replied mpi c m t' s);
        returns = receive_going mpi c m t t' s s adv;
        played = record {
          logged =
              log-request_own mpi log logs c t'.index (replied mpi c m t' s)
              ∙ ap (λ i. log (replied mpi c m t' s).mpi ++ (own_request c i ∷ [])) e
              ∙ ap (λ l. l ++ (own_request c index ∷ [])) p.logged
              ∙ append_assoc (log s.mpi) (passed_on c index m ∷ []) (own_request c index ∷ []);
          new_sends = p.new_sends;
          sent = q.same_sends ∙ p.sent;
          number_sent = p.number_sent;
          to_peer = p.to_peer;
          number_posted = omega (arith, q.posted, p.number_posted);
        };
        still = q.same_running ∙ replied_running mpi c m t' s;
      }

  -- The next count of a task, while it is not its last.
  pub next_task :
      (index k : ℕ) (m : Message V) (t : Pingpong) (s : Rank M V Pingpong)
      → k + 1 < 2 * c.n_iters
      → IsAfter c.n_iters index k t
      → (t' : Pingpong) × IsAfter c.n_iters index (k + 1) t' × GoesOn index m t t' s
  next_task index k m t s lt inv = elim inv.progress [
    | inl (lt_n, at_k, warm) ↦ elim (lt_or_ge (t.it + 1) c.n_iters) [
      | inl inner ↦ (
        record t { it = t.it + 1 },
        record {
          index_kept = inv.index_kept;
          progress = inl (omega (arith), ap (λ i. i + 1) at_k, warm);
        },
        goes_on index m t _ s inv.index_kept (advance_inner mpi c t s inner),
      )
      | inr turn ↦ (
        record t { it = 0; warmup = false },
        record { index_kept = inv.index_kept; progress = inr (omega arith, omega arith, refl) },
        goes_on index m t _ s inv.index_kept (advance_warm mpi c t s turn warm),
      )
    ]
    | inr (ge, at_k, cold) ↦ (
      record t { it = t.it + 1 },
      record { index_kept = inv.index_kept; progress = inr (omega arith, omega arith, cold) },
      goes_on index m t _ s inv.index_kept (advance_inner mpi c t s (omega arith)),
    )
  ]
