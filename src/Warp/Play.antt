-- ===== src/Warp/Play.antt =====
-- A whole play of a task of warp/pingpong.cpp: the messages it gets, sends and requests.
use charm_experiments.Warp.Pingpong.{request_own, new_pingpong, receive_all, Pingpong, Settings}
use charm_experiments.Warp.Calls.{MpiCall, IsLog, own_request, turn_calls, log-request_own}
use charm_experiments.Warp.{Message, Rank, Mpi}
use charm_experiments.Common.{
  All-append, length-append, append_assoc, length, ℕ, suc, ◌+◌, ◌*◌, ◌%◌, ◌<◌, ◌≡◌, refl, ap, ◌∙◌,
  inl, inr, Bool, true, false, List, [], ◌∷◌, ◌++◌, arith, ◌==◌, if◌then◌else◌, ◌>>=◌, ok, Outcome,
  nat_eq,
}
use charm_experiments.Warp.Turns.{
  replied_running, replied-HasPlayed, advance_last, receive_done, next_task, replied,
  request_own-IsPosted, IsAfter, HasPlayed,
}

-- The state of a rank on which a task was made and got the messages `ms`
abbrev pub life :
    {M V : Type 0}
    → Mpi M V
    → Settings
    → ℕ
    → List (Message V)
    → Rank M V Pingpong
    → Outcome (Pingpong × Rank M V Pingpong)
life mpi c index ms s = receive_all mpi c ms (new_pingpong mpi c index s)

module _ {M V : Type 0} (mpi : Mpi M V) (c : Settings) (log : M → List (MpiCall V))
    (logs : IsLog mpi log) where
  -- What the messages `ms` do to a task for which they are the last ones.
  pub record HasEnded (index posted : ℕ) (ms : List (Message V)) (t : Pingpong)
      (s : Rank M V Pingpong) : Type 0 where
    pub end_task : Pingpong
    pub end_rank : Rank M V Pingpong
    pub returns : receive_all mpi c ms (t, s) ≡ ok (end_task, end_rank)
    pub played :
        HasPlayed log ((index + 1) % 2) (length ms) posted (turn_calls c index ms) s end_rank
    pub stops : end_rank.running ≡ (if index == c.rank then false else s.running)

  stopped :
      (peer : ℕ) (calls : List (MpiCall V)) (s s' : Rank M V Pingpong) (b : Bool)
      → HasPlayed log peer 1 0 calls (if b then record s { running = false } else s) s'
      → HasPlayed log peer 1 0 calls s s'
  stopped peer calls s s' true p = record {
    logged = p.logged;
    new_sends = p.new_sends;
    sent = p.sent;
    number_sent = p.number_sent;
    to_peer = p.to_peer;
    number_posted = p.number_posted;
  }
  stopped peer calls s s' false p = p

  running_stopped :
      (s : Rank M V Pingpong) (b : Bool)
      → (if b then record s { running = false } else s).running ≡ (if b then false else s.running)
  running_stopped s true = refl
  running_stopped s false = refl

  last_message :
      (index k : ℕ) (m : Message V) (t : Pingpong) (s : Rank M V Pingpong)
      → k + 1 ≡ 2 * c.n_iters
      → IsAfter c.n_iters index k t
      → HasEnded index 0 (m ∷ []) t s
  last_message index k m t s last inv = elim inv.progress [
    | inl (lt_n, at_k, warm) ↦ ground (arith, lt_n, last, at_k)
    | inr (ge, at_k, cold) ↦
        let t' : Pingpong = record t { it = 0 } in
        let s' : Rank M V Pingpong =
          if t.index == c.rank then record s { running = false } else s in
        record {
          end_task = t';
          end_rank = replied mpi c m t' s';
          returns =
              ap (λ o. o >>= receive_all mpi c [])
                (receive_done mpi c m t t' s s' (advance_last mpi c t s (omega arith) cold));
          played =
              stopped ((index + 1) % 2) (turn_calls c index (m ∷ [])) s (replied mpi c m t' s')
                (t.index == c.rank) (replied-HasPlayed mpi c log logs index m t' s' inv.index_kept);
          stops =
              replied_running mpi c m t' s'
              ∙ running_stopped s (t.index == c.rank)
              ∙ ap (λ i. if i == c.rank then false else s.running) inv.index_kept;
        }
  ]

  HasPlayed-trans :
      (peer a b n m : ℕ) (calls more : List (MpiCall V)) (s s1 s2 : Rank M V Pingpong)
      → HasPlayed log peer 1 1 calls s s1
      → HasPlayed log peer a b more s1 s2
      → 1 + a ≡ n
      → 1 + b ≡ m
      → HasPlayed log peer n m (calls ++ more) s s2
  HasPlayed-trans peer a b n m calls more s s1 s2 p q e_n e_m = record {
    logged = q.logged ∙ ap (λ l. l ++ more) p.logged ∙ append_assoc (log s.mpi) calls more;
    new_sends = p.new_sends ++ q.new_sends;
    sent =
        q.sent ∙ ap (λ xs. xs ++ q.new_sends) p.sent ∙ append_assoc s.sends p.new_sends q.new_sends;
    number_sent =
        omega (arith, length-append p.new_sends q.new_sends, p.number_sent, q.number_sent, e_n);
    to_peer = All-append _ p.new_sends q.new_sends p.to_peer q.to_peer;
    number_posted = omega (arith, p.number_posted, q.number_posted, e_m);
  }

  play :
      (index k : ℕ) (m : Message V) (ms : List (Message V)) (t : Pingpong) (s : Rank M V Pingpong)
      → k + suc (length ms) ≡ 2 * c.n_iters
      → IsAfter c.n_iters index k t
      → HasEnded index (length ms) (m ∷ ms) t s
  play index k m [] t s e inv = last_message index k m t s (omega (arith, e)) inv
  play index k m (m2 ∷ ms) t s e inv =
      let (t', inv', on) = next_task mpi c log logs index k m t s (omega (arith, e)) inv in
      let rest = play index (k + 1) m2 ms t' on.after (omega (arith, e)) inv' in
      record {
        end_task = rest.end_task;
        end_rank = rest.end_rank;
        returns = ap (λ o. o >>= receive_all mpi c (m2 ∷ ms)) on.returns ∙ rest.returns;
        played =
            HasPlayed-trans ((index + 1) % 2) (suc (length ms)) (length ms) _ _ _ _ s on.after
              rest.end_rank on.played rest.played (omega arith) (omega arith);
        stops = rest.stops ∙ ap (λ b. if index == c.rank then false else b) on.still;
      }

  -- A task that is made and gets `2 * nIters` messages, at least one, has made as many requests and
  -- sent as many messages: it requests its own message, and then in turn passes each message on, to
  -- the rank of its peer and for the peer, and, but for the last, requests its own message again. If it
  -- has the index of its rank, the loop of `main` ends with the last message. `log` is any record of
  -- the calls of MPI_Irecv and MPI_Isend.
  pub life_lem :
      (index : ℕ) (ms : List (Message V)) (s : Rank M V Pingpong)
      → 0 < c.n_iters
      → length ms ≡ 2 * c.n_iters
      → (t' : Pingpong) × (s' : Rank M V Pingpong) × (life mpi c index ms s ≡ ok (t', s'))
        × HasPlayed log
            ((index + 1) % 2)
            (2 * c.n_iters)
            (2 * c.n_iters)
            (own_request c index ∷ turn_calls c index ms)
            s
            s'
        × (s'.running ≡ (if index == c.rank then false else s.running))
  life_lem index [] s pos_n e = ground (arith, pos_n, e)
  life_lem index (m ∷ ms) s pos_n e =
      let made = request_own-IsPosted mpi c index s in
      let p =
        play index 0 m ms (record { index = index; it = 0; warmup = true })
          (request_own mpi c index s) (omega (arith, e))
          (record { index_kept = refl; progress = inl (pos_n, refl, refl) }) in
      (
        p.end_task,
        p.end_rank,
        p.returns,
        record {
          logged =
              p.played.logged
              ∙ ap (λ l. l ++ turn_calls c index (m ∷ ms)) (log-request_own mpi log logs c index s)
              ∙ append_assoc (log s.mpi) (own_request c index ∷ []) (turn_calls c index (m ∷ ms));
          new_sends = p.played.new_sends;
          sent = p.played.sent ∙ ap (λ xs. xs ++ p.played.new_sends) made.same_sends;
          number_sent = p.played.number_sent ∙ e;
          to_peer = p.played.to_peer;
          number_posted = omega (arith, p.played.number_posted, made.posted, e);
        },
        p.stops ∙ ap (λ b. if index == c.rank then false else b) made.same_running,
      )
