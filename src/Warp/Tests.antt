-- ===== src/Warp/Tests.antt =====
-- Runs of the model of warp/warp.hpp and warp/pingpong.cpp, and instances of its theorems, on a world
-- where MPI hands over a list of messages in their order.
use charm_experiments.Warp.Turns.{HasPlayed}
use charm_experiments.Warp.Pingpong.{
  finish, advance, reply, reply, receive, make_tasks, pingpong_entry, start_program, Pingpong,
  Settings,
}
use charm_experiments.Warp.{
  run_probes, foreach_send, run_entry, test_one, foreach_from, foreach_receive, run_once, send,
  request_into, request_sized, request_entry, initialize, EntryInfo, Message, Mpi, Rank,
}
use charm_experiments.Common.{
  some-injective, length, ℕ, ◌+◌, ◌≤◌, ◌<◌, ◌≡◌, refl, sym, ap, subst, true, false, Option, none,
  some, List, [], ◌∷◌, ◌++◌, inl, inr, arith, ◌>>=◌, ok, Outcome, nat_eq,
}
use charm_experiments.Warp.Once.{IsDone, run_once-IsDone}
use charm_experiments.Warp.Tally.{IsIn, IsBounded, IsQuiet, IsTally}
use charm_experiments.Warp.Calls.{MpiCall, wanted, handed, IsLog, own_request, turn_calls}
use charm_experiments.Warp.Play.{life, life_lem}

-- the number of the next request, what has come, and what was called: the requests and sends, the
-- receives that were tested, how many were done, and how often something was sent
record World : Type 0 where
  pub next : ℕ
  pub incoming : List (Message ℕ)
  pub calls : List (MpiCall ℕ)
  pub tests : List ℕ
  pub found : ℕ
  pub isends : ℕ

abbrev blank : Message ℕ
blank = record { obj = 0; ep = 0; size = 0; tag = 0; contents = 0 }

-- a message for task 0
abbrev message_of : ℕ → Message ℕ
message_of contents = record { obj = 0; ep = 0; size = 8; tag = 0; contents = contents }

-- MPI_Test of a receive takes the first message that has come; all are for task 0.
abbrev valid : Message ℕ → Message ℕ
valid m = record m { obj = 0; ep = 0 }

abbrev take_first : ℕ → World → List (Message ℕ) → Option (Message ℕ) × World
take_first req w [] = (none, record w { tests = req ∷ w.tests })
take_first req w (m ∷ ms) =
    (some (valid m), record w { tests = req ∷ w.tests; incoming = ms; found = w.found + 1 })

abbrev mpi : Mpi World ℕ
mpi = record {
  new_memory = λ w. blank;
  irecv = λ m w. (
    w.next,
    record w { next = w.next + 1; calls = w.calls ++ (wanted m.obj m.ep m.size m.tag ∷ []) },
  );
  isend = λ rank m w. (
    w.next,
    record w { next = w.next + 1; calls = w.calls ++ (handed rank m ∷ []); isends = w.isends + 1 },
  );
  test_send = λ req w. (true, w);
  test_receive = λ req w. take_first req w w.incoming;
  iprobe = λ tag w. (none, w);
  place = λ req before behind. (false, length behind);
}

abbrev budget : World → ℕ
budget w = length w.incoming

abbrev log : World → List (MpiCall ℕ)
log w = w.calls

abbrev HasTested : World → ℕ → Type 0
HasTested w req = IsIn req w.tests

abbrev come : World → ℕ
come w = w.found

abbrev went : World → ℕ
went w = w.isends

calls-IsLog : IsLog mpi log
calls-IsLog = record { irecv_logged = λ m w. refl; isend_logged = λ rank m w. refl }

-- rank 0 of two, with two iterations
abbrev settings : Settings
settings = record { rank = 0; n_ranks = 2; n_iters = 2; receive_index = 0; msg_size = 8 }

abbrev table : List (EntryInfo World ℕ Pingpong)
table = pingpong_entry mpi settings ∷ []

abbrev junk : Pingpong
junk = record { index = 0; it = 0; warmup = true }

abbrev empty_rank : Rank World ℕ Pingpong
empty_rank = record {
  tasks = [];
  passed = [];
  ahead = [];
  sends = [];
  probes = [];
  running = true;
  mpi = record {
    next = 0;
    incoming = message_of 1 ∷ (message_of 2 ∷ []);
    calls = [];
    tests = [];
    found = 0;
    isends = 0;
  };
}

abbrev rank_0 : Rank World ℕ Pingpong
rank_0 = start_program mpi settings junk empty_rank

messages-IsBounded : IsBounded mpi budget 0 1
messages-IsBounded = record {
  irecv_keeps = λ m w. omega arith;
  isend_keeps = λ rank m w. omega arith;
  test_send_keeps = λ req w. omega arith;
  test_receive_keeps = λ req w. first_keeps req w w.incoming;
  test_receive_some = λ req w m e. first_some req w w.incoming m e;
}
  where
    first_keeps :
        (req : ℕ) (w : World) (ms : List (Message ℕ))
        → length (take_first req (record w { incoming = ms }) ms).1.incoming ≤ length ms
    first_keeps req w [] = omega arith
    first_keeps req w (m ∷ ms) = omega arith

    first_some :
        (req : ℕ) (w : World) (ms : List (Message ℕ)) (m : Message ℕ)
        → (take_first req w ms).0 ≡ some m
        → (length (take_first req w ms).1.incoming < length ms) × (m.ep ≡ 0) × (m.obj < 1)
    first_some req w [] m e = cc
    first_some req w (m1 ∷ ms) m e = (
      omega arith,
      ap (λ m. m.ep) (sym (some-injective e)),
      subst (λ m. m.obj < 1) (some-injective e) (omega arith),
    )

world-IsTally : IsTally mpi HasTested come went
world-IsTally = record {
  irecv_quiet = λ m w. quiet w _ refl refl (λ req h. h);
  test_send_quiet = λ req w. quiet w _ refl refl (λ req h. h);
  iprobe_quiet = λ tag w. quiet w _ refl refl (λ req h. h);
  isend_come = λ rank m w. refl;
  isend_went = λ rank m w. refl;
  isend_tested = λ rank m w req h. h;
  waits_quiet = λ req w e. first_waits req w w.incoming e;
  come_more = λ req w m e. first_more req w w.incoming m e;
  receive_went = λ req w. first_went req w w.incoming;
  receive_tested = λ req w other h. first_tested req w w.incoming other (inr h);
  now_tested = λ req w. first_tested req w w.incoming req (inl refl);
}
  where
    quiet :
        (w w' : World)
        → come w' ≡ come w
        → went w' ≡ went w
        → ((req : ℕ) → HasTested w req → HasTested w' req)
        → IsQuiet HasTested come went w w'
    quiet w w' a b c = record { same_come = a; same_went = b; still_tested = c }

    first_waits :
        (req : ℕ) (w : World) (ms : List (Message ℕ))
        → (take_first req w ms).0 ≡ none
        → IsQuiet HasTested come went w (take_first req w ms).1
    first_waits req w [] e = quiet w _ refl refl (λ r h. inr h)
    first_waits req w (m ∷ ms) e = cc

    first_more :
        (req : ℕ) (w : World) (ms : List (Message ℕ)) (m : Message ℕ)
        → (take_first req w ms).0 ≡ some m
        → come (take_first req w ms).1 ≡ come w + 1
    first_more req w [] m e = cc
    first_more req w (m1 ∷ ms) m e = refl

    first_went :
        (req : ℕ) (w : World) (ms : List (Message ℕ)) → went (take_first req w ms).1 ≡ went w
    first_went req w [] = refl
    first_went req w (m ∷ ms) = refl

    first_tested :
        (req : ℕ) (w : World) (ms : List (Message ℕ)) (other : ℕ)
        → IsIn other (req ∷ w.tests)
        → HasTested (take_first req w ms).1 other
    first_tested req w [] other h = h
    first_tested req w (m ∷ ms) other h = h

run_once-IsDone_example :
    (s' : Rank World ℕ Pingpong) × (run_once mpi table 20 rank_0 ≡ ok s')
    × IsDone mpi budget settings 1 messages-IsBounded HasTested come went world-IsTally table refl
        rank_0 s'
unfolding start_program make_tasks request_entry request_sized request_into send
run_once-IsDone_example =
    run_once-IsDone mpi budget settings 1 messages-IsBounded HasTested come went world-IsTally table
      refl 20 rank_0 refl (omega arith)

abbrev four_messages : List (Message ℕ)
four_messages = message_of 1 ∷ message_of 2 ∷ message_of 3 ∷ message_of 4 ∷ []

life_lem_example :
    (t' : Pingpong) × (s' : Rank World ℕ Pingpong) × (life mpi settings 0 four_messages empty_rank
      ≡ ok (t', s'))
    × HasPlayed log 1 4 4
        (own_request settings 0 ∷ turn_calls settings 0 four_messages)
        empty_rank
        s'
    × (s'.running ≡ false)
life_lem_example =
    life_lem mpi settings log calls-IsLog 0 four_messages empty_rank (omega arith) (omega arith)

abbrev counts : Rank World ℕ Pingpong → Outcome (ℕ × ℕ)
counts s = ok (length s.ahead, length s.sends)

-- Two messages have come, and the task has one more request.
one_pass : (run_once mpi table 20 rank_0 >>= counts) ≡ ok (1, 2)
unfolding start_program make_tasks request_entry request_sized request_into send run_once
    foreach_receive foreach_from test_one run_entry foreach_send run_probes receive reply advance
    finish
one_pass = refl

always_initialized : initialize (15 ∷ 3 ∷ []) ≡ true
always_initialized = refl
