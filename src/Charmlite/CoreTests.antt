-- ===== src/Charmlite/CoreTests.antt =====
-- The theorems on tables, the PE, proxies and reductions of archive/charmlite at concrete inputs.
use charm_experiments.Charmlite.Core.Exit.{exit_once}
use charm_experiments.Charmlite.Destination.{
  collective_index_eq, is_broadcast, chare_bcast_root, all_pes, endpoint, to_callback,
}
use charm_experiments.Charmlite.Core.Early.{IsFor, early_or_late, deliver_all}
use charm_experiments.Charmlite.Proxy.Ids.{
  construct_any, broadcast_helper_covers, create_twice, share, construct_twice, array, group,
}
use charm_experiments.Charmlite.Proxy.{broadcast_helper, creation}
use charm_experiments.Charmlite.Reduction.{
  converse_combiner-add, converse_combiner_fresh, add, update, converse_combiner, Combined,
  Combiner, Heap, IsFresh, keep,
}
use charm_experiments.Charmlite.Collective
use charm_experiments.Charmlite.Collective.{
  flush_buffers, invoke, handle, try_deliver, deliver_now, new_collective, Collective, construct,
}
use charm_experiments.Charmlite.Message.{exit_scheduler, broadcast, new_message, Message, with_dst}
use charm_experiments.Charmlite.Core.{
  emit, exit, create, waiting_for, deliver_to_endpoint, kind_at, Pe, Program, deliver, deliver_each,
}
use charm_experiments.Charmlite.Locmgr.{group_locmgr, group_upstream_home, group_upstream, pe_for}
use charm_experiments.Charmlite.Tables.{
  record_for, function_for-register_function, function_for, register_function,
}
use charm_experiments.Common.{
  ap, ok-injective, fault, Option, Outcome, abort, put, ◌-◌, get_elem?, pos, ◌<◌, ◌==◌, ◌≤◌,
  if◌then◌else◌, ok, find, length, ℕ, ◌+◌, ◌≡◌, refl, ◌≢◌, ◌↔◌, true, none, some, List, [], ◌∷◌,
  ◌++◌, arith,
}
use charm_experiments.Charmlite.Tests.{tree, on_pe0, col, message_to, element}

abbrev numbers : List ℕ
numbers = 40 ∷ 50 ∷ []

third_function :
    let (id, table') = register_function numbers 60 in
    (id ≢ 0)
    × (function_for table' id ≡ ok (some 60))
    × ((j : ℕ) → j ≤ 2 → (function_for table' j ≡ function_for numbers j) × (j ≢ id))
third_function = function_for-register_function numbers 60

upstream_of_home : group_upstream 2 0 tree 4 ≡ ok (1 ∷ [])
unfolding pe_for
upstream_of_home = group_upstream_home 2 0 tree 4 refl

abbrev program : Program ℕ ℕ
program = record { my_pe = 0; runtime = λ _. on_pe0; kinds = new_collective ∷ []; callbacks = [] }

abbrev empty_pe : Pe ℕ ℕ
empty_pe = record { table = []; buffer = []; net = [] }

abbrev making : Message ℕ
making = creation col 1 64 0

abbrev arrivals : List (Message ℕ)
arrivals = message_to 0 1 0 7 ∷ message_to 0 2 0 10 ∷ []

-- The new collective, once it has handled the two arrivals.
abbrev served : Collective ℕ ℕ
served = record { id = col; buffers = []; chares = (0, element 17 0) ∷ []; net = [] }

message_to-IsFor : (chare entry value : ℕ) → IsFor col (message_to chare entry 0 value)
message_to-IsFor chare entry value = record {
  chare = chare;
  entry = entry;
  bcast = 0;
  addressed = refl;
  ordinary = refl;
}

served_lem : deliver_each program 2 col true arrivals (new_collective col) ≡ ok served
unfolding deliver_each new_collective Collective.deliver deliver_now try_deliver endpoint record_for
    group_locmgr construct handle invoke is_broadcast chare_bcast_root flush_buffers find put
served_lem = refl

early_or_late_example :
    (early late : Pe ℕ ℕ) × (deliver_all program 2 (arrivals ++ (making ∷ [])) empty_pe ≡ ok early)
    × (deliver_all program 2 (making ∷ arrivals) empty_pe ≡ ok late)
    × (find col early.table ≡ some served)
    × (find col late.table ≡ some served)
    × (waiting_for col early ≡ [])
    × (waiting_for col late ≡ [])
unfolding find kind_at
early_or_late_example =
    early_or_late program 2 col making arrivals empty_pe chare_bcast_root 1 0 new_collective served
      refl refl (message_to-IsFor 0 1 7, (message_to-IsFor 0 2 10, tt)) refl refl refl served_lem

abbrev exit_message : Message ℕ
exit_message = with_dst (new_message 0 64 0) (to_callback 1 (pos 0))

exit_passed_on :
    let m' = with_dst exit_message (to_callback 1 all_pes) in
    (exit exit_message empty_pe ≡ ok (emit empty_pe (broadcast m' ∷ exit_scheduler ∷ [])))
    × (exit m' empty_pe ≡ ok (emit empty_pe (exit_scheduler ∷ [])))
exit_passed_on = exit_once exit_message 1 (pos 0) empty_pe empty_pe refl refl

construct_twice_example :
    let (id1, count1, _) = construct_any 0 2 1 64 1 0 making group 6 in
    let (id2, _, _) = construct_any 0 2 1 64 1 0 making array count1 in
    (id1 ≡ id2) ↔ ((group ≡ group) × (array ≡ array))
construct_twice_example = construct_twice 0 2 1 64 1 0 making group array 6 (omega arith)

create_twice_example :
    deliver program 2
      (creation col 1 64 0)
      (record { table = (col, new_collective col) ∷ []; buffer = (col, []) ∷ []; net = [] })
    ≡ abort
unfolding deliver deliver_to_endpoint endpoint create kind_at deliver_each find put
create_twice_example = create_twice program 2 1 1 64 0 col empty_pe _ new_collective refl refl

three_broadcasts :
    (length (broadcast_helper 3 col 1 making) ≡ 3)
    × ((j : ℕ)
        → 0 < j
        → j < 3
        → get_elem? (broadcast_helper 3 col 1 making) (j - 1) ≡ some (share col 1 making j))
    × (get_elem? (broadcast_helper 3 col 1 making) 2 ≡ some (share col 1 making 0))
three_broadcasts = broadcast_helper_covers col 1 making 3 (omega arith)

-- Messages 0, 1 and 2 hold 5, 6 and 7.
abbrev three : Heap ℕ
three p = if p == 0 then some 5 else if p == 1 then some 6 else if p == 2 then some 7 else none

converse_combiner-add_example :
    (c : Combined ℕ) × (converse_combiner (add ◌+◌) 0 (1 ∷ 2 ∷ []) three ≡ ok c)
    × (c.sum ≡ 0)
    × (c.remote ≡ 1 ∷ 2 ∷ [])
    × (c.heap 0 ≡ some 18)
    × ((p : ℕ) → p ≢ 0 → c.heap p ≡ three p)
converse_combiner-add_example =
    converse_combiner-add ◌+◌ 0 5 (1 ∷ 2 ∷ []) (6 ∷ 7 ∷ []) three refl
      (refl, omega arith, (refl, omega arith, tt))

-- a combiner that puts the sum into a new message
abbrev sum_anew : Option ℕ → Option ℕ → ℕ → ℕ → Heap ℕ → Outcome (ℕ × Heap ℕ)
sum_anew (some a) (some b) lhs rhs h = ok (lhs + rhs + 1, update h (lhs + rhs + 1) (some (a + b)))
sum_anew _ _ lhs rhs h = fault

abbrev fresh_combiner : Combiner ℕ
fresh_combiner lhs rhs h = sum_anew (h lhs) (h rhs) lhs rhs h

sum_anew_own :
    (a b : Option ℕ) (lhs rhs res : ℕ) (h h1 : Heap ℕ)
    → sum_anew a b lhs rhs h ≡ ok (res, h1)
    → lhs + rhs + 1 ≡ res
sum_anew_own (some a) (some b) lhs rhs res h h1 e = ap (λ r. r.0) (ok-injective e)
sum_anew_own (some a) none lhs rhs res h h1 e = cc
sum_anew_own none b lhs rhs res h h1 e = cc

fresh_combiner-IsFresh : IsFresh fresh_combiner
fresh_combiner-IsFresh = record {
  own = λ lhs rhs res h h1 e.
      let at = sum_anew_own (h lhs) (h rhs) lhs rhs res h h1 e in
      ((λ same. omega (arith, at, same)), (λ same. omega (arith, at, same)));
  reads = λ lhs rhs h e. ap (λ o. sum_anew o (h rhs) lhs rhs h) e;
}

-- the message 2 is new, and message 0 is freed
abbrev one_round : Combined ℕ
one_round = record { sum = 0; remote = 1 ∷ []; heap = update (update three 2 (some 11)) 0 none }

one_round_runs : converse_combiner fresh_combiner 0 (1 ∷ []) three ≡ ok one_round
unfolding converse_combiner keep
one_round_runs = refl

abbrev no_others : List ℕ
no_others = []

converse_combiner_fresh_example : (no_others ≡ []) × (one_round.sum ≡ 0) × (one_round.heap 0 ≡ none)
converse_combiner_fresh_example =
    converse_combiner_fresh fresh_combiner fresh_combiner-IsFresh 0 1 [] three one_round
      one_round_runs
