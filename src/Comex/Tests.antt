-- ===== src/Comex/Tests.antt =====
-- Runs of the model of archive/tests/comex, and instances of its theorems: an adder of two inputs
-- with one output.
use charm_experiments.Common.{
  update, ℕ, ◌+◌, ◌≡◌, refl, true, false, Option, none, some, [], ◌∷◌, arith, ◌>>=◌, ok, nat_eq,
}
use charm_experiments.Comex.{
  find_ready, activate_round, activate_loop, unspool, act, stage_at, find_gap, accept_in, activate,
  new_component, Component, accept, collectible, output_to, slot, ValueSet,
}
use charm_experiments.Comex.Counter.{accept-IsCounted, IsCounted}
use charm_experiments.Comex.Stranded.{accepts, then_step, done, IsStranded, stranded_stays}

abbrev or_0 : Option ℕ → ℕ
or_0 none = 0
or_0 (some n) = n

abbrev sum : ℕ → ValueSet ℕ → ℕ × ValueSet ℕ
sum calls s = (calls + 1, some (or_0 (slot 0 s) + or_0 (slot 1 s)) ∷ [])

abbrev fresh : Component ℕ ℕ
fresh = new_component 2 1 false 0

-- One value waits at the first port.
abbrev half : Component ℕ ℕ
half = record fresh { incoming = (some 3 ∷ none ∷ []) ∷ []; created = 1 }

half_run : accept sum 0 (some 3) fresh ≡ ok half
unfolding accept accept_in find_gap
half_run = refl

fresh-IsCounted : IsCounted fresh
fresh-IsCounted = record { shaped = tt; counted = refl }

half-IsCounted : IsCounted half
half-IsCounted = record { shaped = (refl, tt); counted = refl }

accept-IsCounted_example :
    (c' : Component ℕ ℕ) × (accept sum 1 (some 4) half ≡ ok c') × IsCounted c'
accept-IsCounted_example = accept-IsCounted sum 1 4 half (omega arith) half-IsCounted

-- The adder completed before its output was connected.
abbrev late : Component ℕ ℕ
late = record fresh {
  activated = true;
  state = 1;
  buffer = update 0 (some 7 ∷ []) fresh.buffer;
  created = 2;
  processed = 2;
}

late_run : (accept sum 0 (some 3) fresh >>= accept sum 1 (some 4) >>= activate sum 2) ≡ ok late
unfolding accept accept_in find_gap stage_at act unspool activate activate_loop activate_round
    find_ready update
late_run = refl

abbrev wired : Component ℕ ℕ
wired = record late { connectors = update 0 (some (5, 0)) late.connectors }

wired_run : output_to 0 5 0 late ≡ ok wired
unfolding output_to
wired_run = refl

wired-IsStranded : IsStranded 0 (some 7) [] wired
unfolding update
wired-IsStranded = record { low = omega arith; connected = refl; waiting = refl }

abbrev wired_half : Component ℕ ℕ
wired_half = record wired { incoming = (some 1 ∷ none ∷ []) ∷ []; created = 3 }

wired_half_run : accept sum 0 (some 1) wired ≡ ok wired_half
unfolding accept accept_in find_gap
wired_half_run = refl

stranded_stays_example : (wired_half.buffer 0 ≡ some 7 ∷ []) × (collectible wired_half ≡ false)
stranded_stays_example =
    stranded_stays 0 (some 7) [] sum wired wired_half wired-IsStranded
      (then_step (accepts 0 (some 1) wired_half_run) done)
