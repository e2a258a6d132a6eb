-- ===== src/Comex.antt =====
-- archive/tests/comex/component.hh and outbox.hh: a component with numbered input and output ports.
-- It pairs the values that arrive at its inputs into sets, applies its action to complete sets while
-- it is active, and relays what comes out. `V` is the type of the values and `S` the state of the
-- user's component.
pub mod Sets
pub mod Counter
pub mod Activation
pub mod Stranded
pub mod Tests
use charm_experiments.Common.{
  ℕ, zero, suc, ◌+◌, Bool, true, false, ◌&&◌, Option, none, some, List, [], ◌∷◌, ◌++◌, arith, ◌==◌,
  if◌then◌else◌, ◌>>=◌, ok, nat_eq, update, not, deref, ensure, ◌>>◌, Outcome, abort, out_of_fuel,
  ltb, set, get_elem?,
}

-- a value sent to another component by `connector_::relay`; none is a null pointer
pub record Relay (V : Type 0) : Type 0 where
  pub target : ℕ
  pub port : ℕ
  pub content : Option V

-- `in_set` and `out_set`: a tuple of pointers
abbrev pub ValueSet : Type 0 → Type 0
ValueSet V = List (Option V)

-- `std::get<I>`; the tuple has that many elements
abbrev pub slot : {V : Type 0} → ℕ → ValueSet V → Option V
slot zero [] = none
slot zero (v ∷ s) = v
slot (suc i) [] = none
slot (suc i) (v ∷ s) = slot i s

abbrev pub is_some : {V : Type 0} → Option V → Bool
is_some none = false
is_some (some v) = true

-- `is_ready`
abbrev pub is_ready : {V : Type 0} → ValueSet V → Bool
is_ready [] = true
is_ready (v ∷ s) = is_some v && is_ready s

abbrev pub nulls : {V : Type 0} → ℕ → ValueSet V
nulls zero = []
nulls (suc n) = none ∷ nulls n

-- `component_base_` and `component<Inputs, Outputs>`, with what it has relayed, oldest first, and
-- the totals that it has passed to `QdCreate` and `QdProcess`
pub record Component (V S : Type 0) : Type 0 where
  pub n_inputs : ℕ
  pub n_outputs : ℕ
  pub active : Bool
  pub activated : Bool
  pub persistent : Bool
  pub state : S
  pub incoming : List (ValueSet V)
  pub buffer : ℕ → List (Option V)
  pub connectors : ℕ → Option (ℕ × ℕ)
  pub relayed : List (Relay V)
  pub created : ℕ
  pub processed : ℕ

abbrev pub new_component : {V S : Type 0} → ℕ → ℕ → Bool → S → Component V S
new_component inputs outputs persistent state = record {
  n_inputs = inputs;
  n_outputs = outputs;
  active = false;
  activated = false;
  persistent = persistent;
  state = state;
  incoming = [];
  buffer = λ i. [];
  connectors = λ i. none;
  relayed = [];
  created = 0;
  processed = 0;
}

-- `erase` at an index
abbrev pub erase_at {ℓ} : {A : Type ℓ} → ℕ → List A → List A
erase_at i [] = []
erase_at zero (x ∷ xs) = xs
erase_at (suc i) (x ∷ xs) = x ∷ erase_at i xs

abbrev pub suc_of : Option ℕ → Option ℕ
suc_of none = none
suc_of (some i) = some (suc i)

abbrev pub or_zero : Bool → Option ℕ → Option ℕ
or_zero here none = if here then some 0 else none
or_zero here (some i) = some (suc i)

-- `find_ready_`: the first complete set
unfoldable pub find_ready : {V : Type 0} → List (ValueSet V) → Option ℕ
find_ready [] = none
find_ready (s ∷ ss) = let rest = find_ready ss in if is_ready s then some 0 else suc_of rest

-- `find_gap_`: the last set without a value for the port
unfoldable pub find_gap : {V : Type 0} → ℕ → List (ValueSet V) → Option ℕ
find_gap port [] = none
find_gap port (s ∷ ss) = or_zero (not (is_some (slot port s))) (find_gap port ss)

abbrev pub is_empty {ℓ} : {A : Type ℓ} → List A → Bool
is_empty [] = true
is_empty (x ∷ xs) = false

-- `outbox_::empty`; the specialisation for no outputs returns false.
unfoldable pub all_empty : {V : Type 0} → ℕ → (ℕ → List (Option V)) → Bool
all_empty zero f = true
all_empty (suc n) f = is_empty (f n) && all_empty n f

abbrev pub outbox_empty : {V : Type 0} → ℕ → (ℕ → List (Option V)) → Bool
outbox_empty zero f = false
outbox_empty (suc n) f = all_empty (suc n) f

abbrev pub relays : {V : Type 0} → ℕ × ℕ → List (Option V) → List (Relay V)
relays wire [] = []
relays wire (v ∷ vs) = record { target = wire.0; port = wire.1; content = v } ∷ relays wire vs

module _ {V S : Type 0} where
  -- `deliver_` on an output, given its connector
  abbrev pub deliver_to : ℕ → Option V → Option (ℕ × ℕ) → Component V S → Component V S
  deliver_to o v none c = record c { buffer = update o (c.buffer o ++ (v ∷ [])) c.buffer }
  deliver_to o v (some wire) c = record c {
    relayed = c.relayed ++ (record { target = wire.0; port = wire.1; content = v } ∷ []);
  }

  -- `unspool_` of the outputs below `n`, the highest one first
  unfoldable pub unspool : ℕ → ValueSet V → Component V S → Component V S
  unspool zero out c = c
  unspool (suc n) out c = unspool n out (deliver_to n (slot n out) (c.connectors n) c)

  -- `collectible`
  abbrev pub collectible : Component V S → Bool
  collectible c = c.activated && not c.active && outbox_empty c.n_outputs c.buffer

  -- `try_flush`, given the connector of the output
  abbrev pub try_flush : ℕ → ℕ × ℕ → Component V S → Component V S
  try_flush o wire c = record c {
    buffer = update o [] c.buffer;
    relayed = c.relayed ++ relays wire (c.buffer o);
  }

  -- `output_to<O, I>`, to port `I` of the component with number `com`
  unfoldable pub output_to : ℕ → ℕ → ℕ → Component V S → Outcome (Component V S)
  output_to o target port c =
      let connected = record c { connectors = update o (some (target, port)) c.connectors } in
      ensure (not (c.active && is_some (c.connectors o)))
      >> ok (if c.active then try_flush o (target, port) connected else connected)

  -- `buffer_ready_set_`
  abbrev pub buffer_ready_set : ValueSet V → Component V S → Component V S
  buffer_ready_set s c = record c { incoming = s ∷ c.incoming; created = c.created + c.n_inputs }

module _ {V S : Type 0} (action : S → ValueSet V → S × ValueSet V) where
  -- `stage_action(in_set &)` while the component is active
  unfoldable pub act : ValueSet V → Component V S → Component V S
  act s c =
      let r = action c.state s in
      let c' = unspool c.n_outputs r.1 (record c { state = r.0 }) in
      record c' { active = c'.persistent }

  -- `stage_action(in_set &)`: whether the set was consumed
  abbrev pub stage_set : ValueSet V → Component V S → Bool × Component V S
  stage_set s c = if c.active then (true, act s c) else (false, c)

  -- `stage_action(const incoming_iterator &)`
  unfoldable pub stage_at : ℕ → Component V S → Outcome (Component V S)
  stage_at i c = deref (get_elem? c.incoming i) >>= λ s.
      let (consumed, c') = stage_set s c in
      ok (
        if consumed
        then record c' { incoming = erase_at i c'.incoming; processed = c'.processed + c'.n_inputs }
        else c')

  -- the multiple-input branch of `accept`, given the set that `find_gap_` finds
  unfoldable pub accept_in : Option ℕ → ℕ → V → Component V S → Outcome (Component V S)
  accept_in none port v c = ok (record c {
    incoming = set (nulls c.n_inputs) port (some v) ∷ c.incoming;
    created = c.created + 1;
  })
  accept_in (some i) port v c = deref (get_elem? c.incoming i) >>= λ s.
      let s' = set s port (some v) in
      let c' = record c { incoming = set c.incoming i s'; created = c.created + 1 } in
      if is_ready s' then stage_at i c' else ok c'

  -- `accept`; a null value is an invalidation, which is not implemented.
  unfoldable pub accept : ℕ → Option V → Component V S → Outcome (Component V S)
  accept port none c = abort
  accept port (some v) c =
      ensure (ltb port c.n_inputs)
      >> (if c.n_inputs == 1
          then (let (consumed, c') = stage_set (some v ∷ []) c in
              ok (if consumed then c' else buffer_ready_set (some v ∷ []) c'))
          else accept_in (find_gap port c.incoming) port v c)

  -- The loop of `activate`, given what `find_ready_` finds
  unfoldable pub activate_round :
      (Component V S → Outcome (Component V S)) → Option ℕ → Component V S → Outcome (Component V S)
  activate_round next none c = ok c
  activate_round next (some i) c = stage_at i c >>= next

  unfoldable pub activate_loop : ℕ → Component V S → Outcome (Component V S)
  unfolding activate_round
  activate_loop zero c = out_of_fuel
  activate_loop (suc fuel) c =
      if c.active then activate_round (activate_loop fuel) (find_ready c.incoming) c else ok c

  -- `activate`
  unfoldable pub activate : ℕ → Component V S → Outcome (Component V S)
  activate fuel c =
      ensure (not c.active) >> activate_loop fuel (record c { active = true; activated = true })
