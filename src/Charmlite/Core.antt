-- ===== src/Charmlite/Core.antt =====
-- archive/charmlite/src/core.cc and include/core.hh: how a PE dispatches a message to a collective
-- or a callback. Collectives log what they send one by one: the order between two of them is lost.
pub mod Early
pub mod Exit
use charm_experiments.Common.{
  ap, ℕ, ◌-◌, ◌≡◌, Bool, true, false, not, ◌||◌, Option, none, some, List, [], ◌∷◌, ◌++◌, ◌==◌,
  if◌then◌else◌, Assoc, find, put, get_elem?, ℤ, pos, eq_ℤ, Outcome, ok, abort, fault, ensure,
  deref, ◌>>=◌, ◌>>◌,
}
use charm_experiments.Charmlite.Destination.{
  CollectiveIndex, collective_index_eq, all_pes, Destination, invalid, to_callback, to_endpoint,
  endpoint, callback_fn, is_broadcast,
}
use charm_experiments.Charmlite.Message.{
  Message, with_dst, Out, sync_send, broadcast, broadcast_all, exit_scheduler,
}
use charm_experiments.Charmlite.Tables.{function_for}
use charm_experiments.Charmlite.Collective
use charm_experiments.Charmlite.Collective.{Collective, Chare, Runtime}

-- What is fixed while a PE runs: its number, the runtime of each collective (its element type and
-- mapper), `collective_kinds_` and `callback_table_`. A callback is user code: it is known by what it
-- hands to Converse.
pub record Program (P T : Type 0) : Type 0 where
  pub my_pe : ℕ
  pub runtime : CollectiveIndex → Runtime P T
  pub kinds : List (CollectiveIndex → Collective P T)
  pub callbacks : List (Message P → List (Out P))

-- `collective_table_`, `collective_buffer_`, and what was handed to Converse outside collectives.
pub record Pe (P T : Type 0) : Type 0 where
  pub table : Assoc CollectiveIndex (Collective P T)
  pub buffer : Assoc CollectiveIndex (List (Message P))
  pub net : List (Out P)

module _ {P T : Type 0} where
  -- `cmk::lookup`
  unfoldable pub lookup : CollectiveIndex → Pe P T → Option (Collective P T)
  lookup col pe = find col pe.table

  -- the messages that wait for a collective; an absent entry is an empty deque
  abbrev pub waiting_for : CollectiveIndex → Pe P T → List (Message P)
  waiting_for col pe = elim (find col pe.buffer) [ none ↦ [] | some ms ↦ ms ]

  -- `emplace` finds no entry under the key
  abbrev pub is_new : CollectiveIndex → Pe P T → Bool
  is_new col pe = elim (find col pe.table) [ none ↦ true | some _ ↦ false ]

  abbrev pub emit : Pe P T → List (Out P) → Pe P T
  emit pe out = record pe { net = pe.net ++ out }

  -- `exit`
  unfoldable pub exit : Message P → Pe P T → Outcome (Pe P T)
  exit m pe =
      if is_broadcast m.dst
      then ok (emit pe (exit_scheduler ∷ []))
      else (callback_fn m.dst >>= λ cb.
          ok (emit pe (broadcast (with_dst m (to_callback cb.id all_pes)) ∷ exit_scheduler ∷ [])))

pub is_new_lem :
    {P T : Type 0} (col : CollectiveIndex) (pe : Pe P T)
    → find col pe.table ≡ none
    → is_new col pe ≡ true
is_new_lem col pe n = ap (λ (o : Option _). elim o [ none ↦ true | some _ ↦ false ]) n

module _ {P T : Type 0} (prog : Program P T) where
  -- the loop of `deliver_to_endpoint_` over the messages that came before the collective
  unfoldable pub deliver_each :
      ℕ → CollectiveIndex → Bool → List (Message P) → Collective P T → Outcome (Collective P T)
  deliver_each fuel col immediate [] c = ok c
  deliver_each fuel col immediate (m ∷ ms) c =
      Collective.deliver (prog.runtime col) fuel m immediate c
      >>= deliver_each fuel col immediate ms

  -- `collective_kinds_[kind - 1]`, on an unsigned number
  unfoldable pub kind_at : ℕ → Outcome (CollectiveIndex → Collective P T)
  kind_at kind = if kind == 0 then fault else deref (get_elem? prog.kinds (kind - 1))

  -- the first branch of `deliver_to_endpoint_`: a new collective
  unfoldable pub create : ℕ → CollectiveIndex → ℕ → Bool → Pe P T → Outcome (Pe P T)
  create fuel col kind immediate pe = do
    make ← kind_at kind
    ensure (is_new col pe)
    c ← deliver_each fuel col immediate (waiting_for col pe) (make col)
    ok (record pe { table = put col c pe.table; buffer = put col [] pe.buffer })

  -- the second one, given what the table has: an existing collective, or one to wait for
  unfoldable pub deliver_to :
      ℕ → CollectiveIndex → Message P → Bool → Option (Collective P T) → Pe P T → Outcome (Pe P T)
  deliver_to fuel col m immediate none pe =
      ok (record pe { buffer = put col (waiting_for col pe ++ (m ∷ [])) pe.buffer })
  deliver_to fuel col m immediate (some c) pe =
      Collective.deliver (prog.runtime col) fuel m immediate c >>= λ c'.
      ok (record pe { table = put col c' pe.table })

  -- `deliver_to_endpoint_`
  unfoldable pub deliver_to_endpoint : ℕ → Message P → Bool → Pe P T → Outcome (Pe P T)
  deliver_to_endpoint fuel m immediate pe = do
    ep ← endpoint m.dst
    if m.has_collective_kind
        then create fuel ep.collective ep.entry immediate pe
        else deliver_to fuel ep.collective m immediate (find ep.collective pe.table) pe

  -- `deliver_to_callback_`, with error checking on
  unfoldable pub deliver_to_callback : Message P → Pe P T → Outcome (Pe P T)
  deliver_to_callback m pe = do
    cb ← callback_fn m.dst
    ensure (eq_ℤ cb.pe all_pes || eq_ℤ cb.pe (pos prog.my_pe))
    found ← function_for prog.callbacks cb.id
    f ← deref found
    ok (emit pe (f m))

  -- `deliver`, the Converse handler
  unfoldable pub deliver : ℕ → Message P → Pe P T → Outcome (Pe P T)
  deliver fuel m pe = elim m.dst [
    | to_endpoint c i e b ↦ deliver_to_endpoint fuel m true pe
    | to_callback id p ↦ deliver_to_callback m pe
    | invalid ↦ abort
  ]

  -- `send`
  unfoldable pub send : ℕ → Message P → Pe P T → Outcome (Pe P T)
  send fuel m pe = elim m.dst [
    | to_callback id p ↦
        ok (emit pe ((if eq_ℤ p all_pes then broadcast_all m else sync_send p m) ∷ []))
    | to_endpoint c i e b ↦
        ensure (not m.has_collective_kind) >> deliver_to_endpoint fuel m false pe
    | invalid ↦ abort
  ]
