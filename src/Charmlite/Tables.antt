-- ===== src/Charmlite/Tables.antt =====
-- The tables of archive/charmlite/include/cmk.def.hh, and the lookups in them of ep.hh and
-- callback.hh. An id is a position plus one, and 0 is no id.
use charm_experiments.Common.{
  ℕ, ◌+◌, ◌-◌, ◌≤◌, ◌≡◌, ◌≢◌, Bool, Option, none, some, List, [], ◌∷◌, ◌++◌, arith, ◌==◌,
  if◌then◌else◌, length, get_elem?, get_elem?-append_left, get_elem?-append_length, Outcome, ok,
  deref, ◌>>=◌,
}
use charm_experiments.Charmlite.Message.{Message, Out}

-- `entry_record_`. The function is user code: from an object and a message it makes the new object,
-- and says what it hands to Converse.
pub record EntryRecord (P T : Type 0) : Type 0 where
  pub fn : T → Message P → T × List (Out P)
  pub is_constructor : Bool

-- `chare_record_`; a name is a number here.
pub record ChareRecord : Type 0 where
  pub name : ℕ
  pub size : ℕ

module _ {A : Type 0} where
  -- `register_function_`, which serves `register_message_` and `register_collective_` too.
  unfoldable pub register_function : List A → A → ℕ × List A
  register_function table x = (length table + 1, table ++ (x ∷ []))

  -- The lookup of `combiner_for` and `callback_for`: null at 0, and no check of the range.
  unfoldable pub function_for : List A → ℕ → Outcome (Option A)
  function_for table id =
      if id == 0 then ok none else deref (get_elem? table (id - 1)) >>= λ x. ok (some x)

unfoldable pub register_entry_fn :
    {P T : Type 0}
    → List (EntryRecord P T)
    → (T → Message P → T × List (Out P))
    → Bool
    → ℕ × List (EntryRecord P T)
unfolding register_function
register_entry_fn table f ctor = register_function table (record { fn = f; is_constructor = ctor })

unfoldable pub register_chare : List ChareRecord → ℕ → ℕ → ℕ × List ChareRecord
unfolding register_function
register_chare table name size = register_function table (record { name = name; size = size })

-- `record_for(entry_id_t)`
unfoldable pub record_for :
    {P T : Type 0} → List (EntryRecord P T) → ℕ → Outcome (Option (EntryRecord P T))
unfolding function_for
record_for table id = function_for table id

-- A registered function is found under its id, which is not 0; every id given out before still
-- finds what it found, and no id given out before is the new one.
pub function_for-register_function :
    {A : Type 0} (table : List A) (x : A)
    → let (id, table') = register_function table x in
      (id ≢ 0)
      × (function_for table' id ≡ ok (some x))
      × ((j : ℕ) → j ≤ length table → (function_for table' j ≡ function_for table j) × (j ≢ id))
unfolding register_function function_for
function_for-register_function table x = (
  omega arith,
  ground (arith, get_elem?-append_length table x),
  λ j h. (ground (arith, get_elem?-append_left table (x ∷ []) (j - 1)), omega arith),
)
