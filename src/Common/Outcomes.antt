-- ===== src/Common/Outcomes.antt =====
-- What a call of the C++ code comes to: a value, `CmiAbort` or a failed assertion, undefined
-- behaviour, or (for a loop on fuel) no end within the fuel.
use charm_experiments.Common.Tests.{if◌then◌else◌}
use mathlib.Core.Path.{◌≡◌, refl, subst}
use mathlib.Core.Bool.{Bool, true, false}
use mathlib.Core.Option.{Option, none, some}

pub data Outcome {ℓ} (A : Type ℓ) : Type ℓ where
  ok : A → Outcome A
  abort fault out_of_fuel : Outcome A

infixl 5 ◌>>=◌ ◌>>◌
abbrev pub ◌>>=◌ {ℓ κ} : {A : Type ℓ} {B : Type κ} → Outcome A → (A → Outcome B) → Outcome B
ok a >>= f = f a
abort >>= f = abort
fault >>= f = fault
out_of_fuel >>= f = out_of_fuel

abbrev pub ◌>>◌ {ℓ} : {B : Type ℓ} → Outcome (Unit {0}) → Outcome B → Outcome B
m >> k = m >>= λ _. k

-- `CmiAssert`, with error checking on.
abbrev pub ensure : Bool → Outcome (Unit {0})
ensure true = ok tt
ensure false = abort

-- The use of a pointer or of an element that may not be there.
abbrev pub deref {ℓ} : {A : Type ℓ} → Option A → Outcome A
deref none = fault
deref (some a) = ok a

-- Inversion of a successful bind.
pub >>=-eq-ok {ℓ κ} :
    {A : Type ℓ} {B : Type κ} (o : Outcome A) (f : A → Outcome B) {b : B}
    → (o >>= f) ≡ ok b
    → (a : A) × (o ≡ ok a) × (f a ≡ ok b)
>>=-eq-ok (ok a) f h = (a, refl, h)
>>=-eq-ok abort f h = cc
>>=-eq-ok fault f h = cc
>>=-eq-ok out_of_fuel f h = cc

pub >>=_assoc {ℓ κ μ} :
    {A : Type ℓ} {B : Type κ} {C : Type μ} (o : Outcome A) (f : A → Outcome B) (g : B → Outcome C)
    → ((o >>= f) >>= g) ≡ (o >>= λ a. f a >>= g)
>>=_assoc (ok a) f g = refl
>>=_assoc abort f g = refl
>>=_assoc fault f g = refl
>>=_assoc out_of_fuel f g = refl

-- A bind still succeeds where its second part succeeds more often.
pub >>=_mono {ℓ κ} :
    {A : Type ℓ} {B : Type κ} (o : Outcome A) (f g : A → Outcome B) {b : B}
    → ((a : A) → f a ≡ ok b → g a ≡ ok b)
    → (o >>= f) ≡ ok b
    → (o >>= g) ≡ ok b
>>=_mono (ok a) f g h e = h a e
>>=_mono abort f g h e = cc
>>=_mono fault f g h e = cc
>>=_mono out_of_fuel f g h e = cc

pub ok-injective {ℓ} : {A : Type ℓ} {a b : A} → ok a ≡ ok b → a ≡ b
ok-injective h = cc

-- A branch that succeeds more often.
pub if_mono {ℓ} :
    {A : Type ℓ} (b : Bool) (x y z : Outcome A) {v : A}
    → (x ≡ ok v → y ≡ ok v)
    → (if b then x else z) ≡ ok v
    → (if b then y else z) ≡ ok v
if_mono true x y z h e = h e
if_mono false x y z h e = e

-- `P` holds of what the call returns, where it returns.
pub Returns {ℓ κ} : {A : Type ℓ} → (A → Type κ) → Outcome A → Type (ℓ ⊔ κ)
Returns {A = A} P o = (a : A) → o ≡ ok a → P a

module _ {ℓ κ} {A : Type ℓ} (P : A → Type κ) where
  pub Returns-ok : (a : A) → P a → Returns P (ok a)
  unfolding Returns
  Returns-ok a h b e = subst P (ok-injective e) h

  pub Returns-abort : Returns P abort
  unfolding Returns
  Returns-abort a e = cc

  pub Returns-out_of_fuel : Returns P out_of_fuel
  unfolding Returns
  Returns-out_of_fuel a e = cc

  pub Returns-use : (o : Outcome A) → Returns P o → (a : A) → o ≡ ok a → P a
  unfolding Returns
  Returns-use o h = h

  pub Returns-if :
      (b : Bool) (x y : Outcome A) → Returns P x → Returns P y → Returns P (if b then x else y)
  Returns-if true x y hx hy = hx
  Returns-if false x y hx hy = hy

  pub Returns->>= {μ ν} :
      {B : Type μ} (Q : B → Type ν) (o : Outcome B) (f : B → Outcome A)
      → Returns Q o
      → ((b : B) → Q b → Returns P (f b))
      → Returns P (o >>= f)
  unfolding Returns
  Returns->>= Q (ok b) f h g a e = g b (h b refl) a e
  Returns->>= Q abort f h g a e = cc
  Returns->>= Q fault f h g a e = cc
  Returns->>= Q out_of_fuel f h g a e = cc

  -- where nothing need be known of the first part
  pub Returns-after {μ} :
      {B : Type μ} (o : Outcome B) (f : B → Outcome A)
      → ((b : B) → Returns P (f b))
      → Returns P (o >>= f)
  unfolding Returns
  Returns-after (ok b) f g a e = g b a e
  Returns-after abort f g a e = cc
  Returns-after fault f g a e = cc
  Returns-after out_of_fuel f g a e = cc
