-- ===== src/Prelude/Outcome.antt =====
-- Python's exceptions as values. An action on a state that raises keeps what it wrote before.
use mathlib.Core.Path.{◌≡◌, refl}
use mathlib.Core.Bool.{Bool, true, false}
use quick_stock_bot.Prelude.Tests.{if◌then◌else◌}
use mathlib.Core.Option.{Option, none, some}
use native.Mathlib.Omega.{arith}

-- the exceptions that the modelled code can raise
pub data Error : Type 0 where
  zero_division not_finite validation assertion value_error key_error index_error type_error runtime
        client :
      Error

pub data Result {ℓ} (A : Type ℓ) : Type ℓ where
  ok : A → Result A
  err : Error → Result A

module _ {ℓ κ} {A : Type ℓ} {B : Type κ} where
  abbrev pub and_then : Result A → (A → Result B) → Result B
  and_then (ok a) f = f a
  and_then (err e) f = err e

  -- A bind of parts that always return has a result.
  pub and_then_some :
      (m : Result A) (f : A → Result B)
      → ((a : A) × (m ≡ ok a))
      → ((a : A) → (b : B) × (f a ≡ ok b))
      → (b : B) × (and_then m f ≡ ok b)
  and_then_some (ok a) f _ k = k a
  and_then_some (err e) f (a, h) k = absurd (ground arith)

abbrev pub or_raise {ℓ} : {A : Type ℓ} → Error → Option A → Result A
or_raise e none = err e
or_raise e (some a) = ok a

-- The call raises nothing.
abbrev pub Returns {ℓ} : {A : Type ℓ} → Result A → Type 0
Returns (ok _) = Unit
Returns (err _) = ⊥

pub Returns-and_then {ℓ κ} :
    {A : Type ℓ} {B : Type κ} (m : Result A) (f : A → Result B)
    → Returns m
    → ((a : A) → m ≡ ok a → Returns (f a))
    → Returns (and_then m f)
Returns-and_then (ok a) f h k = k a refl
Returns-and_then (err e) f h k = h

pub Returns-or_raise {ℓ} :
    {A : Type ℓ} (e : Error) (o : Option A) → ¬ (o ≡ none) → Returns (or_raise e o)
Returns-or_raise e none h = h refl
Returns-or_raise e (some a) h = tt

pub Returns-if {ℓ} :
    {A : Type ℓ} (b : Bool) (m n : Result A) → Returns m → Returns n → Returns (if b then m else n)
Returns-if true m n hm hn = hm
Returns-if false m n hm hn = hn
