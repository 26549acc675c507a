-- ===== src/Num/Floats.antt =====
-- What the program does with a `float`.
use quick_stock_bot.Prelude.{ℕ, Bool, Option, Result, err, ok, Error, if◌then◌else◌}
use quick_stock_bot.Prelude.Int.{ℤ, pos}
use quick_stock_bot.Num.Decimals.{Decimal}

pub record Float (F : Type 0) : Type 0 where
  pub of_decimal : Decimal → F  -- `float(d)`, and the literals
  pub of_int : ℤ → F
  pub add : F → F → F
  pub sub : F → F → F
  pub mul : F → F → F
  pub quo : F → F → F
  pub negate : F → F
  pub abs : F → F
  pub lt : F → F → Bool
  pub le : F → F → Bool
  pub eq : F → F → Bool
  pub floor : F → Option ℤ  -- `none` where Python raises, on an infinity or NaN
  pub ceil : F → Option ℤ
  pub round : F → ℕ → F
  pub sqrt : F → F
  pub tanh : F → F
  pub log1p : F → F
  pub infinity : F
  pub repr : F → Decimal  -- `Decimal(str(x))`

module _ {F : Type 0} ⦃num : Float F⦄ where
  -- the literal `m / 10 ^ k`
  abbrev pub lit : ℕ → ℕ → F
  lit m k = num.of_decimal (record { mantissa = pos m; exponent = k })

  infixl 65 ◌⊕◌ ◌⊖◌
  infixl 70 ◌⊗◌ ◌⊘◌
  infix 50 ◌<?◌ ◌≤?◌
  abbrev pub ◌⊕◌ : F → F → F
  ◌⊕◌ = num.add

  abbrev pub ◌⊖◌ : F → F → F
  ◌⊖◌ = num.sub

  abbrev pub ◌⊗◌ : F → F → F
  ◌⊗◌ = num.mul

  -- division by a value that is known not to be zero
  abbrev pub ◌⊘◌ : F → F → F
  ◌⊘◌ = num.quo

  abbrev pub ◌<?◌ : F → F → Bool
  ◌<?◌ = num.lt

  abbrev pub ◌≤?◌ : F → F → Bool
  ◌≤?◌ = num.le

  -- Python's `/`
  abbrev pub divide : F → F → Result F
  divide x y = if num.eq y (lit 0 0) then err Error.zero_division else ok (num.quo x y)

  -- Python's `min` and `max` keep the first argument unless the second is strictly beyond it.
  abbrev pub min_f : F → F → F
  min_f x y = if y <? x then y else x

  abbrev pub max_f : F → F → F
  max_f x y = if x <? y then y else x
