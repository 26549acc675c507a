-- ===== src/Ta/Helpers.antt =====
-- bot/src/bot/ta/helpers.py.
use mathlib.Core.List.{foldl}
use quick_stock_bot.Prelude.{List, [], ◌∷◌, Result, ok, err, Error, if◌then◌else◌, map, last_or}
use quick_stock_bot.Prelude.Int.{ℤ, pos, ◌+ℤ◌}
use quick_stock_bot.Num.{Decimal, lt_decimal, is_zero, Float, lit, ◌⊕◌, ◌⊗◌, ◌⊘◌}
use quick_stock_bot.Models.{Bar}

-- Python's `max` and `min`: the first of the extreme values
abbrev pub max_decimal : Decimal → List Decimal → Decimal
max_decimal = foldl (λ m d. if lt_decimal m d then d else m)

abbrev pub min_decimal : Decimal → List Decimal → Decimal
min_decimal = foldl (λ m d. if lt_decimal d m then d else m)

abbrev pub sum_ℤ : List ℤ → ℤ
sum_ℤ = foldl ◌+ℤ◌ (pos 0)

abbrev pub volumes : List Bar → List ℤ
volumes = map (λ b. b.volume)

module _ {F : Type 0} ⦃num : Float F⦄ where
  -- `sum(xs)`, from the left
  abbrev pub sum : List F → F
  sum = foldl ◌⊕◌ (lit 0 0)

  abbrev pub closes : List Bar → List F
  closes = map (λ b. num.of_decimal b.close)

  pub high_of_day : List Bar → Result F
  high_of_day [] = err Error.value_error
  high_of_day (b ∷ bars) = ok (num.of_decimal (max_decimal b.high (map (λ x. x.high) bars)))

  pub low_of_day : List Bar → Result F
  low_of_day [] = err Error.value_error
  low_of_day (b ∷ bars) = ok (num.of_decimal (min_decimal b.low (map (λ x. x.low) bars)))

  unfoldable pub current_price : Bar → F
  current_price b = num.of_decimal b.close

  abbrev typical_value : Bar → F
  typical_value b =
      ((num.of_decimal b.high ⊕ num.of_decimal b.low ⊕ num.of_decimal b.close) ⊘ lit 3 0)
      ⊗ num.of_int b.volume

  unfoldable pub vwap : List Bar → Result F
  unfolding current_price
  vwap [] = err Error.index_error
  vwap (b ∷ bars) =
      let total_volume = sum_ℤ (volumes (b ∷ bars)) in
      if is_zero total_volume
      then ok (current_price (last_or b bars))
      else ok (sum (map typical_value (b ∷ bars)) ⊘ num.of_int total_volume)
