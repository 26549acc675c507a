-- ===== src/Installer/Validator.antt =====
-- installer/wizard/validator.py: the checks of the scanner and of the risk settings. The message of an
-- error is data, with the numbers that it formats.
pub mod Accepted
pub mod Risk
use quick_stock_bot.Prelude.{
  Bool, true, false, not, ◌&&◌, ◌||◌, String, List, [], ◌∷◌, Option, none, some, Result, ok, err,
  Error, mem, is_some, if◌then◌else◌,
}
use quick_stock_bot.Prelude.Int.{ℤ, pos, ltb_ℤ}
use quick_stock_bot.Prelude.Dict.{Dict, lookup, insert}
use quick_stock_bot.Num.{Float, lit, ◌<?◌, ◌≤?◌}
use quick_stock_bot.Control.Values.{
  Json, null, flag, integer, number, text, texts, Conversions, truthy, to_int, to_float,
}

pub data Problem (F : Type 0) : Type 0 where
  not_a_number not_an_integer not_negative beyond_hundred not_positive not_a_fraction : Problem F
  too_low too_high not_below : F → Problem F
  too_few too_many : ℤ → Problem F
  not_one_of : List String → Problem F

abbrev pub Entered : Type 0 → Type 0
Entered F = Dict (Json F)

abbrev pub Problems : Type 0 → Type 0
Problems F = Dict (Problem F)

-- a value that is entered; `null` counts as missing
unfoldable pub present : {F : Type 0} → Option (Json F) → Option (Json F)
present none = none
present (some null) = none
present (some (flag b)) = some (flag b)
present (some (integer n)) = some (integer n)
present (some (number x)) = some (number x)
present (some (text s)) = some (text s)
present (some (texts items)) = some (texts items)

-- `settings.get(key)`
unfoldable pub get : {F : Type 0} → String → Entered F → Option (Json F)
unfolding present
get key settings = present (lookup key settings)

-- `errors[key] = ...`, if there is a problem
pub note : {F : Type 0} → String → Option (Problem F) → Problems F → Problems F
note key none errors = errors
note key (some p) errors = insert key p errors

module _ {F : Type 0} ⦃num : Float F⦄ where
  -- the comparisons with the bounds, which may be missing
  pub float_within : Option F → Option F → F → Option (Problem F)
  float_within none none x = none
  float_within (some lo) none x = if x <? lo then some (too_low lo) else none
  float_within none (some hi) x = if hi <? x then some (too_high hi) else none
  float_within (some lo) (some hi) x =
      if x <? lo then some (too_low lo) else if hi <? x then some (too_high hi) else none

  pub int_within : ℤ → Option ℤ → ℤ → Option (Problem F)
  int_within lo none n = if ltb_ℤ n lo then some (too_few lo) else none
  int_within lo (some hi) n =
      if ltb_ℤ n lo then some (too_few lo) else if ltb_ℤ hi n then some (too_many hi) else none

  -- `int` raises OverflowError, which nothing catches, for an infinite float
  is_infinite : Json F → Bool
  is_infinite null = false
  is_infinite (flag b) = false
  is_infinite (integer n) = false
  is_infinite (number x) = num.eq x x && not (is_some (num.floor x))
  is_infinite (text s) = false
  is_infinite (texts items) = false

module _ {F : Type 0} ⦃num : Float F⦄ (conv : Conversions F) where
  pub float_problem : Option F → Option F → Option (Json F) → Option (Problem F)
  unfolding float_within
  float_problem lo hi none = none
  float_problem lo hi (some v) = elim (to_float conv v) [
    | err e ↦ some not_a_number
    | ok x ↦ float_within lo hi x
  ]

  -- `_check_float`
  pub check_float : Entered F → String → Option F → Option F → Problems F → Problems F
  unfolding float_problem note
  check_float settings key lo hi errors = note key (float_problem lo hi (get key settings)) errors

  pub int_problem : ℤ → Option ℤ → Option (Json F) → Result (Option (Problem F))
  unfolding int_within is_infinite
  int_problem lo hi none = ok none
  int_problem lo hi (some v) = elim (to_int conv v) [
    | err e ↦ if is_infinite v then err e else ok (some not_an_integer)
    | ok n ↦ ok (int_within lo hi n)
  ]

  -- `_check_int`
  pub check_int : Entered F → String → ℤ → Option ℤ → Problems F → Result (Problems F)
  unfolding int_problem note
  check_int settings key lo hi errors = elim (int_problem lo hi (get key settings)) [
    | err e ↦ err e
    | ok p ↦ ok (note key p errors)
  ]

  -- the four checks of floats
  pub check_scanner_floats : Entered F → Problems F
  unfolding check_float
  check_scanner_floats settings = check_float settings "gap_up_min_pct" (some (lit 0 0)) none (
      check_float settings "relative_volume_min" (some (lit 1 0)) none (
        check_float settings "scan_duration_hours" (some (lit 5 1)) (some (lit 24 0))
          (check_float settings "pre_open_lead_hours" (some (lit 0 0)) (some (lit 8 0)) [])))

  unfoldable pub validate_scanner_settings : Entered F → Result (Problems F)
  unfolding check_scanner_floats check_int
  validate_scanner_settings settings =
      elim (check_int settings "max_float_shares" (pos 100_000) none
        (check_scanner_floats settings)) [
          | err e ↦ err e
          | ok errors ↦ check_int settings "active_tickers_n" (pos 1) (some (pos 50)) errors
        ]

  pub loss_problem : Option (Json F) → Option (Problem F)
  loss_problem none = none
  loss_problem (some v) = elim (to_float conv v) [
    | err e ↦ some not_a_number
    | ok x ↦
        if lit 0 0 ≤? x
        then some not_negative
        else if x <? num.negate (lit 100 0)
        then some beyond_hundred
        else none
  ]

  -- `float(settings.get("daily_max_loss_pct") or -2.0)`
  pub loss_or_default : Option (Json F) → Result F
  loss_or_default none = ok (num.negate (lit 2 0))
  loss_or_default (some v) = if truthy v then to_float conv v else ok (num.negate (lit 2 0))

  pub per_trade_problem : Option (Json F) → Option (Json F) → Option (Problem F)
  unfolding loss_or_default
  per_trade_problem loss none = none
  per_trade_problem loss (some v) = elim (to_float conv v) [
    | err e ↦ some not_a_number
    | ok x ↦ elim (loss_or_default loss) [
      | err e ↦ some not_a_number
      | ok limit ↦
          if x ≤? lit 0 0
          then some not_positive
          else if num.abs limit ≤? x
          then some (not_below (num.abs limit))
          else none
    ]
  ]

  -- a value that has to be one of some texts
  pub choice_problem : List String → Option (Json F) → Option (Problem F)
  choice_problem choices none = none
  choice_problem choices (some null) = none
  choice_problem choices (some (text s)) = if mem s choices then none else some (not_one_of choices)
  choice_problem choices (some (flag b)) = some (not_one_of choices)
  choice_problem choices (some (integer n)) = some (not_one_of choices)
  choice_problem choices (some (number x)) = some (not_one_of choices)
  choice_problem choices (some (texts items)) = some (not_one_of choices)

  pub fraction_problem : Option (Json F) → Option (Problem F)
  fraction_problem none = none
  fraction_problem (some v) = elim (to_float conv v) [
    | err e ↦ some not_a_number
    | ok x ↦ if (lit 0 0 <? x) && (x ≤? lit 1 0) then none else some not_a_fraction
  ]

  -- `settings.get("override_risk_per_trade", False)`, as a condition
  pub overrides : Entered F → Bool
  overrides settings = elim (lookup "override_risk_per_trade" settings) [
    | none ↦ false
    | some v ↦ truthy v
  ]

  unfoldable pub validate_risk_settings : Entered F → Problems F
  unfolding loss_problem check_float per_trade_problem choice_problem fraction_problem overrides
      note
  validate_risk_settings settings =
      let loss = get "daily_max_loss_pct" settings in
      let errors₁ = note "daily_max_loss_pct" (loss_problem loss) [] in
      let errors₂ = check_float settings "daily_profit_target_pct" (some (lit 1 2)) none errors₁ in
      let errors₃ =
        note "risk_per_trade_pct"
          (if overrides settings
            then per_trade_problem loss (get "risk_per_trade_pct" settings)
            else none)
          errors₂ in
      let errors₄ =
        note "exit_mode" (choice_problem ("dump" ∷ "trail_off" ∷ []) (get "exit_mode" settings))
          errors₃ in
      let errors₅ =
        note "trail_off_trigger"
          (choice_problem ("per_candle" ∷ "candle_pattern" ∷ []) (get "trail_off_trigger" settings))
          errors₄ in
      note "trail_off_fraction_per_candle"
        (fraction_problem (get "trail_off_fraction_per_candle" settings)) errors₅
