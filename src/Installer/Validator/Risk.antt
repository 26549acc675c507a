-- ===== src/Installer/Validator/Risk.antt =====
-- installer/wizard/validator.py: what holds of risk settings in which no problem is found.
use quick_stock_bot.Prelude.{
  true, false, String, List, [], ◌∷◌, Option, none, some, Result, ok, err, ◌≡◌, refl, arith, mem,
  ◌⊎◌, inl, inr, ◌&&◌, if◌then◌else◌, Bool-cases,
}
use quick_stock_bot.Prelude.Dict.{lookup}
use quick_stock_bot.Num.{Float, lit, ◌<?◌, ◌≤?◌, ◌≺◌, ◌≼◌, IsNumber, IsOrdered}
use quick_stock_bot.Control.Values.{
  Json, null, flag, integer, number, text, texts, Conversions, to_float, truthy,
}
use quick_stock_bot.Installer.Validator.{
  Problem, not_a_number, not_negative, beyond_hundred, not_positive, not_below, not_a_fraction,
  Entered, get, loss_problem, loss_or_default, per_trade_problem, choice_problem, fraction_problem,
  overrides, validate_risk_settings,
}
use quick_stock_bot.Installer.Validator.Accepted.{IsFloat, note-nil, check_float-nil}

-- What IEEE 754 promises of the numbers that the checks compare: -100 and the absolute value of a number
-- are not NaN.
pub record IsSigned (F : Type 0) ⦃num : Float F⦄ : Type 0 where
  pub hundred : IsNumber (num.negate (lit {F = F} 100 0))
  pub abs_number : (x : F) → IsNumber x → IsNumber (num.abs x)

module _ {F : Type 0} ⦃num : Float F⦄ (conv : Conversions F) where
  -- a limit of the loss that is entered is negative, and not beyond a hundred percent
  abbrev pub IsLoss : Option (Json F) → Type 0
  IsLoss none = Unit
  IsLoss (some v) =
      (x : F) × (to_float conv v ≡ ok x)
      × (IsNumber x → (x ≺ lit 0 0) × (num.negate (lit 100 0) ≼ x))

  -- the limit of the loss, with its default of -2
  abbrev pub IsLimit : Option (Json F) → F → Type 0
  IsLimit none limit = limit ≡ num.negate (lit 2 0)
  IsLimit (some v) limit =
      ((truthy v ≡ true) × (to_float conv v ≡ ok limit))
      ⊎ ((truthy v ≡ false) × (limit ≡ num.negate (lit 2 0)))

  -- a risk per trade is positive and less than the limit of the loss, or than its default
  abbrev pub IsPerTrade : Option (Json F) → Option (Json F) → Type 0
  IsPerTrade loss none = Unit
  IsPerTrade loss (some v) =
      (x : F) × (limit : F) × (to_float conv v ≡ ok x)
      × IsLimit loss limit
      × (IsNumber x → lit 0 0 ≺ x)
      × (IsNumber x → IsNumber limit → x ≺ num.abs limit)

  abbrev pub IsTarget : Option (Json F) → Type 0
  IsTarget none = Unit
  IsTarget (some v) = (x : F) × (to_float conv v ≡ ok x) × (IsNumber x → lit 1 2 ≼ x)

  abbrev pub IsFraction : Option (Json F) → Type 0
  IsFraction none = Unit
  IsFraction (some v) =
      (x : F) × (to_float conv v ≡ ok x) × ((lit 0 0 <? x) ≡ true) × ((x ≤? lit 1 0) ≡ true)

  -- one of the choices, as a text
  abbrev pub IsChoice : List String → Option (Json F) → Type 0
  IsChoice choices none = Unit
  IsChoice choices (some v) = (v ≡ null) ⊎ ((s : String) × (v ≡ text s) × (mem s choices ≡ true))

  loss_or_default-IsLimit :
      (o : Option (Json F)) (limit : F) → loss_or_default conv o ≡ ok limit → IsLimit o limit
  unfolding loss_or_default
  loss_or_default-IsLimit none limit h = ground (arith, h)
  loss_or_default-IsLimit (some v) limit h = elim (Bool-cases (truthy v)) [
    | inl on ↦ inl (on, ground (arith, h))
    | inr off ↦ inr (off, ground (arith, h))
  ]

  fraction_problem-none : (o : Option (Json F)) → fraction_problem conv o ≡ none → IsFraction o
  unfolding fraction_problem
  fraction_problem-none none h = tt
  fraction_problem-none (some v) h = read (to_float conv v) h
    where
      read :
          (r : Result F)
          → elim r as (λ _. Option (Problem F)) [
            | err e ↦ some not_a_number
            | ok x ↦ if (lit 0 0 <? x) && (x ≤? lit 1 0) then none else some not_a_fraction
          ]
            ≡ none
          → (x : F) × (r ≡ ok x) × ((lit 0 0 <? x) ≡ true) × ((x ≤? lit 1 0) ≡ true)
      read (err e) h = absurd (ground (arith, h))
      read (ok x) h = (x, refl, ground (arith, h), ground (arith, h))

  choice_problem-none :
      (choices : List String) (o : Option (Json F))
      → choice_problem conv choices o ≡ none
      → IsChoice choices o
  unfolding choice_problem
  choice_problem-none choices none h = tt
  choice_problem-none choices (some null) h = inl refl
  choice_problem-none choices (some (text s)) h = inr (s, refl, ground (arith, h))
  choice_problem-none choices (some (flag b)) h = absurd (ground (arith, h))
  choice_problem-none choices (some (integer n)) h = absurd (ground (arith, h))
  choice_problem-none choices (some (number x)) h = absurd (ground (arith, h))
  choice_problem-none choices (some (texts items)) h = absurd (ground (arith, h))

  module _ (laws : IsOrdered F) (signed : IsSigned F) where
    zero-IsNumber : IsNumber (lit {F = F} 0 0)
    zero-IsNumber = laws.lit_mono 0 0 0 (ground arith)

    above : (x y : F) → IsNumber x → IsNumber y → (x <? y) ≡ false → y ≼ x
    above x y nx ny h = elim (Bool-cases (y ≤? x)) [
      | inl le ↦ le
      | inr gt ↦ absurd (ground (arith, laws.lt_of_not_le y x ny nx gt, h))
    ]

    loss_problem-none : (o : Option (Json F)) → loss_problem conv o ≡ none → IsLoss o
    unfolding loss_problem
    loss_problem-none none h = tt
    loss_problem-none (some v) h = read (to_float conv v) h
      where
        read :
            (r : Result F)
            → elim r as (λ _. Option (Problem F)) [
              | err e ↦ some not_a_number
              | ok x ↦
                  if lit 0 0 ≤? x
                  then some not_negative
                  else if x <? num.negate (lit 100 0)
                  then some beyond_hundred
                  else none
            ]
              ≡ none
            → (x : F) × (r ≡ ok x) × (IsNumber x → (x ≺ lit 0 0) × (num.negate (lit 100 0) ≼ x))
        read (err e) h = absurd (ground (arith, h))
        read (ok x) h = (
          x,
          refl,
          λ nx. (
            laws.lt_of_not_le (lit 0 0) x zero-IsNumber nx (ground (arith, h)),
            above x (num.negate (lit 100 0)) nx signed.hundred (ground (arith, h)),
          ),
        )

    per_trade_problem-none :
        (loss o : Option (Json F)) → per_trade_problem conv loss o ≡ none → IsPerTrade loss o
    unfolding per_trade_problem
    per_trade_problem-none loss none h = tt
    per_trade_problem-none loss (some v) h =
        let (x, limit, e, e', low, high) = read (to_float conv v) (loss_or_default conv loss) h in
        (x, limit, e, loss_or_default-IsLimit loss limit e', low, high)
      where
        read :
            (r r' : Result F)
            → elim r as (λ _. Option (Problem F)) [
              | err e ↦ some not_a_number
              | ok x ↦ elim r' as (λ _. Option (Problem F)) [
                | err e ↦ some not_a_number
                | ok limit ↦
                    if x ≤? lit 0 0
                    then some not_positive
                    else if num.abs limit ≤? x
                    then some (not_below (num.abs limit))
                    else none
              ]
            ]
              ≡ none
            → (x : F) × (limit : F) × (r ≡ ok x)
              × (r' ≡ ok limit)
              × (IsNumber x → lit 0 0 ≺ x)
              × (IsNumber x → IsNumber limit → x ≺ num.abs limit)
        read (err e) r' h = absurd (ground (arith, h))
        read (ok x) (err e) h = absurd (ground (arith, h))
        read (ok x) (ok limit) h = (
          x,
          limit,
          refl,
          refl,
          λ nx. laws.lt_of_not_le x (lit 0 0) nx zero-IsNumber (ground (arith, h)),
          λ nx nl.
              laws.lt_of_not_le (num.abs limit) x (signed.abs_number limit nl) nx
                (ground (arith, h)),
        )

    IsFloat-IsTarget : (o : Option (Json F)) → IsFloat conv (some (lit 1 2)) none o → IsTarget o
    IsFloat-IsTarget none h = tt
    IsFloat-IsTarget (some v) (x, e, low, _) =
        (x, e, λ nx. above x (lit 1 2) nx (laws.lit_mono 1 1 2 (ground arith)) low)

    pub record IsTradable (settings : Entered F) : Type 0 where
      pub loss : IsLoss (get "daily_max_loss_pct" settings)
      pub target : IsTarget (get "daily_profit_target_pct" settings)
      pub per_trade :
          (v : Json F)
          → lookup "override_risk_per_trade" settings ≡ some v
          → truthy v ≡ true
          → IsPerTrade (get "daily_max_loss_pct" settings) (get "risk_per_trade_pct" settings)
      pub exits : IsChoice ("dump" ∷ "trail_off" ∷ []) (get "exit_mode" settings)
      pub trigger :
          IsChoice ("per_candle" ∷ "candle_pattern" ∷ []) (get "trail_off_trigger" settings)
      pub fraction : IsFraction (get "trail_off_fraction_per_candle" settings)

    overrides-on :
        (settings : Entered F) (v : Json F)
        → lookup "override_risk_per_trade" settings ≡ some v
        → truthy v ≡ true
        → overrides conv settings ≡ true
    unfolding overrides
    overrides-on settings v e h = ground (arith, e, h)

    -- If the risk settings raise no problem, then of the settings that are entered: the loss limit is a
    -- number below zero and at least -100, and the profit target one of at least 0.01; an overriding
    -- risk per trade is above zero and less than the absolute value of the loss limit, or of its
    -- default of -2; the modes are null or among the choices; and the fraction is above zero and at
    -- most one. The bounds of the first three are of numbers other than NaN, which the checks let
    -- through. Comparisons are as IEEE 754 has them, and neither -100 nor the absolute value of a number
    -- is NaN.
    pub validate_risk_settings-IsTradable :
        (settings : Entered F) → validate_risk_settings conv settings ≡ [] → IsTradable settings
    unfolding validate_risk_settings
    validate_risk_settings-IsTradable settings h =
        let (fraction, e₅) = note-nil "trail_off_fraction_per_candle" _ _ h in
        let (trigger, e₄) = note-nil "trail_off_trigger" _ _ e₅ in
        let (exits, e₃) = note-nil "exit_mode" _ _ e₄ in
        let (per_trade, e₂) = note-nil "risk_per_trade_pct" _ _ e₃ in
        let (target, e₁) =
          check_float-nil conv settings "daily_profit_target_pct" (some (lit 1 2)) none _ e₂ in
        let (loss, e₀) = note-nil "daily_max_loss_pct" _ [] e₁ in
        record {
          loss = loss_problem-none (get "daily_max_loss_pct" settings) loss;
          target = IsFloat-IsTarget (get "daily_profit_target_pct" settings) target;
          per_trade =
              λ v e on. per_trade_problem-none _ _ (rw (overrides-on settings v e on) at per_trade);
          exits = choice_problem-none _ (get "exit_mode" settings) exits;
          trigger = choice_problem-none _ (get "trail_off_trigger" settings) trigger;
          fraction = fraction_problem-none (get "trail_off_fraction_per_candle" settings) fraction;
        }
