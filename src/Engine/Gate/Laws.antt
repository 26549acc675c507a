-- ===== src/Engine/Gate/Laws.antt =====
-- The gate opens exactly when all of its conditions hold, and always answers.
use quick_stock_bot.Prelude.{
  ℕ, Bool, true, false, String, List, [], ◌∷◌, ok, and_then_some, ◌≡◌, refl, arith, filter, ◌&&◌,
  any, mem, if◌then◌else◌, not,
}
use quick_stock_bot.Num.{is_zero, Float, ◌<?◌}
use quick_stock_bot.Models.{Bar}
use quick_stock_bot.Ta.State.{MacdState}
use quick_stock_bot.Ta.Helpers.{vwap, sum_ℤ, volumes}
use quick_stock_bot.Engine.Messages.{text}
use quick_stock_bot.Engine.Exits.{bearish_tags, has_reversal}
use quick_stock_bot.Engine.Gate.{
  GateResult, refuse, has_higher_highs, price_above_vwap, is_overextended, on_hits,
  macd_eligible_rising, pattern_checks, last_checks, check_entry_gate,
}

abbrev is_nonempty {ℓ} : {A : Type ℓ} → List A → Bool
is_nonempty [] = false
is_nonempty (_ ∷ _) = true

nonempty-filter {ℓ} :
    {A : Type ℓ} (p : A → Bool) (xs : List A) → is_nonempty (filter p xs) ≡ any p xs
nonempty-filter p [] = refl
nonempty-filter p (x ∷ xs) = ground (arith, nonempty-filter p xs)

if_ok {ℓ} : {A : Type ℓ} (c : Bool) (x y : A) → (w : A) × ((if c then ok x else ok y) ≡ ok w)
if_ok true x y = (x, refl)
if_ok false x y = (y, refl)

module _ {F : Type 0} ⦃num : Float F⦄ where
  on_hits_passed :
      (active bearish : List String) (next : GateResult F)
      → (on_hits active bearish next).passed
        ≡ (is_nonempty active && not (is_nonempty bearish) && next.passed)
  unfolding on_hits
  on_hits_passed [] bearish next = refl
  on_hits_passed (_ ∷ _) [] next = refl
  on_hits_passed (_ ∷ _) (_ ∷ _) next = refl

  pattern_checks_passed :
      (tags enabled : List String) (next : GateResult F)
      → (pattern_checks tags enabled next).passed
        ≡ (any (λ t. mem t enabled) tags && not (has_reversal tags) && next.passed)
  unfolding pattern_checks
  pattern_checks_passed tags enabled next =
      rw
        (
          ← nonempty-filter (λ t. mem t enabled) tags,
          ← nonempty-filter (λ t. mem t bearish_tags) tags,
        )
        (on_hits_passed _ _ next)

  vwap_some : (b : Bar) (bars : List Bar) → (w : F) × (vwap (b ∷ bars) ≡ ok w)
  unfolding vwap
  vwap_some b bars = if_ok (is_zero (sum_ℤ (volumes (b ∷ bars)))) _ _

  overextended_some : (bars : List Bar) (pct : F) → (o : Bool) × (is_overextended bars pct ≡ ok o)
  unfolding is_overextended
  overextended_some [] pct = (true, refl)
  overextended_some (b ∷ bars) pct = and_then_some _ _ (vwap_some b bars) λ w. (_, refl)

module _ (F : Type 0) ⦃num : Float F⦄ where
  above_some : (bars : List Bar) → (a : Bool) × (price_above_vwap F bars ≡ ok a)
  unfolding price_above_vwap
  above_some [] = (false, refl)
  above_some (b ∷ bars) = and_then_some _ _ (vwap_some {F = F} b bars) λ w. (_, refl)

module _ {F : Type 0} ⦃num : Float F⦄ where
  -- the answers of the three tests that use the average price, and of the gate as a whole
  pub record Verdict (bars : List Bar) (macd : MacdState F) (tags : List String) (score_setup : F)
      (enabled : List String) (conviction_threshold overextension_pct : F) (lookback : ℕ)
      : Type 0 where
    pub above : Bool
    pub overextended : Bool
    pub gate : GateResult F
    pub above_eq : price_above_vwap F bars ≡ ok above
    pub overextended_eq : is_overextended bars overextension_pct ≡ ok overextended
    pub gate_eq :
        check_entry_gate bars macd tags score_setup enabled conviction_threshold overextension_pct
          lookback
        ≡ ok gate
    pub passed_eq : gate.passed ≡ (
        has_higher_highs F bars lookback
        && above
        && macd_eligible_rising macd
        && any (λ t. mem t enabled) tags
        && not (has_reversal tags)
        && not overextended
        && not (score_setup <? conviction_threshold))

  -- the gate's answer from the answers of its tests
  conclude : Bool → Bool → Bool → Bool → List String → List String → F → F → GateResult F
  conclude higher above eligible overextended tags enabled score_setup conviction_threshold =
      if not higher
      then refuse (text "no higher highs (back-side)")
      else if not above
      then refuse (text "price below VWAP")
      else if not eligible
      then refuse (text "MACD not eligible or not rising")
      else pattern_checks tags enabled (last_checks overextended score_setup conviction_threshold)

  conclude_passed :
      (higher above eligible overextended : Bool) (tags enabled : List String) (score threshold : F)
      → (conclude higher above eligible overextended tags enabled score threshold).passed ≡ (
          higher
          && above
          && eligible
          && any (λ t. mem t enabled) tags
          && not (has_reversal tags)
          && not overextended
          && not (score <? threshold))
  unfolding conclude last_checks
  conclude_passed higher above eligible overextended tags enabled score threshold =
      ground (arith, pattern_checks_passed tags enabled (last_checks overextended score threshold))

  module _ (bars : List Bar) (macd : MacdState F) (tags : List String) (score_setup : F)
      (enabled : List String) (conviction_threshold overextension_pct : F) (lookback : ℕ) where
    gate-eq-conclude :
        (a o : Bool)
        → price_above_vwap F bars ≡ ok a
        → is_overextended bars overextension_pct ≡ ok o
        → check_entry_gate bars macd tags score_setup enabled conviction_threshold overextension_pct
            lookback
          ≡ ok (
              conclude
                (has_higher_highs F bars lookback)
                a
                (macd_eligible_rising macd)
                o
                tags
                enabled
                score_setup
                conviction_threshold)
    unfolding check_entry_gate conclude
    gate-eq-conclude a o ea eo = rw ea (rw eo (ground arith))

    -- The gate answers for every input, and it opens exactly when the highs rise, the price is above
    -- the average, MACD is eligible and rising, some tag is enabled, none is bearish, the price is
    -- not overextended and the score is not below the threshold.
    pub check_entry_gate-Verdict :
        Verdict bars macd tags score_setup enabled conviction_threshold overextension_pct lookback
    check_entry_gate-Verdict =
        let (a, ea) = above_some F bars in
        let (o, eo) = overextended_some bars overextension_pct in
        record {
          above = a;
          overextended = o;
          gate = _;
          above_eq = ea;
          overextended_eq = eo;
          gate_eq = gate-eq-conclude a o ea eo;
          passed_eq = conclude_passed _ a _ o tags enabled score_setup conviction_threshold;
        }
