-- ===== src/Engine/Gate.antt =====
-- bot/src/bot/engine/gate.py: the conditions of an entry.
pub mod Laws
use quick_stock_bot.Prelude.{
  ℕ, Bool, true, false, ◌&&◌, not, String, List, [], ◌∷◌, Result, ok, and_then, ltb, if◌then◌else◌,
  length, filter, mem, map, last_n, last_or,
}
use quick_stock_bot.Num.{Float, lit, ◌⊖◌, ◌⊗◌, ◌⊘◌, ◌<?◌, ◌≤?◌}
use quick_stock_bot.Models.{Bar}
use quick_stock_bot.Ta.State.{MacdState}
use quick_stock_bot.Ta.Helpers.{vwap, current_price}
use quick_stock_bot.Engine.Messages.{Reason, text}
use quick_stock_bot.Engine.Exits.{bearish_tags}

pub record GateResult (F : Type 0) : Type 0 where
  pub passed : Bool
  pub reason : Reason F

module _ {F : Type 0} ⦃num : Float F⦄ where
  abbrev refuse : Reason F → GateResult F
  refuse r = record { passed = false; reason = r }

  -- each value is above the one before it
  abbrev pub rising : List F → Bool
  rising [] = true
  rising (x ∷ []) = true
  rising (x ∷ y ∷ ys) = (x <? y) && rising (y ∷ ys)

  -- `_macd_eligible_rising`
  abbrev pub macd_eligible_rising : MacdState F → Bool
  macd_eligible_rising macd = macd.eligible && (lit 0 0 <? macd.slope)

  -- `_is_overextended`
  pub is_overextended : List Bar → F → Result Bool
  is_overextended [] overextension_pct = ok true
  is_overextended (b ∷ bars) overextension_pct = and_then (vwap (b ∷ bars)) λ session_vwap.
      let price = current_price (last_or b bars) in
      ok (
        if session_vwap ≤? lit 0 0
        then false
        else overextension_pct <? ((price ⊖ session_vwap) ⊘ session_vwap) ⊗ lit 100 0)

module _ (F : Type 0) ⦃num : Float F⦄ where
  -- `_has_higher_highs`
  pub has_higher_highs : List Bar → ℕ → Bool
  has_higher_highs bars lookback =
      if ltb (length bars) lookback
      then false
      else rising {F = F} (map (λ b. num.of_decimal b.high) (last_n lookback bars))

  -- `_price_above_vwap`
  pub price_above_vwap : List Bar → Result Bool
  price_above_vwap [] = ok false
  price_above_vwap (b ∷ bars) =
      and_then (vwap {F = F} (b ∷ bars))
        λ session_vwap. ok (session_vwap <? current_price (last_or b bars))

module _ {F : Type 0} ⦃num : Float F⦄ where
  -- the last two conditions
  last_checks : Bool → F → F → GateResult F
  last_checks overextended score_setup conviction_threshold =
      if overextended
      then refuse (text "price overextended above VWAP")
      else if score_setup <? conviction_threshold
      then refuse (Reason.low_conviction score_setup conviction_threshold)
      else record { passed = true; reason = text "all gates passed" }

  -- by the enabled patterns and the bearish ones among the tags
  on_hits : List String → List String → GateResult F → GateResult F
  on_hits [] bearish_hits next = refuse (text "no enabled bullish pattern")
  on_hits (_ ∷ _) [] next = next
  on_hits (_ ∷ _) (t ∷ ts) next = refuse (Reason.bearish_detected (t ∷ ts))

  pattern_checks : List String → List String → GateResult F → GateResult F
  unfolding on_hits
  pattern_checks tags enabled next =
      on_hits (filter (λ t. mem t enabled) tags) (filter (λ t. mem t bearish_tags) tags) next

  unfoldable pub check_entry_gate :
      List Bar → MacdState F → List String → F → List String → F → F → ℕ → Result (GateResult F)
  unfolding has_higher_highs price_above_vwap is_overextended last_checks pattern_checks
  check_entry_gate bars macd tags score_setup enabled conviction_threshold overextension_pct
        lookback =
      if not (has_higher_highs F bars lookback)
      then ok (refuse (text "no higher highs (back-side)"))
      else and_then (price_above_vwap F bars) λ above.
        if not above
        then ok (refuse (text "price below VWAP"))
        else if not (macd_eligible_rising macd)
        then ok (refuse (text "MACD not eligible or not rising"))
        else and_then (is_overextended bars overextension_pct) λ overextended.
          ok (
            pattern_checks tags enabled (last_checks overextended score_setup conviction_threshold))
