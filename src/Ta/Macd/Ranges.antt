-- ===== src/Ta/Macd/Ranges.antt =====
-- bot/src/bot/ta/macd.py, `_favorability_enforce_on`: the range of the favorability.
use quick_stock_bot.Prelude.{◌||◌, ◌≡◌, inl, inr, refl, arith, Bool-cases, if◌then◌else◌}
use quick_stock_bot.Num.{Float, lit, ◌<?◌, ◌≤?◌, ◌≼◌, IsOrdered, clamp_bounds}
use quick_stock_bot.Ta.Macd.{favorability_enforce_on}

module _ {F : Type 0} ⦃num : Float F⦄ (laws : IsOrdered F) where
  -- With MACD enforced above zero, a value that is not above zero or a falling slope scores -1, and
  -- any other state, NaN included, scores between 0 and 1.
  pub favorability_enforce_on_range :
      (slope hist value : F)
      → let favor = favorability_enforce_on slope hist value in
        if (value ≤? lit 0 0) || (slope <? lit 0 0)
        then favor ≡ num.negate (lit 1 0)
        else (lit 0 0 ≼ favor) × (favor ≼ lit 1 0)
  unfolding favorability_enforce_on
  favorability_enforce_on_range slope hist value =
      elim (Bool-cases ((value ≤? lit 0 0) || (slope <? lit 0 0))) [
        | inl out ↦ rw out refl
        | inr within ↦
            rw within (clamp_bounds laws (lit 0 0) (lit 1 0) _ (laws.lit_mono 0 1 0 (ground arith)))
      ]
