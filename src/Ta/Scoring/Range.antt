-- ===== src/Ta/Scoring/Range.antt =====
-- bot/src/bot/ta/scoring.py: the range of the score.
use quick_stock_bot.Prelude.{Bool, String, List, arith, ◌≡◌, refl}
use quick_stock_bot.Num.{Float, lit, ◌≼◌, IsOrdered, clamp_bounds}
use quick_stock_bot.Ta.State.{MacdState, PatternMatch}
use quick_stock_bot.Ta.Scoring.{compute_score}

module _ {F : Type 0} ⦃num : Float F⦄ (laws : IsOrdered F) where
  -- The score is between 0 and 100 for every input, a NaN or an inverted range of the day included,
  -- and the record that is returned with it carries the same score.
  pub compute_score_range :
      (symbol : String) (has_news : Bool) (sentiment_score : F) (macd : MacdState F)
      (matches : List (PatternMatch F)) (price high low : F)
      → let (score, ta) =
          compute_score symbol has_news sentiment_score macd matches price high low in
        (lit 0 0 ≼ score) × (score ≼ lit 100 0) × (ta.score ≡ score)
  unfolding compute_score
  compute_score_range symbol has_news sentiment_score macd matches price high low =
      let (lower, upper) =
        clamp_bounds laws (lit 0 0) (lit 100 0) _ (laws.lit_mono 0 100 0 (ground arith)) in
      (lower, upper, refl)
