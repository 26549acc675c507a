-- ===== src/Ta/Scoring.antt =====
-- bot/src/bot/ta/scoring.py.
pub mod Range
use quick_stock_bot.Prelude.{Bool, String, List, [], ◌∷◌, if◌then◌else◌}
use quick_stock_bot.Num.{Float, lit, ◌⊕◌, ◌⊖◌, ◌⊗◌, ◌⊘◌, ◌<?◌, min_f, max_f}
use quick_stock_bot.Ta.State.{MacdState, PatternMatch, TickerTa}
use quick_stock_bot.Ta.Helpers.{sum}
use quick_stock_bot.Ta.Patterns.{matched_tags}

module _ {F : Type 0} ⦃num : Float F⦄ where
  matched_strengths : List (PatternMatch F) → List F
  matched_strengths [] = []
  matched_strengths (m ∷ ms) =
      if m.matched then m.strength ∷ matched_strengths ms else matched_strengths ms

  -- The steps of `compute_score`, each on the running total.
  with_news : Bool → F → F → F
  with_news has_news sentiment_score raw =
      if has_news
      then raw
        ⊕ lit 5 0
        ⊕ max_f (num.negate (lit 10 0)) (min_f (lit 10 0) (sentiment_score ⊗ lit 10 0))
      else raw

  with_macd : MacdState F → F → F
  with_macd macd raw = if macd.eligible then raw ⊕ macd.favorability ⊗ lit 30 0 else raw

  with_patterns : List (PatternMatch F) → F → F
  unfolding matched_strengths
  with_patterns matches raw = raw ⊕ min_f (lit 20 0) (sum (matched_strengths matches) ⊗ lit 15 0)

  with_range : F → F → F → F → F
  with_range price high low raw =
      let day_range = high ⊖ low in
      if lit 1 10 <? day_range then raw ⊕ (lit 1 0 ⊖ (price ⊖ low) ⊘ day_range) ⊗ lit 10 0 else raw

  unfoldable pub compute_score :
      String → Bool → F → MacdState F → List (PatternMatch F) → F → F → F → F × TickerTa F
  unfolding with_news with_macd with_patterns with_range
  compute_score symbol has_news sentiment_score macd matches price high low =
      let raw =
        with_range price high low
          (with_patterns matches (with_macd macd (with_news has_news sentiment_score (lit 0 0)))) in
      let score = max_f (lit 0 0) (min_f (lit 100 0) raw) in
      (
        score,
        record {
          symbol = symbol;
          macd_state = macd;
          pattern_tags = matched_tags matches;
          score = score;
        },
      )
