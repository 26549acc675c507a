-- ===== src/Tests/Ta.antt =====
-- bot/src/bot/ta on three candles and on a few values.
use quick_stock_bot.Prelude.{◌+◌, ◌-◌, true, List, [], ◌∷◌, ok, ◌≡◌, arith, length}
use quick_stock_bot.Num.{lit, ◌≼◌}
use quick_stock_bot.Num.Fixed.{Fixed, fixed_float, Fixed-IsOrdered}
use quick_stock_bot.Ta.Config.{default_ta_config}
use quick_stock_bot.Ta.State.{MacdState, PatternMatch}
use quick_stock_bot.Ta.Macd.{Lines, compute_macd, classify_macd}
use quick_stock_bot.Ta.Macd.Lengths.{IsAligned, compute_macd-IsAligned}
use quick_stock_bot.Ta.Macd.Answers.{IsPeriods, classify_macd_answers}
use quick_stock_bot.Ta.Scoring.{compute_score}
use quick_stock_bot.Ta.Scoring.Range.{compute_score_range}
use quick_stock_bot.Tests.Fixtures.{c, candles, bullish}

abbrev prices : List Fixed
prices = c 100 ∷ c 200 ∷ c 300 ∷ c 400 ∷ c 500 ∷ []

compute_macd-IsAligned_example :
    (lines : Lines Fixed) × (compute_macd prices 2 3 2 ≡ ok lines)
    × IsAligned lines (length prices + 2 - (3 + 2))
compute_macd-IsAligned_example =
    compute_macd-IsAligned prices 2 3 2 (ground arith) (ground arith) (ground arith)

default-IsPeriods : IsPeriods default_ta_config
default-IsPeriods = record {
  some_fast = ground arith;
  fast_first = ground arith;
  some_signal = ground arith;
}

classify_macd_answers_example :
    (state : MacdState Fixed) × (classify_macd candles default_ta_config ≡ ok state)
classify_macd_answers_example = classify_macd_answers candles default_ta_config default-IsPeriods

abbrev matches : List (PatternMatch Fixed)
matches = record { matched = true; tag = "hammer"; strength = c 80 } ∷ []

compute_score_range_example :
    let (score, ta) =
      compute_score "AAPL" true (c 50) bullish matches (c 10_000) (c 10_500) (c 9_900) in
    (lit 0 0 ≼ score) × (score ≼ lit 100 0) × (ta.score ≡ score)
compute_score_range_example =
    compute_score_range Fixed-IsOrdered "AAPL" true (c 50) bullish matches (c 10_000) (c 10_500)
      (c 9_900)
