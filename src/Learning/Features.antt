-- ===== src/Learning/Features.antt =====
-- bot/src/bot/learning/features.py.
pub mod Order
use Prim.Native.String.{◌++◌ as ◌<>◌}
use quick_stock_bot.Prelude.{
  Bool, true, false, String, List, [], ◌∷◌, ◌++◌, Option, none, some, not, map, mem, if◌then◌else◌,
}
use quick_stock_bot.Prelude.Int.{ℤ}
use quick_stock_bot.Prelude.Dict.{Dict, lookup, insert}
use quick_stock_bot.Num.{Float, lit}
use quick_stock_bot.Scanner.State.{TickerState, ScanRole, leader, laggard, standalone}

-- `KNOWN_PATTERN_TAGS`
pub known_pattern_tags : List String
known_pattern_tags = "bullish_engulfing" ∷ "hammer" ∷ "morning_star" ∷ "bullish_continuation" ∷ []

-- `FEATURE_ORDER`
unfoldable pub feature_order : List String
unfolding known_pattern_tags
feature_order =
    "news_sentiment"
    ∷ "has_news"
    ∷ "macd_value"
    ∷ "macd_slope"
    ∷ "macd_hist"
    ∷ "macd_favorability"
    ∷ "macd_eligible"
    ∷ "rvol"
    ∷ "float_shares_log"
    ∷ "unknown_float"
    ∷ "pct_change"
    ∷ "gap_pct"
    ∷ "role_leader"
    ∷ "role_laggard"
    ∷ "time_of_day_frac"
    ∷ "sizing"
    ∷ "score"
    ∷ map (λ tag. "pattern_" <> tag) known_pattern_tags

is_leader : ScanRole → Bool
is_leader leader = true
is_leader laggard = false
is_leader standalone = false

is_laggard : ScanRole → Bool
is_laggard leader = false
is_laggard laggard = true
is_laggard standalone = false

module _ {F : Type 0} ⦃num : Float F⦄ where
  flag : Bool → F
  flag b = if b then lit 1 0 else lit 0 0

  float_log : Option ℤ → F
  float_log none = lit 0 0
  float_log (some shares) = num.log1p (num.of_int shares)

  -- the loop over the pattern tags
  with_patterns : List String → List String → Dict F → Dict F
  unfolding flag
  with_patterns [] tags d = d
  with_patterns (tag ∷ known) tags d =
      with_patterns known tags (insert ("pattern_" <> tag) (flag (mem tag tags)) d)

  unfoldable pub extract_features : TickerState F → F → F → F → Dict F
  unfolding flag float_log with_patterns is_leader is_laggard known_pattern_tags
  extract_features state sentiment_score time_of_day_frac sizing =
      with_patterns known_pattern_tags state.pattern_tags (
        ("news_sentiment", sentiment_score)
        ∷ ("has_news", flag (not (num.eq sentiment_score (lit 0 0))))
        ∷ ("macd_value", state.macd_state.value)
        ∷ ("macd_slope", state.macd_state.slope)
        ∷ ("macd_hist", state.macd_state.hist)
        ∷ ("macd_favorability", state.macd_state.favorability)
        ∷ ("macd_eligible", flag state.macd_state.eligible)
        ∷ ("rvol", state.rvol)
        ∷ ("float_shares_log", float_log state.float_shares)
        ∷ ("unknown_float", flag state.unknown_float)
        ∷ ("pct_change", state.pct_change)
        ∷ ("gap_pct", state.gap_pct)
        ∷ ("role_leader", flag (is_leader state.role))
        ∷ ("role_laggard", flag (is_laggard state.role))
        ∷ ("time_of_day_frac", time_of_day_frac)
        ∷ ("sizing", sizing)
        ∷ ("score", state.score)
        ∷ [])

  get_or_zero : Option F → F
  get_or_zero none = lit 0 0
  get_or_zero (some x) = x

  -- `[features.get(key, 0.0) for key in FEATURE_ORDER]`
  unfoldable pub features_to_vector : Dict F → List F
  unfolding get_or_zero feature_order
  features_to_vector d = map (λ key. get_or_zero (lookup key d)) feature_order
