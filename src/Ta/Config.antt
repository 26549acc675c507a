-- ===== src/Ta/Config.antt =====
-- bot/src/bot/ta/config.py. Periods and look-backs are taken as naturals.
use quick_stock_bot.Prelude.{ℕ, Bool, true, String, List, [], ◌∷◌}

pub record TaConfig : Type 0 where
  pub macd_fast : ℕ
  pub macd_slow : ℕ
  pub macd_signal : ℕ
  pub macd_slope_lookback : ℕ
  pub macd_enforce_above_zero : Bool
  pub pattern_candle_lookback : ℕ
  pub enabled_patterns : List String

abbrev pub default_patterns : List String
default_patterns = "bullish_engulfing" ∷ "hammer" ∷ "morning_star" ∷ "bullish_continuation" ∷ []

abbrev pub default_ta_config : TaConfig
default_ta_config = record {
  macd_fast = 12;
  macd_slow = 26;
  macd_signal = 9;
  macd_slope_lookback = 3;
  macd_enforce_above_zero = true;
  pattern_candle_lookback = 5;
  enabled_patterns = default_patterns;
}
