-- ===== src/Scanner/Config.antt =====
-- bot/src/bot/scanner/config.py.
use quick_stock_bot.Prelude.{ℕ, Bool, true, String, List, []}
use quick_stock_bot.Prelude.Int.{ℤ, pos}
use quick_stock_bot.Num.{Float, lit}

pub record ScannerConfig (F : Type 0) : Type 0 where
  pub pre_open_lead_hours : F
  pub scan_duration_hours : F
  pub scanner_refresh_seconds : ℤ
  pub min_price : F
  pub max_price : F
  pub gap_up_min_pct : F
  pub relative_volume_min : F
  pub max_float_shares : ℤ
  pub require_news : Bool
  pub include_unknown_float : Bool
  pub active_tickers_n : ℕ
  pub whitelist_symbols : List String
  pub prior_profit_bias_weight : F
  pub leader_similarity_threshold : F

abbrev pub default_scanner_config : {F : Type 0} ⦃num : Float F⦄ → ScannerConfig F
default_scanner_config = record {
  pre_open_lead_hours = lit 1 0;
  scan_duration_hours = lit 3 0;
  scanner_refresh_seconds = pos 60;
  min_price = lit 1 0;
  max_price = lit 20 0;
  gap_up_min_pct = lit 5 0;
  relative_volume_min = lit 2 0;
  max_float_shares = pos 20_000_000;
  require_news = true;
  include_unknown_float = true;
  active_tickers_n = 3;
  whitelist_symbols = [];
  prior_profit_bias_weight = lit 5 1;
  leader_similarity_threshold = lit 7 1;
}
