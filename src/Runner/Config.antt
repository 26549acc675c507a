-- ===== src/Runner/Config.antt =====
-- bot/run.py: the configurations that `_scan_loop` and `_trading_loop` build. A stored value that the
-- types of the components do not have, a negative count or an unknown mode, gives none here.
pub mod Defaults
use quick_stock_bot.Prelude.{
  ℕ, Bool, true, false, String, List, [], ◌∷◌, Option, none, some, ◌==◌, if◌then◌else◌,
}
use quick_stock_bot.Prelude.Int.{ℤ, pos, negsuc}
use quick_stock_bot.Num.{Float, lit}
use quick_stock_bot.Ta.Config.{TaConfig, default_ta_config, default_patterns}
use quick_stock_bot.Engine.Config.{
  ExecutionConfig, TargetMode, stop, giveback, ExitMode, dump, trail_off, TrailTrigger, per_candle,
  candle_pattern,
}
use quick_stock_bot.Scanner.Config.{ScannerConfig, default_scanner_config}
use quick_stock_bot.Control.Values.{Conversions, coerce_bool, coerce_int, coerce_float, coerce_list}
use quick_stock_bot.Control.Settings.{Raw, raw_get}

-- a count
count_of : ℤ → Option ℕ
count_of (pos n) = some n
count_of (negsuc n) = none

-- `raw.get(key) or default`, of a text that names a mode
mode_text : Option String → String → String
mode_text none default = default
mode_text (some s) default = if s == "" then default else s

target_mode : String → Option TargetMode
target_mode s = if s == "stop" then some stop else if s == "giveback" then some giveback else none

exit_mode : String → Option ExitMode
exit_mode s = if s == "dump" then some dump else if s == "trail_off" then some trail_off else none

trail_trigger : String → Option TrailTrigger
trail_trigger s =
    if s == "per_candle"
    then some per_candle
    else if s == "candle_pattern"
    then some candle_pattern
    else none

-- `xs or default`
patterns_or : List String → List String → List String
patterns_or [] default = default
patterns_or (p ∷ ps) default = p ∷ ps

module _ {F : Type 0} ⦃num : Float F⦄ (conv : Conversions F) where
  -- the fields of the configuration that are read from the settings, the others as in the class
  filled : Raw → ℕ → TargetMode → ExitMode → TrailTrigger → ExecutionConfig F
  filled raw active_tickers_n target exits trigger = record {
    active_tickers_n = active_tickers_n;
    stop_loss_pct = coerce_float conv (raw_get "stop_loss_pct" raw) (lit 2 0);
    take_profit_pct = coerce_float conv (raw_get "take_profit_pct" raw) (lit 4 0);
    daily_max_loss_pct = coerce_float conv (raw_get "daily_max_loss_pct" raw) (lit 5 0);
    daily_profit_target_pct = coerce_float conv (raw_get "daily_profit_target_pct" raw) (lit 7 0);
    position_size_pct = lit 25 0;
    override_risk_per_trade = coerce_bool conv (raw_get "override_risk_per_trade" raw) false;
    risk_per_trade_pct = coerce_float conv (raw_get "risk_per_trade_pct" raw) (lit 1 0);
    flatten_on_max_loss = coerce_bool conv (raw_get "flatten_on_daily_loss" raw) true;
    flatten_on_profit_target = coerce_bool conv (raw_get "flatten_on_daily_profit" raw) false;
    daily_target_mode = target;
    daily_giveback_pct = coerce_float conv (raw_get "daily_giveback_pct" raw) (lit 25 0);
    exit_mode = exits;
    trail_off_trigger = trigger;
    trail_off_fraction_per_candle =
        coerce_float conv (raw_get "trail_off_fraction_per_candle" raw) (lit 25 2);
    trailing_stop = false;
    trailing_stop_pct = lit 1 0;
    force_close_at_close = coerce_bool conv (raw_get "force_close_at_close" raw) true;
    z_hour_cutoff = lit 1 0;
    conviction_threshold = lit 6 1;
    min_account_equity_notice = lit 2000 0;
    enabled_patterns = default_patterns;
    overextension_pct = lit 3 0;
  }

  assembled :
      Raw
      → Option ℕ
      → Option TargetMode
      → Option ExitMode
      → Option TrailTrigger
      → Option (ExecutionConfig F)
  unfolding filled
  assembled raw none target exits trigger = none
  assembled raw (some n) none exits trigger = none
  assembled raw (some n) (some target) none trigger = none
  assembled raw (some n) (some target) (some exits) none = none
  assembled raw (some n) (some target) (some exits) (some trigger) =
      some (filled raw n target exits trigger)

  -- the `ExecutionConfig` of `_trading_loop`
  unfoldable pub execution_config_of : Raw → Option (ExecutionConfig F)
  unfolding assembled count_of target_mode exit_mode trail_trigger mode_text
  execution_config_of raw =
      assembled raw (count_of (coerce_int conv (raw_get "active_tickers_n" raw) (pos 5)))
        (target_mode (mode_text (raw_get "daily_target_mode" raw) "giveback"))
        (exit_mode (mode_text (raw_get "exit_mode" raw) "trail_off"))
        (trail_trigger (mode_text (raw_get "trail_off_trigger" raw) "candle_pattern"))

  scanner_filled : Raw → ℕ → ScannerConfig F
  scanner_filled raw active_tickers_n = record default_scanner_config {
    pre_open_lead_hours = coerce_float conv (raw_get "pre_open_lead_hours" raw) (lit 1 0);
    scan_duration_hours = coerce_float conv (raw_get "scan_duration_hours" raw) (lit 3 0);
    relative_volume_min = coerce_float conv (raw_get "relative_volume_min" raw) (lit 2 0);
    gap_up_min_pct = coerce_float conv (raw_get "gap_up_min_pct" raw) (lit 5 0);
    max_float_shares = coerce_int conv (raw_get "max_float_shares" raw) (pos 20_000_000);
    include_unknown_float = coerce_bool conv (raw_get "include_unknown_float" raw) true;
    active_tickers_n = active_tickers_n;
    require_news = coerce_bool conv (raw_get "require_news" raw) true;
  }

  -- the `ScannerConfig` of both loops
  unfoldable pub scanner_config_of : Raw → Option (ScannerConfig F)
  unfolding scanner_filled count_of
  scanner_config_of raw =
      elim (count_of (coerce_int conv (raw_get "active_tickers_n" raw) (pos 5))) [
        | none ↦ none
        | some n ↦ some (scanner_filled raw n)
      ]

  ta_filled : Raw → ℕ → ℕ → ℕ → ℕ → TaConfig
  unfolding patterns_or
  ta_filled raw fast slow signal lookback = record default_ta_config {
    macd_fast = fast;
    macd_slow = slow;
    macd_signal = signal;
    macd_enforce_above_zero = coerce_bool conv (raw_get "macd_enforce_above_zero" raw) false;
    pattern_candle_lookback = lookback;
    enabled_patterns =
        patterns_or (coerce_list conv (raw_get "enabled_patterns" raw)) default_patterns;
  }

  ta_assembled : Raw → Option ℕ → Option ℕ → Option ℕ → Option ℕ → Option TaConfig
  unfolding ta_filled
  ta_assembled raw none slow signal lookback = none
  ta_assembled raw (some fast) none signal lookback = none
  ta_assembled raw (some fast) (some slow) none lookback = none
  ta_assembled raw (some fast) (some slow) (some signal) none = none
  ta_assembled raw (some fast) (some slow) (some signal) (some lookback) =
      some (ta_filled raw fast slow signal lookback)

  -- the `TAConfig` of both loops
  unfoldable pub ta_config_of : Raw → Option TaConfig
  unfolding ta_assembled count_of
  ta_config_of raw =
      ta_assembled raw (count_of (coerce_int conv (raw_get "macd_fast" raw) (pos 12)))
        (count_of (coerce_int conv (raw_get "macd_slow" raw) (pos 26)))
        (count_of (coerce_int conv (raw_get "macd_signal" raw) (pos 9)))
        (count_of (coerce_int conv (raw_get "pattern_candle_lookback" raw) (pos 5)))
