-- ===== src/Control/Settings.antt =====
-- bot/src/bot/control/handlers.py: `_build_settings_response`. Every key that it looks up with a
-- default of its own has one in the table of defaults, except those read as absent.
use quick_stock_bot.Prelude.{
  Bool, true, false, String, List, [], ◌∷◌, Option, none, some, Result, ok, err, Error, ◌==◌,
  if◌then◌else◌,
}
use quick_stock_bot.Prelude.Int.{ℤ, pos, max_ℤ}
use quick_stock_bot.Prelude.Dict.{Dict, lookup}
use quick_stock_bot.Num.{Float, lit, ◌⊘◌, max_f}
use quick_stock_bot.Control.Values.{Conversions, coerce_bool, coerce_int, coerce_float, coerce_list}
use quick_stock_bot.Control.Database.{Database, get_all_settings_raw}

abbrev pub Raw : Type 0
Raw = Dict (Option String)

-- `raw.get(key)`
unfoldable pub raw_get : String → Raw → Option String
raw_get key raw = elim (lookup key raw) [ none ↦ none | some v ↦ v ]

-- `a or b` of optional texts, `a or "..."`, and `a or [...]`
unfoldable pub or_else : Option String → Option String → Option String
or_else none b = b
or_else (some a) b = if a == "" then b else some a

pub text_or : Option String → String → String
text_or none d = d
text_or (some a) d = if a == "" then d else a

pub list_or : List String → List String → List String
list_or [] d = d
list_or (x ∷ xs) d = x ∷ xs

-- `x if v else None`
pub if_given {ℓ} : {A : Type ℓ} → Option String → A → Option A
if_given none x = none
if_given (some v) x = if v == "" then none else some x

-- `_DEFAULT_PATTERNS`
pub default_patterns : List String
default_patterns = "bullish_engulfing" ∷ "hammer" ∷ "morning_star" ∷ "bullish_continuation" ∷ []

pub record Settings (F : Type 0) : Type 0 where
  pub bot_id : String
  pub relay_url : String
  pub license_key : String
  pub connection_password : Option String
  pub paper_trading : Bool
  pub broker : String
  pub broker_api_key : Option String
  pub broker_api_secret : Option String
  pub watchlist : List String
  pub blacklist : List String
  pub max_positions : ℤ
  pub risk_per_trade_pct : F
  pub daily_risk_pct : F
  pub risk_override_enabled : Bool
  pub goal_post_trade_count : ℤ
  pub min_score : F
  pub auto_trade : Bool
  pub log_level : String
  pub daily_target_mode : String
  pub daily_giveback_pct : F
  pub pre_open_lead_hours : F
  pub scan_duration_hours : F
  pub scanner_refresh_seconds : ℤ
  pub relative_volume_min : F
  pub gap_up_min_pct : F
  pub max_float_shares : ℤ
  pub include_unknown_float : Bool
  pub require_news : Bool
  pub active_tickers_n : ℤ
  pub prior_profit_bias_weight : F
  pub enabled_patterns : List String
  pub pattern_candle_lookback : ℤ
  pub macd_fast : ℤ
  pub macd_slow : ℤ
  pub macd_signal : ℤ
  pub macd_slope_lookback : ℤ
  pub macd_enforce_above_zero : Bool
  pub daily_max_loss_pct : F
  pub daily_profit_target_pct : F
  pub override_risk_per_trade : Bool
  pub flatten_on_daily_loss : Bool
  pub flatten_on_daily_profit : Bool
  pub exit_mode : String
  pub trail_off_trigger : String
  pub trail_off_fraction_per_candle : F
  pub stop_loss_pct : F
  pub take_profit_pct : F
  pub trailing_stop_enabled : Bool
  pub trailing_stop_pct : Option F
  pub force_close_at_close : Bool

module _ {F : Type 0} ⦃num : Float F⦄ (conv : Conversions F) where
  unfoldable pub daily_risk : Raw → F
  daily_risk raw = coerce_float conv (raw_get "daily_risk_pct" raw) (lit 5 0)

  pub max_pos : Raw → ℤ
  max_pos raw = coerce_int conv (raw_get "max_positions" raw) (pos 5)

  unfoldable pub override_on : Raw → Bool
  override_on raw =
      coerce_bool conv
        (or_else (raw_get "override_risk_per_trade" raw) (raw_get "risk_override_enabled" raw))
        false

  pub effective_per_trade : Raw → F
  unfolding daily_risk max_pos override_on
  effective_per_trade raw =
      if override_on raw
      then coerce_float conv (raw_get "risk_per_trade_pct" raw) (lit 1 0)
      else daily_risk raw ⊘ num.of_int (max_ℤ (max_pos raw) (pos 1))

  -- the floor of a quotient by at least 0.001
  pub goal_post_of : Raw → Result ℤ
  unfolding daily_risk effective_per_trade
  goal_post_of raw = elim (num.floor (daily_risk raw ⊘ max_f (effective_per_trade raw) (lit 1 3))) [
    | none ↦ err Error.not_finite
    | some n ↦ ok (max_ℤ (pos 1) n)
  ]

  pub settings_with : Raw → ℤ → Settings F
  unfolding text_or list_or if_given default_patterns daily_risk max_pos override_on
      effective_per_trade
  settings_with raw goal_post = record {
    bot_id = text_or (raw_get "bot_id" raw) "";
    relay_url = text_or (raw_get "relay_url" raw) "";
    license_key = text_or (raw_get "license_key" raw) "";
    connection_password = raw_get "connection_password" raw;
    paper_trading = coerce_bool conv (raw_get "paper_trading" raw) true;
    broker = text_or (raw_get "broker" raw) "alpaca";
    broker_api_key = raw_get "broker_api_key" raw;
    broker_api_secret = raw_get "broker_api_secret" raw;
    watchlist = coerce_list conv (raw_get "watchlist" raw);
    blacklist = coerce_list conv (raw_get "blacklist" raw);
    max_positions = max_pos raw;
    risk_per_trade_pct = effective_per_trade raw;
    daily_risk_pct = daily_risk raw;
    risk_override_enabled = override_on raw;
    goal_post_trade_count = goal_post;
    min_score = coerce_float conv (raw_get "min_score" raw) (lit 60 0);
    auto_trade = coerce_bool conv (raw_get "auto_trade" raw) false;
    log_level = text_or (raw_get "log_level" raw) "info";
    daily_target_mode = text_or (raw_get "daily_target_mode" raw) "giveback";
    daily_giveback_pct = coerce_float conv (raw_get "daily_giveback_pct" raw) (lit 25 0);
    pre_open_lead_hours = coerce_float conv (raw_get "pre_open_lead_hours" raw) (lit 1 0);
    scan_duration_hours = coerce_float conv (raw_get "scan_duration_hours" raw) (lit 3 0);
    scanner_refresh_seconds = coerce_int conv (raw_get "scanner_refresh_seconds" raw) (pos 60);
    relative_volume_min = coerce_float conv (raw_get "relative_volume_min" raw) (lit 2 0);
    gap_up_min_pct = coerce_float conv (raw_get "gap_up_min_pct" raw) (lit 5 0);
    max_float_shares = coerce_int conv (raw_get "max_float_shares" raw) (pos 20_000_000);
    include_unknown_float = coerce_bool conv (raw_get "include_unknown_float" raw) true;
    require_news = coerce_bool conv (raw_get "require_news" raw) true;
    active_tickers_n = coerce_int conv (raw_get "active_tickers_n" raw) (pos 5);
    prior_profit_bias_weight = coerce_float conv (raw_get "prior_profit_bias_weight" raw) (lit 5 1);
    enabled_patterns = list_or (coerce_list conv (raw_get "enabled_patterns" raw)) default_patterns;
    pattern_candle_lookback = coerce_int conv (raw_get "pattern_candle_lookback" raw) (pos 5);
    macd_fast = coerce_int conv (raw_get "macd_fast" raw) (pos 12);
    macd_slow = coerce_int conv (raw_get "macd_slow" raw) (pos 26);
    macd_signal = coerce_int conv (raw_get "macd_signal" raw) (pos 9);
    macd_slope_lookback = coerce_int conv (raw_get "macd_slope_lookback" raw) (pos 3);
    macd_enforce_above_zero = coerce_bool conv (raw_get "macd_enforce_above_zero" raw) false;
    daily_max_loss_pct =
        coerce_float conv
          (or_else (raw_get "daily_max_loss_pct" raw) (raw_get "daily_risk_pct" raw))
          (daily_risk raw);
    daily_profit_target_pct = coerce_float conv (raw_get "daily_profit_target_pct" raw) (lit 7 0);
    override_risk_per_trade = override_on raw;
    flatten_on_daily_loss = coerce_bool conv (raw_get "flatten_on_daily_loss" raw) true;
    flatten_on_daily_profit = coerce_bool conv (raw_get "flatten_on_daily_profit" raw) false;
    exit_mode = text_or (raw_get "exit_mode" raw) "trail_off";
    trail_off_trigger = text_or (raw_get "trail_off_trigger" raw) "candle_pattern";
    trail_off_fraction_per_candle =
        coerce_float conv (raw_get "trail_off_fraction_per_candle" raw) (lit 25 2);
    stop_loss_pct = coerce_float conv (raw_get "stop_loss_pct" raw) (lit 2 0);
    take_profit_pct = coerce_float conv (raw_get "take_profit_pct" raw) (lit 4 0);
    trailing_stop_enabled = coerce_bool conv (raw_get "trailing_stop_enabled" raw) false;
    trailing_stop_pct =
        if_given (raw_get "trailing_stop_pct" raw)
          (coerce_float conv (raw_get "trailing_stop_pct" raw) (lit 1 0));
    force_close_at_close = coerce_bool conv (raw_get "force_close_at_close" raw) true;
  }

  unfoldable pub build_settings_response : Raw → Result (Settings F)
  unfolding goal_post_of settings_with
  build_settings_response raw = elim (goal_post_of raw) [
    | err e ↦ err e
    | ok goal_post ↦ ok (settings_with raw goal_post)
  ]

  unfoldable pub handle_get_settings : Database F → Result (Settings F)
  unfolding build_settings_response
  handle_get_settings db = build_settings_response (get_all_settings_raw db)
