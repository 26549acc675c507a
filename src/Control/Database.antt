-- ===== src/Control/Database.antt =====
-- bot/src/bot/control/db.py: the tables, and the settings with their defaults. The time at which a
-- setting was written is left out; nothing in the control channel reads it.
use quick_stock_bot.Prelude.{Bool, String, List, [], ◌∷◌, Option, none, some}
use quick_stock_bot.Prelude.Int.{ℤ}
use quick_stock_bot.Prelude.Dict.{Dict, insert}

pub record ListRow : Type 0 where
  pub symbol : String
  pub list_type : String
  pub active : Bool

pub record TradeRow (F : Type 0) : Type 0 where
  pub id : String
  pub symbol : String
  pub status : String
  pub entry_order_id : String
  pub exit_order_id : Option String
  pub net_pnl : Option F
  pub label : Option String
  pub opened_at : Option ℤ
  pub closed_at : Option ℤ

pub record OrderRow (F : Type 0) : Type 0 where
  pub id : String
  pub symbol : String
  pub side : String
  pub order_type : String
  pub quantity : Option F
  pub limit_price : Option F
  pub stop_price : Option F
  pub status : String
  pub filled_quantity : Option F
  pub filled_price : Option F
  pub created_at : Option ℤ
  pub updated_at : Option ℤ

pub record TickerRow (F : Type 0) : Type 0 where
  pub symbol : String
  pub price : Option F
  pub macd : Option F
  pub signal : Option F
  pub macd_state_json : Option String
  pub pattern_tags_json : Option String
  pub score : Option F
  pub updated_at : Option ℤ
  pub float_shares : Option ℤ
  pub unknown_float : Bool
  pub scanner_tradable : Bool
  pub rvol : Option F
  pub pct_change : Option F
  pub role : Option String

pub record Database (F : Type 0) : Type 0 where
  pub settings : Dict String
  pub lists : List ListRow
  pub run_days : List String
  pub trades : List (TradeRow F)
  pub orders : List (OrderRow F)
  pub tickers : List (TickerRow F)

-- `SETTING_DEFAULTS`
unfoldable pub setting_defaults : Dict (Option String)
setting_defaults =
    ("bot_id", some "")
    ∷ ("relay_url", some "")
    ∷ ("license_key", some "")
    ∷ ("connection_password", none)
    ∷ ("paper_trading", some "true")
    ∷ ("broker", some "alpaca")
    ∷ ("broker_api_key", none)
    ∷ ("broker_api_secret", none)
    ∷ ("max_positions", some "5")
    ∷ ("risk_per_trade_pct", some "1.0")
    ∷ ("daily_risk_pct", some "5.0")
    ∷ ("risk_override_enabled", some "false")
    ∷ ("min_score", some "60.0")
    ∷ ("auto_trade", some "false")
    ∷ ("log_level", some "info")
    ∷ ("daily_target_mode", some "giveback")
    ∷ ("daily_giveback_pct", some "25.0")
    ∷ ("pre_open_lead_hours", some "1.0")
    ∷ ("scan_duration_hours", some "3.0")
    ∷ ("scanner_refresh_seconds", some "60")
    ∷ ("relative_volume_min", some "2.0")
    ∷ ("gap_up_min_pct", some "5.0")
    ∷ ("max_float_shares", some "20000000")
    ∷ ("include_unknown_float", some "true")
    ∷ ("require_news", some "true")
    ∷ ("active_tickers_n", some "5")
    ∷ ("prior_profit_bias_weight", some "0.5")
    ∷ (
      "enabled_patterns",
      some "[\"bullish_engulfing\",\"hammer\",\"morning_star\",\"bullish_continuation\"]",
    )
    ∷ ("pattern_candle_lookback", some "5")
    ∷ ("macd_fast", some "12")
    ∷ ("macd_slow", some "26")
    ∷ ("macd_signal", some "9")
    ∷ ("macd_slope_lookback", some "3")
    ∷ ("macd_enforce_above_zero", some "false")
    ∷ ("daily_max_loss_pct", none)
    ∷ ("daily_profit_target_pct", some "7.0")
    ∷ ("override_risk_per_trade", none)
    ∷ ("flatten_on_daily_loss", some "true")
    ∷ ("flatten_on_daily_profit", some "false")
    ∷ ("exit_mode", some "trail_off")
    ∷ ("trail_off_trigger", some "candle_pattern")
    ∷ ("trail_off_fraction_per_candle", some "0.25")
    ∷ ("stop_loss_pct", some "2.0")
    ∷ ("take_profit_pct", some "4.0")
    ∷ ("trailing_stop_enabled", some "false")
    ∷ ("force_close_at_close", some "true")
    ∷ []

-- the stored rows over the defaults
unfoldable pub overlay : Dict String → Dict (Option String) → Dict (Option String)
overlay [] result = result
overlay ((key, value) ∷ rows) result = overlay rows (insert key (some value) result)

unfoldable pub get_all_settings_raw : {F : Type 0} → Database F → Dict (Option String)
unfolding overlay setting_defaults
get_all_settings_raw db = overlay db.settings setting_defaults

unfoldable pub set_setting : {F : Type 0} → String → String → Database F → Database F
set_setting key value db = record db { settings = insert key value db.settings }
