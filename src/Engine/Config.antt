-- ===== src/Engine/Config.antt =====
-- bot/src/bot/engine/config.py.
use quick_stock_bot.Prelude.{
  ℕ, Bool, ◌&&◌, String, List, Result, ok, or_raise, Error, if◌then◌else◌,
}
use quick_stock_bot.Prelude.Int.{ℤ, pos}
use quick_stock_bot.Num.{Float, lit, ◌⊘◌, ◌<?◌, ◌≤?◌}

pub data TargetMode : Type 0 where
  stop giveback : TargetMode

pub data ExitMode : Type 0 where
  dump trail_off : ExitMode

pub data TrailTrigger : Type 0 where
  per_candle candle_pattern : TrailTrigger

pub record ExecutionConfig (F : Type 0) : Type 0 where
  pub active_tickers_n : ℕ
  pub stop_loss_pct : F
  pub take_profit_pct : F
  pub daily_max_loss_pct : F
  pub daily_profit_target_pct : F
  pub position_size_pct : F
  pub override_risk_per_trade : Bool
  pub risk_per_trade_pct : F
  pub flatten_on_max_loss : Bool
  pub flatten_on_profit_target : Bool
  pub daily_target_mode : TargetMode
  pub daily_giveback_pct : F
  pub exit_mode : ExitMode
  pub trail_off_trigger : TrailTrigger
  pub trail_off_fraction_per_candle : F
  pub trailing_stop : Bool
  pub trailing_stop_pct : F
  pub force_close_at_close : Bool
  pub z_hour_cutoff : F
  pub conviction_threshold : F
  pub min_account_equity_notice : F
  pub enabled_patterns : List String
  pub overextension_pct : F

module _ {F : Type 0} ⦃num : Float F⦄ where
  unfoldable pub effective_risk_pct : ExecutionConfig F → F
  effective_risk_pct cfg =
      let daily_abs = num.abs cfg.daily_max_loss_pct in
      if cfg.override_risk_per_trade && (cfg.risk_per_trade_pct <? daily_abs)
      then cfg.risk_per_trade_pct
      else daily_abs

  unfoldable pub goalpost_trade_count : ExecutionConfig F → Result ℤ
  unfolding effective_risk_pct
  goalpost_trade_count cfg =
      let eff = effective_risk_pct cfg in
      if eff ≤? lit 0 0
      then ok (pos 1)
      else or_raise Error.not_finite (num.ceil (num.abs cfg.daily_max_loss_pct ⊘ eff))
