-- ===== src/Engine/Breaker.antt =====
-- bot/src/bot/engine/circuit_breaker.py: the daily limits.
pub mod Laws
use quick_stock_bot.Prelude.{Bool, true, false, ◌||◌, if◌then◌else◌}
use quick_stock_bot.Prelude.Int.{ℤ}
use quick_stock_bot.Num.{Float, lit, ◌⊕◌, ◌⊖◌, ◌⊗◌, ◌⊘◌, ◌<?◌, ◌≤?◌}
use quick_stock_bot.Engine.Config.{ExecutionConfig, TargetMode}
use quick_stock_bot.Engine.Messages.{Reason}

pub data DailyAction : Type 0 where
  proceed halt flatten_and_halt : DailyAction

pub record DailyState (F : Type 0) : Type 0 where
  pub day_start_equity : F
  pub realized_pnl : F
  pub unrealized_pnl : F
  pub halted : Bool
  pub halt_reason : Reason F
  pub goalpost_trade_count : ℤ
  pub daily_pl_high : F
  pub giveback_armed : Bool

abbrev pub flatten_if : Bool → DailyAction
flatten_if b = if b then flatten_and_halt else halt

module _ {F : Type 0} ⦃num : Float F⦄ where
  abbrev pub total_pnl : DailyState F → F
  total_pnl s = s.realized_pnl ⊕ s.unrealized_pnl

  abbrev pub total_pnl_pct : DailyState F → F
  total_pnl_pct s =
      if s.day_start_equity ≤? lit 0 0
      then lit 0 0
      else (total_pnl s ⊘ s.day_start_equity) ⊗ lit 100 0

  abbrev halt_for : Reason F → DailyState F → DailyState F
  halt_for reason s = record s { halted = true; halt_reason = reason }

  -- the hard stop at the profit target
  check_target : DailyState F → ExecutionConfig F → DailyState F × DailyAction
  check_target s cfg =
      let pct = total_pnl_pct s in
      if cfg.daily_profit_target_pct ≤? pct
      then (
        halt_for (Reason.target_hit pct cfg.daily_profit_target_pct) s,
        flatten_if cfg.flatten_on_profit_target,
      )
      else (s, proceed)

  -- the running high and the arming of giveback mode
  track : DailyState F → ExecutionConfig F → DailyState F
  track s cfg = record s {
    daily_pl_high = if s.daily_pl_high <? total_pnl s then total_pnl s else s.daily_pl_high;
    giveback_armed = s.giveback_armed || (cfg.daily_profit_target_pct ≤? total_pnl_pct s);
  }

  -- the level at which giveback mode ends the day
  abbrev pub giveback_trigger : DailyState F → ExecutionConfig F → F
  giveback_trigger s cfg = s.daily_pl_high ⊗ (lit 1 0 ⊖ cfg.daily_giveback_pct ⊘ lit 100 0)

  check_giveback : DailyState F → ExecutionConfig F → DailyState F × DailyAction
  check_giveback s cfg =
      let trigger = giveback_trigger s cfg in
      if s.giveback_armed
      then (if total_pnl s ≤? trigger
          then (
            halt_for
                (Reason.giveback_triggered (total_pnl s) trigger s.daily_pl_high
                  cfg.daily_giveback_pct)
                s,
            flatten_and_halt,
          )
          else (s, proceed))
      else (s, proceed)

  profit_side : TargetMode → DailyState F → ExecutionConfig F → DailyState F × DailyAction
  unfolding check_target track check_giveback
  profit_side TargetMode.stop s cfg = check_target s cfg
  profit_side TargetMode.giveback s cfg = check_giveback (track s cfg) cfg

  -- everything past the update of the two figures
  unfoldable pub check_limits : DailyState F → ExecutionConfig F → DailyState F × DailyAction
  unfolding profit_side
  check_limits s cfg =
      let pct = total_pnl_pct s in
      if s.halted
      then (s, halt)
      else if pct ≤? cfg.daily_max_loss_pct
      then (
        halt_for (Reason.max_loss_hit pct cfg.daily_max_loss_pct) s,
        flatten_if cfg.flatten_on_max_loss,
      )
      else profit_side cfg.daily_target_mode s cfg

  unfoldable pub check_daily_limits :
      DailyState F → F → F → ExecutionConfig F → DailyState F × DailyAction
  unfolding check_limits
  check_daily_limits s realized unrealized cfg =
      check_limits (record s { realized_pnl = realized; unrealized_pnl = unrealized }) cfg
