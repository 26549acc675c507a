-- ===== src/Engine/Messages.antt =====
-- The texts that the engine passes around and logs, as data: a formatted number is kept as a number.
use quick_stock_bot.Prelude.{String, List, ◌==◌, if◌then◌else◌}
use quick_stock_bot.Prelude.Int.{ℤ}
use quick_stock_bot.Num.{Decimal}
use quick_stock_bot.Models.{OrderStatus}

pub data Reason (F : Type 0) : Type 0 where
  text : String → Reason F
  max_loss_hit : F → F → Reason F
  target_hit : F → F → Reason F
  giveback_triggered : F → F → F → F → Reason F
  bearish_detected : List String → Reason F
  low_conviction : F → F → Reason F
  reconfirm : List String → Reason F

-- `reason or default`: only the empty text is false
abbrev pub or_reason : {F : Type 0} → Reason F → Reason F → Reason F
or_reason (text s) d = if s == "" then d else text s
or_reason r d = r

pub data LogLine (F : Type 0) : Type 0 where
  day_started : Decimal → Decimal → ℤ → LogLine F
  equity_notice : F → F → LogLine F
  z_hour_active : F → F → LogLine F
  margin : String → LogLine F
  skip : String → Reason F → LogLine F
  skip_margin : String → LogLine F
  skip_sizing : String → String → LogLine F
  not_filled : String → String → OrderStatus → LogLine F
  entered : String → ℤ → F → F → F → LogLine F
  exited : String → ℤ → F → Reason F → F → LogLine F
  partly_exited : String → ℤ → ℤ → F → Reason F → LogLine F
  flattened : Reason F → LogLine F
