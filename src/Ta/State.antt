-- ===== src/Ta/State.antt =====
-- bot/src/bot/ta/models.py, without pydantic's range checks on the fields.
use quick_stock_bot.Prelude.{Bool, String, List}

pub record MacdState (F : Type 0) : Type 0 where
  pub value : F
  pub slope : F
  pub hist : F
  pub favorability : F
  pub eligible : Bool

pub record PatternMatch (F : Type 0) : Type 0 where
  pub matched : Bool
  pub tag : String
  pub strength : F

pub record TickerTa (F : Type 0) : Type 0 where
  pub symbol : String
  pub macd_state : MacdState F
  pub pattern_tags : List String
  pub score : F
