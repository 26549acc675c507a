-- ===== src/Scanner/State.antt =====
-- bot/src/bot/scanner/models.py, and the two types of bot/src/bot/news/models.py that it reads.
use quick_stock_bot.Prelude.{Bool, String, List, Option}
use quick_stock_bot.Prelude.Int.{ℤ}
use quick_stock_bot.Ta.State.{MacdState}

pub record ScanWindow : Type 0 where
  pub window_start : ℤ
  pub window_end : ℤ
  pub session_open : ℤ

pub data ScanRole : Type 0 where
  leader laggard standalone : ScanRole

pub record TickerState (F : Type 0) : Type 0 where
  pub symbol : String
  pub price : F
  pub prev_close : F
  pub gap_pct : F
  pub pct_change : F
  pub rvol : F
  pub float_shares : Option ℤ
  pub unknown_float : Bool
  pub tradable : Bool
  pub has_news : Bool
  pub macd_state : MacdState F
  pub pattern_tags : List String
  pub pattern_signature : List F
  pub role : ScanRole
  pub score : F

pub record ScanResult (F : Type 0) : Type 0 where
  pub window : ScanWindow
  pub candidates : List (TickerState F)
  pub active_set : List String
  pub scanned_at : ℤ
