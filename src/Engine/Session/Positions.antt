-- ===== src/Engine/Session/Positions.antt =====
-- bot/src/bot/engine/session.py: the invariant of the open positions.
use quick_stock_bot.Prelude.{String, List, ◌≡◌}
use quick_stock_bot.Prelude.Int.{pos, ◌≤ℤ◌}
use quick_stock_bot.Prelude.Dict.{Each, Each-insert}
use quick_stock_bot.Engine.Session.State.{
  TradeRecord, Session, call, log, log_all, record_order, put_trade,
}
use quick_stock_bot.Prelude.{Result}
use quick_stock_bot.Prelude.Keeps.{Keeps}
use quick_stock_bot.Engine.Messages.{LogLine}
use quick_stock_bot.Models.{Order}

-- The trade under `key` is of that symbol, and holds between none and all of the shares bought.
pub record IsHeld {F : Type 0} (key : String) (t : TradeRecord F) : Type 0 where
  pub of_symbol : t.position.symbol ≡ key
  pub not_oversold : pos 0 ≤ℤ t.position.remaining_shares
  pub not_overheld : t.position.remaining_shares ≤ℤ t.position.shares

module _ {F W : Type 0} where
  abbrev pub IsTracked : Session F W → Type 0
  IsTracked s = Each IsHeld s.open_trades

  pub put_trade-IsTracked :
      (key : String) (trade : TradeRecord F)
      → IsHeld key trade
      → (s : Session F W) → IsTracked s
      → IsTracked (put_trade key trade s)
  unfolding put_trade
  put_trade-IsTracked key trade held s h = Each-insert IsHeld key trade s.open_trades held h

  pub log-IsTracked : (line : LogLine F) (s : Session F W) → IsTracked s → IsTracked (log line s)
  unfolding log
  log-IsTracked line s h = h

  pub log_all-IsTracked :
      (lines : List (LogLine F)) (s : Session F W) → IsTracked s → IsTracked (log_all lines s)
  unfolding log_all
  log_all-IsTracked lines s h = h

  pub record_order-IsTracked :
      (order : Order) (s : Session F W) → IsTracked s → IsTracked (record_order order s)
  unfolding record_order
  record_order-IsTracked order s h = h

  pub call-IsTracked :
      {A : Type 0} (f : W → Result A × W) → Keeps {S = Session F W} IsTracked (call f)
  unfolding call
  call-IsTracked f = record { at = λ s h. h }
