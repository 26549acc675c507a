-- ===== src/Alpaca/Client.antt =====
-- bot/src/bot/alpaca/client.py: `MarketClient`, as far as the engine and the scanner call it. `W` is
-- whatever the client's calls can change: the market, the account, the network. A call may raise.
use quick_stock_bot.Prelude.{ℕ, Bool, String, List, Result}
use quick_stock_bot.Prelude.Int.{ℤ}
use quick_stock_bot.Num.{Decimal}
use quick_stock_bot.Models.{AccountSnapshot, Bar, Order, OrderSide, OrderType, TimeInForce}

pub record CalendarDay : Type 0 where
  pub date : String
  pub open_time : String
  pub close_time : String

pub record ClockInfo : Type 0 where
  pub timestamp : String
  pub is_open : Bool
  pub next_open : String
  pub next_close : String

pub record MarketClient (W : Type 0) : Type 0 where
  pub get_calendar : String → String → W → Result (List CalendarDay) × W
  pub get_clock : W → Result ClockInfo × W
  pub get_bars : String → ℤ → ℤ → String → ℕ → W → Result (List Bar) × W
  pub submit_order : String → Decimal → OrderSide → OrderType → TimeInForce → W → Result Order × W
  pub poll_order : String → W → Result Order × W
  pub get_account : W → Result AccountSnapshot × W
