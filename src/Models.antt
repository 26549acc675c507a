-- ===== src/Models.antt =====
-- bot/src/bot/models.py: the broker's data. Numbers of the price data are decimals; a `datetime`
-- is a count of microseconds.
use quick_stock_bot.Prelude.{Bool, Option, String}
use quick_stock_bot.Prelude.Int.{ℤ}
use quick_stock_bot.Num.{Decimal}

pub data OrderSide : Type 0 where
  buy sell : OrderSide

pub data OrderType : Type 0 where
  market limit : OrderType

pub data OrderStatus : Type 0 where
  new partially_filled filled done_for_day canceled expired replaced : OrderStatus
  pending_cancel pending_replace held accepted pending_new : OrderStatus
  accepted_for_bidding stopped rejected suspended calculated : OrderStatus

pub data TimeInForce : Type 0 where
  day gtc opg cls ioc fok : TimeInForce

pub record Bar : Type 0 where
  pub symbol : String
  pub timestamp : ℤ
  pub open_price : Decimal
  pub high : Decimal
  pub low : Decimal
  pub close : Decimal
  pub volume : ℤ
  pub vwap : Option Decimal
  pub trade_count : Option ℤ
  pub timeframe : String

pub record Quote : Type 0 where
  pub symbol : String
  pub timestamp : ℤ
  pub bid_price : Decimal
  pub bid_size : ℤ
  pub ask_price : Decimal
  pub ask_size : ℤ

pub record Asset : Type 0 where
  pub id : String
  pub symbol : String
  pub name : String
  pub exchange : String
  pub asset_class : String
  pub tradable : Bool
  pub marginable : Bool
  pub shortable : Bool
  pub easy_to_borrow : Bool
  pub fractionable : Bool

pub record Order : Type 0 where
  pub id : String
  pub client_order_id : String
  pub symbol : String
  pub side : OrderSide
  pub order_type : OrderType
  pub qty : Decimal
  pub filled_qty : Decimal
  pub limit_price : Option Decimal
  pub status : OrderStatus
  pub time_in_force : TimeInForce
  pub submitted_at : ℤ
  pub filled_at : Option ℤ
  pub canceled_at : Option ℤ
  pub expired_at : Option ℤ
  pub filled_avg_price : Option Decimal

pub record AccountSnapshot : Type 0 where
  pub buying_power : Decimal
  pub equity : Decimal
  pub cash : Decimal
  pub portfolio_value : Decimal
  pub pattern_day_trader : Bool
  pub day_trade_count : ℤ
  pub day_trading_buying_power : Decimal
  pub is_pdt_restricted : Bool

abbrev pub is_filled : OrderStatus → Bool
is_filled filled = Bool.true
is_filled _ = Bool.false
