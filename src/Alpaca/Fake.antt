-- ===== src/Alpaca/Fake.antt =====
-- bot/src/bot/alpaca/fake_client.py: `FakeMarketClient`, as far as the interface goes. It fills every
-- order at 150. The n-th identifier that `uuid4` draws is `uuid4 n`.
use quick_stock_bot.Prelude.{
  ℕ, ◌+◌, ◌*◌, true, false, String, List, [], ◌∷◌, ◌++◌, Option, none, some, Result, ok, err, Error,
  ◌==◌, if◌then◌else◌, map,
}
use quick_stock_bot.Prelude.Int.{ℤ, pos}
use quick_stock_bot.Num.{Decimal}
use quick_stock_bot.Models.{
  AccountSnapshot, Bar, Order, OrderSide, OrderStatus, OrderType, TimeInForce,
}
use quick_stock_bot.Alpaca.Client.{MarketClient}

-- the client's own fields, and how many identifiers have been drawn
pub record FakeWorld : Type 0 where
  pub submitted_orders : List Order
  pub order_terminal_status : OrderStatus
  pub drawn : ℕ

abbrev now_utc : ℤ
now_utc = pos 1_705_329_000_000_000

abbrev cents : ℕ → Decimal
cents n = record { mantissa = pos n; exponent = 2 }

fake_bar : String → String → ℕ → Bar
fake_bar symbol timeframe i = record {
  symbol = symbol;
  timestamp = now_utc;
  open_price = cents (10_000 + 100 * i);
  high = cents (10_200 + 100 * i);
  low = cents (9_900 + 100 * i);
  close = cents (10_100 + 100 * i);
  volume = pos (10_000 + 100 * i);
  vwap = some (cents (10_050 + 100 * i));
  trade_count = some (pos (500 + i));
  timeframe = timeframe;
}

fake_account : AccountSnapshot
fake_account = record {
  buying_power = cents 10_000_000;
  equity = cents 11_000_000;
  cash = cents 5_000_000;
  portfolio_value = cents 11_000_000;
  pattern_day_trader = false;
  day_trade_count = pos 0;
  day_trading_buying_power = cents 0;
  is_pdt_restricted = false;
}

-- `get_order`, after the order is found
fill : OrderStatus → Order → Order
fill status o = record o {
  status = status;
  filled_qty = o.qty;
  filled_at = some now_utc;
  filled_avg_price = some (cents 15_000);
}

find_order : String → List Order → Option Order
find_order id [] = none
find_order id (o ∷ os) = if o.id == id then some o else find_order id os

get_order : String → FakeWorld → Result Order × FakeWorld
unfolding find_order fill
get_order id w = (
  elim (find_order id w.submitted_orders) [
    | none ↦ err Error.key_error
    | some o ↦ ok (fill w.order_terminal_status o)
  ],
  w,
)

module _ (uuid4 : ℕ → String) where
  submit_order :
      String → Decimal → OrderSide → OrderType → TimeInForce → FakeWorld → Result Order × FakeWorld
  submit_order symbol qty side kind tif w =
      let order : Order = record {
        id = uuid4 w.drawn;
        client_order_id = uuid4 (w.drawn + 1);
        symbol = symbol;
        side = side;
        order_type = kind;
        qty = qty;
        filled_qty = cents 0;
        limit_price = none;
        status = OrderStatus.new;
        time_in_force = tif;
        submitted_at = now_utc;
        filled_at = none;
        canceled_at = none;
        expired_at = none;
        filled_avg_price = none;
      } in
      (
        ok order,
        record w { submitted_orders = w.submitted_orders ++ (order ∷ []); drawn = w.drawn + 2 },
      )

  unfoldable pub fake_market_client : MarketClient FakeWorld
  unfolding submit_order get_order fake_bar fake_account
  fake_market_client = record {
    get_calendar = λ start end_ w.
        (ok (record { date = "2024-01-15"; open_time = "09:30"; close_time = "16:00" } ∷ []), w);
    get_clock = λ w. (
      ok (record {
        timestamp = "2024-01-15T09:30:00-05:00";
        is_open = true;
        next_open = "2024-01-16T09:30:00-05:00";
        next_close = "2024-01-15T16:00:00-05:00";
      }),
      w,
    );
    get_bars = λ symbol start end_ timeframe limit w.
        (ok (map (fake_bar symbol timeframe) (0 ∷ 1 ∷ 2 ∷ [])), w);
    submit_order = submit_order;
    poll_order = get_order;
    get_account = λ w. (ok fake_account, w);
  }

unfoldable pub fake_world : FakeWorld
fake_world = record { submitted_orders = []; order_terminal_status = OrderStatus.filled; drawn = 0 }
