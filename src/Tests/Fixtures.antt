-- ===== src/Tests/Fixtures.antt =====
-- bot/src/bot/engine/config.py's defaults, with trading from the first minute on, and some candles.
use quick_stock_bot.Prelude.{ℕ, zero, suc, ◌+◌, ◌*◌, true, false, String, List, [], ◌∷◌, none, some}
use quick_stock_bot.Prelude.Int.{pos, negsuc}
use quick_stock_bot.Num.Fixed.{Fixed, fixed_float}
use quick_stock_bot.Models.{Bar, Order, OrderSide, OrderStatus, OrderType, TimeInForce}
use quick_stock_bot.Ta.Config.{default_patterns, default_ta_config}
use quick_stock_bot.Ta.State.{MacdState}
use quick_stock_bot.Alpaca.Fake.{FakeWorld, fake_market_client}
use quick_stock_bot.Engine.Config.{ExecutionConfig, TargetMode, ExitMode, TrailTrigger}
use quick_stock_bot.Engine.Messages.{text}
use quick_stock_bot.Engine.Breaker.{DailyState}
use quick_stock_bot.Engine.Exits.{OpenPosition}
use quick_stock_bot.Engine.Session.State.{Setup, Session, TradeRecord}
use quick_stock_bot.Engine.Session.Cycle.{Tick}

-- hundredths
abbrev pub c : ℕ → Fixed
c n = pos (n * 10_000_000_000)

abbrev pub default_config : ExecutionConfig Fixed
default_config = record {
  active_tickers_n = 10;
  stop_loss_pct = c 100;
  take_profit_pct = c 300;
  daily_max_loss_pct = negsuc 1_999_999_999_999;
  daily_profit_target_pct = c 300;
  position_size_pct = c 2500;
  override_risk_per_trade = false;
  risk_per_trade_pct = c 100;
  flatten_on_max_loss = true;
  flatten_on_profit_target = false;
  daily_target_mode = TargetMode.giveback;
  daily_giveback_pct = c 2500;
  exit_mode = ExitMode.dump;
  trail_off_trigger = TrailTrigger.per_candle;
  trail_off_fraction_per_candle = c 25;
  trailing_stop = false;
  trailing_stop_pct = c 100;
  force_close_at_close = true;
  z_hour_cutoff = c 0;
  conviction_threshold = c 60;
  min_account_equity_notice = c 200_000;
  enabled_patterns = default_patterns;
  overextension_pct = c 300;
}

abbrev pub morning : DailyState Fixed
morning = record {
  day_start_equity = c 10_000_000;
  realized_pnl = c 0;
  unrealized_pnl = c 0;
  halted = false;
  halt_reason = text "";
  goalpost_trade_count = pos 1;
  daily_pl_high = c 0;
  giveback_armed = false;
}

abbrev pub position : OpenPosition Fixed
position = record {
  symbol = "AAPL";
  entry_price = c 10_000;
  shares = pos 10;
  remaining_shares = pos 10;
  high_water_mark = c 10_000;
  pattern_tags = "hammer" ∷ [];
}

abbrev pub bullish : MacdState Fixed
bullish = record { value = c 50; slope = c 10; hist = c 10; favorability = c 90; eligible = true }

abbrev pub candle : ℕ → Bar
candle n = record {
  symbol = "AAPL";
  timestamp = pos n;
  open_price = record { mantissa = pos (100 + n); exponent = 0 };
  high = record { mantissa = pos (103 + n); exponent = 0 };
  low = record { mantissa = pos (99 + n); exponent = 0 };
  close = record { mantissa = pos (102 + n); exponent = 0 };
  volume = pos 1000;
  vwap = none;
  trade_count = none;
  timeframe = "1Min";
}

abbrev pub candles : List Bar
candles = candle 0 ∷ candle 1 ∷ candle 2 ∷ []

abbrev pub uuid4 : ℕ → String
uuid4 zero = "first"
uuid4 (suc zero) = "second"
uuid4 (suc (suc zero)) = "third"
uuid4 _ = "later"

abbrev pub setup : Setup Fixed FakeWorld
setup = record {
  client = fake_market_client uuid4;
  cfg = default_config;
  ta_cfg = default_ta_config;
  score_setup_fn = λ symbol bars. c 100;
}

abbrev pub entry_order : Order
entry_order = record {
  id = "entry";
  client_order_id = "client";
  symbol = "AAPL";
  side = OrderSide.buy;
  order_type = OrderType.market;
  qty = record { mantissa = pos 10; exponent = 0 };
  filled_qty = record { mantissa = pos 10; exponent = 0 };
  limit_price = none;
  status = OrderStatus.filled;
  time_in_force = TimeInForce.day;
  submitted_at = pos 0;
  filled_at = some (pos 0);
  canceled_at = none;
  expired_at = none;
  filled_avg_price = some (record { mantissa = pos 100; exponent = 0 });
}

abbrev pub trade : TradeRecord Fixed
trade = record {
  symbol = "AAPL";
  entry_order = entry_order;
  entry_price = c 10_000;
  shares = pos 10;
  position = position;
  exit_orders = [];
  realized_pnl = c 0;
  prev_pattern_tags = [];
}

-- a day on which ten shares are held
abbrev pub holding : {W : Type 0} → W → Session Fixed W
holding w = record {
  world = w;
  daily_state = some morning;
  open_trades = ("AAPL", trade) ∷ [];
  result = record {
    trades_entered = 1;
    trades_exited = 0;
    realized_pnl = c 0;
    halted = false;
    halt_reason = text "";
    orders_submitted = [];
    log_messages = [];
    goalpost_trade_count = pos 1;
  };
  z_cutoff_passed = false;
}

-- one hour into the session
abbrev pub tick : Tick
tick = record {
  market_open = true;
  now = pos 3_600_000_000;
  session_open = pos 0;
  near_close = false;
}
