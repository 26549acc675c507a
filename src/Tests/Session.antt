-- ===== src/Tests/Session.antt =====
-- Cycles of bot/src/bot/engine/session.py against the fake client.
use quick_stock_bot.Prelude.{◌++◌, false, true, List, [], ◌∷◌, none, ok, ◌≡◌, inr, refl}
use quick_stock_bot.Prelude.Int.{pos, floor_div, ◌+ℤ◌, ◌-ℤ◌, ◌*ℤ◌}
use quick_stock_bot.Prelude.Dict.{Dict, Each}
use quick_stock_bot.Prelude.Action.{pure, gets, modify, ◌>>=◌}
use quick_stock_bot.Num.Fixed.{Fixed, fixed_float}
use quick_stock_bot.Models.{Bar}
use quick_stock_bot.Alpaca.Fake.{FakeWorld, fake_world, fake_market_client}
use quick_stock_bot.Engine.Config.{effective_risk_pct, goalpost_trade_count}
use quick_stock_bot.Engine.Messages.{text}
use quick_stock_bot.Engine.Exits.{dump_exit}
use quick_stock_bot.Engine.Session.State.{Session, call, log, record_order, put_trade}
use quick_stock_bot.Engine.Session.Requests.{Noted, Follows, with_notes, requests}
use quick_stock_bot.Engine.Session.Positions.{IsTracked}
use quick_stock_bot.Engine.Session.Exits.{flatten_all, fill_price}
use quick_stock_bot.Engine.Session.Exits.Sells.{IsSell}
use quick_stock_bot.Engine.Session.Entries.{process_entries}
use quick_stock_bot.Engine.Session.Entries.Buys.{IsPurchase, process_entries_buys}
use quick_stock_bot.Engine.Session.Cycle.{Tick, init, start_day, run_cycle, end_day}
use quick_stock_bot.Engine.Session.Cycle.Trading.{run_cycle_sells}
use quick_stock_bot.Engine.Session.Cycle.Held.{
  IsReachable, created, day_started, cycled, day_ended, reachable-IsTracked,
}
use quick_stock_bot.Engine.Session.State.{Setup}
use quick_stock_bot.Engine.Session.Exits.Flat.{IsResponsive, IsFlat}
use quick_stock_bot.Engine.Session.Cycle.Flat.{end_day_sells}
use quick_stock_bot.Prelude.{inr, arith, All}
use quick_stock_bot.Engine.Session.Entries.Ends.{IsPrice, IsPriced}
use quick_stock_bot.Engine.Session.Cycle.Ends.{IsSellable, IsReady, IsBegun, run_cycle_returns}
use quick_stock_bot.Engine.Sizing.Laws.{IsSizable}
use quick_stock_bot.Engine.Session.Exits.Sold.{sale}
use quick_stock_bot.Tests.Sizing.{floor_finite}
use quick_stock_bot.Tests.Fixtures.{uuid4, entry_order, c, candles, setup, holding, tick}

abbrev market_data : Dict (List Bar)
market_data = ("AAPL", candles) ∷ []

abbrev held : Session Fixed (Noted FakeWorld)
held = holding (fake_world, [])

abbrev closing : Tick
closing = record tick { near_close = true }

process_entries_buys_example :
    Follows
      (IsPurchase ("MSFT" ∷ "AAPL" ∷ []))
      held
      (process_entries (with_notes setup) ("MSFT" ∷ "AAPL" ∷ []) market_data held).1
process_entries_buys_example = process_entries_buys setup ("MSFT" ∷ "AAPL" ∷ []) market_data held

run_cycle_sells_example :
    Follows IsSell held (run_cycle (with_notes setup) closing ("AAPL" ∷ []) market_data held).1
run_cycle_sells_example =
    run_cycle_sells setup closing ("AAPL" ∷ []) market_data held (λ d e. inr (inr (inr refl)))

abbrev fresh : Session Fixed FakeWorld
fresh = record (holding fake_world) {
  daily_state = none;
  open_trades = [];
  result = record (holding fake_world).result { trades_entered = 0 };
}

run-init : init setup fake_world ≡ ok fresh
unfolding init goalpost_trade_count effective_risk_pct fixed_float floor_div ◌*ℤ◌
run-init = refl

abbrev day : Session Fixed FakeWorld
day = (end_day setup (run_cycle setup tick ("AAPL" ∷ []) market_data (start_day setup fresh).1).1).1

day-IsReachable : IsReachable setup day
day-IsReachable =
    day_ended _
      (cycled tick ("AAPL" ∷ []) market_data _ (day_started _ (created fake_world fresh run-init)))

reachable-IsTracked_example : IsTracked day
reachable-IsTracked_example = reachable-IsTracked setup day day-IsReachable

-- The ten shares are sold at the fill of 150: the profit is 500.
run-flatten_all :
    let (r, s) = flatten_all setup (text "end_day") (holding fake_world) in
    (r ≡ ok tt) × (s.open_trades ≡ []) × (s.result.realized_pnl ≡ c 50_000)
unfolding flatten_all ◌>>=◌ gets modify pure call log record_order put_trade fill_price
    fake_market_client fake_world dump_exit fixed_float floor_div ◌*ℤ◌ ◌+ℤ◌ ◌-ℤ◌
run-flatten_all = (refl, refl, refl)

-- a broker that answers every poll with one filled order
abbrev ready : Setup Fixed FakeWorld
ready = record setup {
  client = record (fake_market_client uuid4) { poll_order = λ id w. (ok entry_order, w) };
}

ready-IsResponsive : IsResponsive ready.client
unfolding fake_market_client
ready-IsResponsive = record {
  submits = λ symbol qty side kind tif w. (_, _, refl);
  polls = λ id w. (entry_order, w, refl);
}

end_day_sells_example :
    (t : Session Fixed (Noted FakeWorld)) × (end_day (with_notes ready) held ≡ (ok tt, t))
    × IsFlat t
    × (requests t ≡ [] ++ (sale "AAPL" (pos 10) ∷ []))
end_day_sells_example = end_day_sells ready ready-IsResponsive held (refl, tt)

Fixed-IsSizable :
    (equity buying_power price : Fixed) → IsSizable equity buying_power price ready.cfg
Fixed-IsSizable equity buying_power price = record {
  by_risk = λ e. floor_finite _;
  by_position = floor_finite _;
  by_power = floor_finite _;
}

candle-IsPriced : (price : Fixed) → fixed_float.eq price (pos 0) ≡ false → IsPrice ready price
unfolding fixed_float fake_market_client floor_div ◌*ℤ◌
candle-IsPriced price h = record {
  nonzero = h;
  account = λ w. (_, _, refl, Fixed-IsSizable _ _ price);
}

market_data-IsPriced : Each (λ _ bs. All (IsPriced ready) bs) market_data
unfolding fixed_float floor_div ◌*ℤ◌
market_data-IsPriced =
    ((candle-IsPriced _ refl, (candle-IsPriced _ refl, (candle-IsPriced _ refl, tt))), tt)

ready-IsReady : IsReady ready market_data
ready-IsReady = record {
  responsive = ready-IsResponsive;
  periods = record {
    some_fast = ground arith;
    fast_first = ground arith;
    some_signal = ground arith;
  };
  priced = market_data-IsPriced;
}

ten-IsSellable : IsSellable {F = Fixed} ready.cfg.trail_off_fraction_per_candle (pos 10)
ten-IsSellable = record { not_negative = ground arith; finite = λ k low high. floor_finite _ }

run_cycle_returns_example :
    (t : Session Fixed FakeWorld) × (run_cycle ready tick
        ("AAPL" ∷ [])
        market_data
        (holding fake_world)
      ≡ (ok tt, t))
    × IsBegun t
run_cycle_returns_example =
    run_cycle_returns ready market_data ready-IsReady tick ("AAPL" ∷ []) (holding fake_world)
      (refl, (ten-IsSellable, tt))
