-- ===== src/Engine/Session/Cycle.antt =====
-- bot/src/bot/engine/session.py: the clock and the public methods of the session.
pub mod Trading
pub mod Held
pub mod Flat
pub mod Ends
use mathlib.Core.List.{foldl}
use quick_stock_bot.Prelude.{
  ◌*◌, Bool, true, false, ◌&&◌, String, List, [], ◌∷◌, ◌++◌, Option, none, some, Result, ok, Error,
  and_then, if◌then◌else◌,
}
use quick_stock_bot.Prelude.Int.{ℤ, pos, ◌-ℤ◌, leb_ℤ, ltb_ℤ}
use quick_stock_bot.Prelude.Dict.{Dict, values}
use quick_stock_bot.Prelude.Action.{Action, pure, raise, lift, gets, modify, ◌>>=◌, ◌>>◌}
use quick_stock_bot.Num.{Float, lit, ◌⊕◌, ◌⊖◌, ◌⊗◌, ◌⊘◌, ◌<?◌}
use quick_stock_bot.Models.{AccountSnapshot, Bar}
use quick_stock_bot.Engine.Config.{ExecutionConfig, goalpost_trade_count}
use quick_stock_bot.Engine.Messages.{Reason, LogLine, text}
use quick_stock_bot.Engine.Breaker.{
  DailyAction, DailyState, check_daily_limits, proceed, halt, flatten_and_halt,
}
use quick_stock_bot.Engine.Session.State.{
  TradeRecord, SessionResult, Session, Setup, call, log, log_all, put_daily,
}
use quick_stock_bot.Engine.Session.Exits.{process_exits, flatten_all}
use quick_stock_bot.Engine.Session.Entries.{process_entries}

-- `WallClock`; times are in microseconds
pub record WallClock : Type 0 where
  pub open_time : ℤ
  pub close_time : ℤ

pub is_market_open : WallClock → ℤ → Bool
is_market_open c now = leb_ℤ c.open_time now && ltb_ℤ now c.close_time

pub is_near_close : WallClock → ℤ → Bool
is_near_close c now = leb_ℤ (c.close_time -ℤ pos 300_000_000) now

-- what the session's clock answers during one cycle
pub record Tick : Type 0 where
  pub market_open : Bool
  pub now : ℤ
  pub session_open : ℤ
  pub near_close : Bool

module _ {F : Type 0} ⦃num : Float F⦄ where
  -- `_hours_since_open`
  unfoldable pub hours_since_open : Tick → F
  hours_since_open tick = num.of_int (tick.now -ℤ tick.session_open) ⊘ lit 1_000_000 0 ⊘ lit 3600 0

  -- `_compute_unrealized_pnl`
  unfoldable pub unrealized_pnl : Dict (TradeRecord F) → F
  unrealized_pnl trades =
      foldl
        (λ total t.
          total
          ⊕ (t.position.high_water_mark ⊖ t.entry_price) ⊗ num.of_int t.position.remaining_shares)
        (lit 0 0) (values trades)

  -- `_log_margin_notice`
  margin_notice : ExecutionConfig F → AccountSnapshot → List (LogLine F)
  margin_notice cfg acct =
      let equity = num.of_decimal acct.equity in
      if equity <? cfg.min_account_equity_notice
      then LogLine.equity_notice equity cfg.min_account_equity_notice ∷ []
      else []

  -- a fresh `DailyState`
  new_day : F → ℤ → DailyState F
  new_day equity goalpost = record {
    day_start_equity = equity;
    realized_pnl = lit 0 0;
    unrealized_pnl = lit 0 0;
    halted = false;
    halt_reason = text "";
    goalpost_trade_count = goalpost;
    daily_pl_high = lit 0 0;
    giveback_armed = false;
  }

  empty_result : ℤ → SessionResult F
  empty_result goalpost = record {
    trades_entered = 0;
    trades_exited = 0;
    realized_pnl = lit 0 0;
    halted = false;
    halt_reason = text "";
    orders_submitted = [];
    log_messages = [];
    goalpost_trade_count = goalpost;
  }

abbrev pub is_proceed : DailyAction → Bool
is_proceed proceed = true
is_proceed _ = false

module _ {F W : Type 0} where
  -- `self._result.halted = …; self._result.halt_reason = …`
  abbrev pub put_halt : Bool → Reason F → Session F W → Session F W
  put_halt halted reason s = record s {
    result = record s.result { halted = halted; halt_reason = reason };
  }

module _ {F W : Type 0} ⦃num : Float F⦄ (env : Setup F W) where
  open env use {client, cfg}

  -- `__init__`, on a client whose world is `w`
  unfoldable pub init : W → Result (Session F W)
  unfolding empty_result
  init w = and_then (goalpost_trade_count cfg) λ goalpost. ok (record {
    world = w;
    daily_state = none;
    open_trades = [];
    result = empty_result goalpost;
    z_cutoff_passed = false;
  })

  unfoldable pub start_day : Action (Session F W) (Unit {0})
  unfolding new_day margin_notice
  start_day = do
    acct ← call client.get_account
    goalpost ← lift (goalpost_trade_count cfg)
    modify (put_daily (new_day (num.of_decimal acct.equity) goalpost))
    modify (log_all (margin_notice cfg acct))
    modify (log (LogLine.day_started acct.equity acct.buying_power goalpost))

  -- `_refresh_circuit_breakers`
  refresh : DailyState F → Action (Session F W) DailyAction
  refresh daily s =
      let (daily', action) =
        check_daily_limits daily s.result.realized_pnl (unrealized_pnl s.open_trades) cfg in
      let s' = put_daily daily' s in
      (ok action, (if is_proceed action then s' else put_halt true daily'.halt_reason s'))

  -- `if not self._daily_state.halted: self._process_entries(…)`
  enter_unless_halted :
      Option (DailyState F) → List String → Dict (List Bar) → Action (Session F W) (Unit {0})
  enter_unless_halted none ranked bars = raise Error.assertion
  enter_unless_halted (some daily) ranked bars =
      if daily.halted then pure tt else process_entries env ranked bars

  -- the end of `run_cycle`, by the action of the circuit breakers
  act :
      DailyAction
      → Tick
      → List String
      → Dict (List Bar)
      → Reason F
      → Action (Session F W) (Unit {0})
  unfolding enter_unless_halted
  act flatten_and_halt tick ranked bars reason = flatten_all env reason
  act halt tick ranked bars reason = process_exits env bars
  act proceed tick ranked bars reason =
      if cfg.force_close_at_close && tick.near_close
      then flatten_all env (text "force_close_at_close")
      else do
        process_exits env bars
        daily ← gets (λ s. s.daily_state)
        enter_unless_halted daily ranked bars

  halt_reason_of : Option (DailyState F) → Reason F
  halt_reason_of none = text ""
  halt_reason_of (some daily) = daily.halt_reason

  halted_of : Option (DailyState F) → Bool
  halted_of none = false
  halted_of (some daily) = daily.halted

  -- within the first hours: exits only
  early : F → Dict (List Bar) → Action (Session F W) (Unit {0})
  early elapsed bars = do
    modify (log (LogLine.z_hour_active elapsed cfg.z_hour_cutoff))
    process_exits env bars

  -- past them
  late : DailyState F → Tick → List String → Dict (List Bar) → Action (Session F W) (Unit {0})
  unfolding refresh act halt_reason_of
  late daily tick ranked bars = do
    modify (λ s. record s { z_cutoff_passed = true })
    action ← refresh daily
    reason ← gets (λ s. halt_reason_of s.daily_state)
    act action tick ranked bars reason

  open_cycle : DailyState F → Tick → List String → Dict (List Bar) → Action (Session F W) (Unit {0})
  unfolding early late
  open_cycle daily tick ranked bars =
      let elapsed = hours_since_open tick in
      if elapsed <? cfg.z_hour_cutoff then early elapsed bars else late daily tick ranked bars

  cycle :
      Option (DailyState F) → Tick → List String → Dict (List Bar) → Action (Session F W) (Unit {0})
  unfolding open_cycle
  cycle none tick ranked bars = raise Error.assertion
  cycle (some daily) tick ranked bars =
      if tick.market_open then open_cycle daily tick ranked bars else pure tt

  unfoldable pub run_cycle : Tick → List String → Dict (List Bar) → Action (Session F W) (Unit {0})
  unfolding cycle
  run_cycle tick ranked bars = do daily ← gets (λ s. s.daily_state); cycle daily tick ranked bars

  flatten_if_open : Dict (TradeRecord F) → Action (Session F W) (Unit {0})
  flatten_if_open [] = pure tt
  flatten_if_open (t ∷ ts) = flatten_all env (text "end_day")

  unfoldable pub end_day : Action (Session F W) (Unit {0})
  unfolding flatten_if_open halted_of halt_reason_of
  end_day = do
    trades ← gets (λ s. s.open_trades)
    flatten_if_open trades
    modify (λ s. put_halt (halted_of s.daily_state) (halt_reason_of s.daily_state) s)
