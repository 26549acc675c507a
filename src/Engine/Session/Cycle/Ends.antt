-- ===== src/Engine/Session/Cycle/Ends.antt =====
-- bot/src/bot/engine/session.py, `run_cycle`: with a broker that answers it returns.
use quick_stock_bot.Prelude.{
  true, ◌&&◌, String, List, Option, none, some, ok, ◌≡◌, ◌≢◌, refl, arith, All, is_some,
}
use quick_stock_bot.Prelude.Int.{ℤ, pos, ◌≤ℤ◌, ◌-ℤ◌}
use quick_stock_bot.Prelude.Dict.{Dict, Each}
use quick_stock_bot.Prelude.Action.{gets, ◌>>=◌}
use quick_stock_bot.Prelude.Succeeds.{
  Succeeds, Succeeds-pure, Succeeds-gets, Succeeds-modify, Succeeds-if, Succeeds-bind,
  Succeeds-read, Succeeds-from, Succeeds-to,
}
use quick_stock_bot.Num.{Float, ◌⊗◌, ◌<?◌}
use quick_stock_bot.Models.{Bar}
use quick_stock_bot.Ta.Macd.Answers.{IsPeriods}
use quick_stock_bot.Engine.Messages.{Reason}
use quick_stock_bot.Engine.Breaker.{DailyAction, DailyState, proceed, halt, flatten_and_halt}
use quick_stock_bot.Engine.Session.State.{Session, Setup, log, put_daily}
use quick_stock_bot.Engine.Session.Exits.Flat.{
  IsResponsive, IsStable, Every, Unlimited, Every-Unlimited, flatten_all-Succeeds,
}
use quick_stock_bot.Engine.Session.Exits.Ends.{process_exits-Succeeds}
use quick_stock_bot.Engine.Session.Exits.{flatten_all, process_exits}
use quick_stock_bot.Engine.Session.Entries.Ends.{IsPriced, process_entries-Succeeds}
use quick_stock_bot.Engine.Session.Cycle.{
  Tick, hours_since_open, refresh, enter_unless_halted, act, early, late, open_cycle, cycle,
  run_cycle,
}

-- the day has begun
abbrev pub IsBegun : {F W : Type 0} → Session F W → Type 0
IsBegun s = is_some s.daily_state ≡ true

-- the fraction of up to `n` shares that a scale-out may sell has a finite floor
pub record IsSellable {F : Type 0} ⦃num : Float F⦄ (fraction : F) (n : ℤ) : Type 0 where
  pub not_negative : pos 0 ≤ℤ n
  pub finite : (k : ℤ) → pos 0 ≤ℤ k → k ≤ℤ n → num.floor (num.of_int k ⊗ fraction) ≢ none

-- What a cycle needs in order to return: a broker that answers; periods with 1 <= fast <= slow and
-- 1 <= signal; candles whose close is not zero; and that what the code takes the floor of is finite,
-- in sizing an entry at such a close with the account that the broker reports.
pub record IsReady {F W : Type 0} ⦃num : Float F⦄ (env : Setup F W) (bars : Dict (List Bar))
    : Type 0 where
  pub responsive : IsResponsive env.client
  pub periods : IsPeriods env.ta_cfg
  pub priced : Each (λ _ bs. All (IsPriced env) bs) bars

module _ {F W : Type 0} ⦃num : Float F⦄ (env : Setup F W) (bars : Dict (List Bar))
    (sound : IsReady env bars) where
  -- the day has begun, and the floors of the scale-outs are of finite numbers
  abbrev pub IsOpen : Session F W → Type 0
  IsOpen s = IsBegun s × Every (IsSellable env.cfg.trail_off_fraction_per_candle) s.open_trades

  Begun-IsStable : IsStable Unlimited (IsBegun {F = F} {W = W})
  Begun-IsStable = record {
    on_world = λ s w p. p;
    on_result = λ s r p. p;
    on_trades = λ s d p h. p;
    trades = λ s p. Every-Unlimited s.open_trades;
    fewer = λ n k some within h. tt;
  }

  fewer-IsSellable :
      (n k : ℤ)
      → pos 1 ≤ℤ k
      → k ≤ℤ n
      → IsSellable env.cfg.trail_off_fraction_per_candle n
      → IsSellable env.cfg.trail_off_fraction_per_candle (n -ℤ k)
  unfolding ◌-ℤ◌
  fewer-IsSellable n k some_shares within h = record {
    not_negative = ground arith;
    finite = λ j low high. h.finite j low (ground arith);
  }

  Open-IsStable : IsStable (IsSellable env.cfg.trail_off_fraction_per_candle) IsOpen
  Open-IsStable = record {
    on_world = λ s w p. p;
    on_result = λ s r p. p;
    on_trades = λ s d (p, _) h. (p, h);
    trades = λ s (_, h). h;
    fewer = fewer-IsSellable;
  }

  flatten : (reason : Reason F) → Succeeds IsBegun IsBegun (flatten_all env reason)
  flatten reason = record {
    run = λ s p.
        let (a, t, e, (q, _)) =
          (flatten_all-Succeeds env sound.responsive Begun-IsStable reason).run s p in
        (a, t, e, q);
  }

  exits : Succeeds IsOpen IsBegun (process_exits env bars)
  exits =
      Succeeds-to _ (λ t (q, _). q)
        (process_exits-Succeeds env sound.responsive Open-IsStable
          (λ n h. h.finite n h.not_negative (ground arith)) sound.periods bars)

  enter-Succeeds :
      (daily : Option (DailyState F)) (ranked : List String)
      → is_some daily ≡ true
      → Succeeds IsBegun IsBegun (enter_unless_halted env daily ranked bars)
  unfolding enter_unless_halted
  enter-Succeeds none ranked h = absurd (ground arith)
  enter-Succeeds (some daily) ranked h = Succeeds-if daily.halted _ _ (Succeeds-pure tt) (
      process_entries-Succeeds env sound.responsive sound.periods Begun-IsStable ranked bars
        sound.priced)

  refresh-Succeeds : (daily : DailyState F) → Succeeds IsOpen IsOpen (refresh env daily)
  unfolding refresh put_daily
  refresh-Succeeds daily = record { run = λ s p. (_, _, refl, (ground arith, ground (arith, p.1))) }

  module _ (tick : Tick) (ranked : List String) where
    act-Succeeds :
        (action : DailyAction) (reason : Reason F)
        → Succeeds IsOpen IsBegun (act env action tick ranked bars reason)
    unfolding act
    act-Succeeds flatten_and_halt reason = Succeeds-from _ (λ s (p, _). p) (flatten reason)
    act-Succeeds halt reason = exits
    act-Succeeds proceed reason =
        Succeeds-if (env.cfg.force_close_at_close && tick.near_close) _ _
          (Succeeds-from _ (λ s (p, _). p) (flatten _))
          (Succeeds-bind _ _ exits
            λ _. Succeeds-read _ _ λ s p. enter-Succeeds s.daily_state ranked p)

    late-Succeeds :
        (daily : DailyState F) → Succeeds IsOpen IsBegun (late env daily tick ranked bars)
    unfolding late
    late-Succeeds daily =
        Succeeds-bind _ _ (Succeeds-modify (λ s. record s { z_cutoff_passed = true }) λ s p. p) λ _.
          Succeeds-bind _ _ (refresh-Succeeds daily)
            λ action. Succeeds-bind _ _ (Succeeds-gets _) λ reason. act-Succeeds action reason

    early-Succeeds : (elapsed : F) → Succeeds IsOpen IsBegun (early env elapsed bars)
    unfolding early log
    early-Succeeds elapsed = Succeeds-bind _ _ (Succeeds-modify (log _) λ s p. p) λ _. exits

    cycle-Succeeds :
        (daily : Option (DailyState F))
        → is_some daily ≡ true
        → Succeeds IsOpen IsBegun (cycle env daily tick ranked bars)
    unfolding cycle open_cycle
    cycle-Succeeds none h = absurd (ground arith)
    cycle-Succeeds (some daily) h =
        Succeeds-if tick.market_open _ _
          (Succeeds-if (hours_since_open tick <? env.cfg.z_hour_cutoff) _ _ (early-Succeeds _)
            (late-Succeeds daily))
          (Succeeds-from _ (λ s (p, _). p) (Succeeds-pure tt))

    -- When the day has begun, the broker answers every call, the periods of MACD are in order, no
    -- candle closes at zero, and every floor that sizing and scale-outs may take, with the accounts
    -- reported, the closes and the shares left of the open trades, is of a finite number, then a cycle
    -- returns: it raises nothing, and the day goes on.
    pub run_cycle_returns :
        (s : Session F W)
        → IsOpen s
        → (t : Session F W) × (run_cycle env tick ranked bars s ≡ (ok tt, t)) × IsBegun t
    unfolding run_cycle ◌>>=◌ gets
    run_cycle_returns s (begun, sellable) =
        let (_, t, e, q) = (cycle-Succeeds s.daily_state begun).run s (begun, sellable) in (t, e, q)
