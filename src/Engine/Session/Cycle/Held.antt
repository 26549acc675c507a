-- ===== src/Engine/Session/Cycle/Held.antt =====
-- Every method of bot/src/bot/engine/session.py keeps the positions in order.
use quick_stock_bot.Prelude.{true, ◌&&◌, String, List, [], ◌∷◌, Option, none, some, ok, ◌≡◌, arith}
use mathlib.Core.Path.{subst}
use quick_stock_bot.Prelude.Dict.{Dict, Each}
use quick_stock_bot.Prelude.Keeps.{
  Keeps, Keeps-pure, Keeps-raise, Keeps-lift, Keeps-modify, Keeps-if, Keeps-bind, Keeps-read,
}
use quick_stock_bot.Num.{Float, ◌<?◌}
use quick_stock_bot.Models.{Bar}
use quick_stock_bot.Engine.Messages.{Reason}
use quick_stock_bot.Engine.Breaker.{DailyAction, DailyState, proceed, halt, flatten_and_halt}
use quick_stock_bot.Engine.Session.State.{Session, Setup, TradeRecord, log, put_daily}
use quick_stock_bot.Engine.Session.Positions.{
  IsHeld, IsTracked, log-IsTracked, log_all-IsTracked, call-IsTracked,
}
use quick_stock_bot.Engine.Session.Exits.Held.{process_exits-IsTracked, flatten_all-IsTracked}
use quick_stock_bot.Engine.Session.Entries.Held.{process_entries-IsTracked}
use quick_stock_bot.Engine.Session.Cycle.{
  Tick, hours_since_open, init, start_day, refresh, enter_unless_halted, act, early, late,
  open_cycle, cycle, run_cycle, flatten_if_open, end_day,
}

module _ {F W : Type 0} ⦃num : Float F⦄ (env : Setup F W) where
  refresh_trades :
      (daily : DailyState F) (s : Session F W) → s.open_trades ≡ (refresh env daily s).1.open_trades
  unfolding refresh put_daily
  refresh_trades daily s = ground arith

  refresh-IsTracked : (daily : DailyState F) → Keeps IsTracked (refresh env daily)
  refresh-IsTracked daily = record {
    at = λ s h. subst (λ d. Each IsHeld d) (refresh_trades daily s) h;
  }

  enter-IsTracked :
      (daily : Option (DailyState F)) (ranked : List String) (bars : Dict (List Bar))
      → Keeps IsTracked (enter_unless_halted env daily ranked bars)
  unfolding enter_unless_halted
  enter-IsTracked none ranked bars = Keeps-raise _
  enter-IsTracked (some daily) ranked bars =
      Keeps-if daily.halted _ _ (λ _. Keeps-pure tt)
        (λ _. process_entries-IsTracked env ranked bars)

  module _ (tick : Tick) (ranked : List String) (bars : Dict (List Bar)) where
    act-IsTracked :
        (action : DailyAction) (reason : Reason F)
        → Keeps IsTracked (act env action tick ranked bars reason)
    unfolding act
    act-IsTracked flatten_and_halt reason = flatten_all-IsTracked env reason
    act-IsTracked halt reason = process_exits-IsTracked env bars
    act-IsTracked proceed reason =
        Keeps-if (env.cfg.force_close_at_close && tick.near_close) _ _
          (λ _. flatten_all-IsTracked env _)
          (λ _.
            Keeps-bind _ _ (process_exits-IsTracked env bars)
              λ _. Keeps-read _ _ λ s h. enter-IsTracked _ ranked bars)

    late-IsTracked : (daily : DailyState F) → Keeps IsTracked (late env daily tick ranked bars)
    unfolding late
    late-IsTracked daily =
        Keeps-bind _ _ (Keeps-modify (λ s. record s { z_cutoff_passed = true }) (λ s h. h)) λ _.
          Keeps-bind _ _ (refresh-IsTracked daily)
            λ action. Keeps-read _ _ λ s h. act-IsTracked action _

    early-IsTracked : (elapsed : F) → Keeps IsTracked (early env elapsed bars)
    unfolding early
    early-IsTracked elapsed =
        Keeps-bind _ _ (Keeps-modify (log _) (log-IsTracked _))
          λ _. process_exits-IsTracked env bars

    cycle-IsTracked :
        (daily : Option (DailyState F)) → Keeps IsTracked (cycle env daily tick ranked bars)
    unfolding cycle open_cycle
    cycle-IsTracked none = Keeps-raise _
    cycle-IsTracked (some daily) =
        Keeps-if tick.market_open _ _
          (λ _.
            Keeps-if (hours_since_open tick <? env.cfg.z_hour_cutoff) _ _ (λ _. early-IsTracked _)
              (λ _. late-IsTracked daily))
          (λ _. Keeps-pure tt)

    run_cycle-Keeps : Keeps IsTracked (run_cycle env tick ranked bars)
    unfolding run_cycle
    run_cycle-Keeps = Keeps-read _ _ λ s h. cycle-IsTracked s.daily_state

  flatten_if_open-IsTracked :
      (trades : Dict (TradeRecord F)) → Keeps IsTracked (flatten_if_open env trades)
  unfolding flatten_if_open
  flatten_if_open-IsTracked [] = Keeps-pure tt
  flatten_if_open-IsTracked (t ∷ ts) = flatten_all-IsTracked env _

  start_day-Keeps : Keeps IsTracked (start_day env)
  unfolding start_day put_daily
  start_day-Keeps = Keeps-bind _ _ (call-IsTracked env.client.get_account) λ acct.
      Keeps-bind _ _ (Keeps-lift _) λ goalpost. Keeps-bind _ _ (Keeps-modify _ (λ s h. h)) λ _.
        Keeps-bind _ _ (Keeps-modify _ (log_all-IsTracked _)) λ _. Keeps-modify _ (log-IsTracked _)

  end_day-Keeps : Keeps IsTracked (end_day env)
  unfolding end_day
  end_day-Keeps =
      Keeps-read _ _
        λ s h. Keeps-bind _ _ (flatten_if_open-IsTracked _) λ _. Keeps-modify _ (λ s h. h)

  init-IsTracked : (w : W) (s : Session F W) → init env w ≡ ok s → IsTracked s
  unfolding init
  init-IsTracked w s e = ground arith

  -- The sessions that the public methods can bring about, with any clock and candles, whatever the
  -- client answers; a call that raises leaves what it wrote.
  pub data IsReachable : Session F W → Type 0 where
    created : (w : W) (s : Session F W) → init env w ≡ ok s → IsReachable s
    day_started : (s : Session F W) → IsReachable s → IsReachable (start_day env s).1
    cycled :
        (tick : Tick) (ranked : List String) (bars : Dict (List Bar)) (s : Session F W)
        → IsReachable s
        → IsReachable (run_cycle env tick ranked bars s).1
    day_ended : (s : Session F W) → IsReachable s → IsReachable (end_day env s).1

  -- In every session that the public methods can bring about, with any clock, candles and client,
  -- and wherever a call raised, each open position stands under its own symbol and holds between
  -- none and all of the shares bought.
  pub reachable-IsTracked : (s : Session F W) → IsReachable s → IsTracked s
  reachable-IsTracked _ (created w s e) = init-IsTracked w s e
  reachable-IsTracked _ (day_started s r) = start_day-Keeps.at s (reachable-IsTracked s r)
  reachable-IsTracked _ (cycled tick ranked bars s r) =
      (run_cycle-Keeps tick ranked bars).at s (reachable-IsTracked s r)
  reachable-IsTracked _ (day_ended s r) = end_day-Keeps.at s (reachable-IsTracked s r)
