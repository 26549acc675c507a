-- ===== src/Engine/Session/Cycle/Trading.antt =====
-- bot/src/bot/engine/session.py, `run_cycle`: when nothing may be bought.
use quick_stock_bot.Prelude.{
  true, false, ◌&&◌, String, List, Option, none, some, ok, ◌≡◌, ◌≢◌, ◌⊎◌, inl, inr, refl, arith,
}
use quick_stock_bot.Prelude.Dict.{Dict}
use quick_stock_bot.Prelude.Action.{gets, ◌>>=◌}
use quick_stock_bot.Num.{Float, ◌<?◌}
use quick_stock_bot.Models.{Bar}
use quick_stock_bot.Engine.Messages.{Reason}
use quick_stock_bot.Engine.Breaker.{DailyAction, DailyState, proceed, halt, flatten_and_halt}
use quick_stock_bot.Engine.Breaker.Laws.{halted_halts}
use quick_stock_bot.Engine.Session.State.{Session, Setup, log, put_daily}
use quick_stock_bot.Engine.Session.Requests.{
  Noted, requests, with_notes, log_quiet, Follows, Asks, Asks-quiet, Asks-bind, Asks-bind_ok,
  Asks-pure, Asks-raise, Asks-gets, Asks-modify, Asks-if,
}
use quick_stock_bot.Engine.Session.Exits.Sells.{IsSell, process_exits_sells, flatten_all_sells}
use quick_stock_bot.Engine.Session.Cycle.{
  Tick, hours_since_open, refresh, act, early, late, open_cycle, cycle, run_cycle, unrealized_pnl,
}

module _ {F W : Type 0} ⦃num : Float F⦄ (env : Setup F W) where
  -- what keeps a cycle from buying, given the state of the day
  abbrev pub IsBlocked : DailyState F → Tick → Type 0
  IsBlocked daily tick =
      (tick.market_open ≡ false)
      ⊎ ((hours_since_open tick <? env.cfg.z_hour_cutoff) ≡ true)
      ⊎ (daily.halted ≡ true)
      ⊎ ((env.cfg.force_close_at_close && tick.near_close) ≡ true)

  module _ (tick : Tick) (ranked : List String) (bars : Dict (List Bar)) where
    act_sells :
        (action : DailyAction) (reason : Reason F)
        → (action ≢ proceed) ⊎ ((env.cfg.force_close_at_close && tick.near_close) ≡ true)
        → Asks F W IsSell (act (with_notes env) action tick ranked bars reason)
    unfolding act
    act_sells flatten_and_halt reason h = flatten_all_sells env reason
    act_sells halt reason h = process_exits_sells env bars
    act_sells proceed reason (inl h) = absurd (h refl)
    act_sells proceed reason (inr h) = rw h (flatten_all_sells env _)

    refresh_quiet :
        (daily : DailyState F) (s : Session F (Noted W))
        → requests (refresh (with_notes env) daily s).1 ≡ requests s
    unfolding refresh put_daily
    refresh_quiet daily s = ground arith

    refresh_halted :
        (daily : DailyState F) (s : Session F (Noted W)) (action : DailyAction)
        → daily.halted ≡ true
        → (refresh (with_notes env) daily s).0 ≡ ok action
        → action ≢ proceed
    unfolding refresh
    refresh_halted daily s action h e =
        ground
          (arith, halted_halts daily s.result.realized_pnl (unrealized_pnl s.open_trades) env.cfg h)

    late_sells :
        (daily : DailyState F)
        → (daily.halted ≡ true) ⊎ ((env.cfg.force_close_at_close && tick.near_close) ≡ true)
        → Asks F W IsSell (late (with_notes env) daily tick ranked bars)
    unfolding late
    late_sells daily h =
        Asks-bind _ _ (Asks-modify (λ s. record s { z_cutoff_passed = true }) (λ s. refl)) λ _.
          Asks-bind_ok (refresh (with_notes env) daily) _ (Asks-quiet _ (refresh_quiet daily))
            λ s action e. Asks-bind _ _ (Asks-gets _) λ reason. act_sells action reason (elim h [
              | inl halted ↦ inl (refresh_halted daily s action halted e)
              | inr closing ↦ inr closing
            ])

    early_sells : (elapsed : F) → Asks F W IsSell (early (with_notes env) elapsed bars)
    unfolding early
    early_sells elapsed =
        Asks-bind _ _ (Asks-modify (log _) (log_quiet _)) λ _. process_exits_sells env bars

    cycle_sells :
        (daily : Option (DailyState F))
        → ((d : DailyState F) → daily ≡ some d → IsBlocked d tick)
        → Asks F W IsSell (cycle (with_notes env) daily tick ranked bars)
    unfolding cycle open_cycle
    cycle_sells none h = Asks-raise _
    cycle_sells (some daily) h =
        Asks-if tick.market_open _ _
          (λ opened.
            Asks-if (hours_since_open tick <? env.cfg.z_hour_cutoff) _ _ (λ _. early_sells _)
              (λ passed. late_sells daily (ground (arith, h daily))))
          (λ _. Asks-pure tt)

  -- Whatever the client answers and also if it raises, a cycle asks for no purchase when the market
  -- is closed, or the first hours are not over, or the day is halted, or the close is near and
  -- positions are to be closed then: every order that it asks for is a sale.
  pub run_cycle_sells :
      (tick : Tick) (ranked : List String) (bars : Dict (List Bar)) (s : Session F (Noted W))
      → ((d : DailyState F) → s.daily_state ≡ some d → IsBlocked d tick)
      → Follows IsSell s (run_cycle (with_notes env) tick ranked bars s).1
  unfolding run_cycle ◌>>=◌ gets
  run_cycle_sells tick ranked bars s h = (cycle_sells tick ranked bars s.daily_state h).at s
