-- ===== src/Engine/Session/Cycle/Flat.antt =====
-- bot/src/bot/engine/session.py, `end_day`: the day ends with nothing open, and what was open is sold.
use quick_stock_bot.Prelude.{[], ◌∷◌, ◌++◌, ok, ◌≡◌, refl, ap, sym, ◌∙◌, append-nil}
use quick_stock_bot.Prelude.Dict.{Dict}
use quick_stock_bot.Prelude.Action.{gets, modify, pure, ◌>>=◌}
use quick_stock_bot.Prelude.Succeeds.{bind_run}
use quick_stock_bot.Num.{Float}
use quick_stock_bot.Engine.Session.State.{Session, Setup, TradeRecord}
use quick_stock_bot.Engine.Session.Requests.{Noted, with_notes, requests}
use quick_stock_bot.Engine.Session.Exits.Flat.{IsResponsive, IsFlat}
use quick_stock_bot.Engine.Session.Exits.Sold.{IsKeyed, sales, flatten_all_sells}
use quick_stock_bot.Engine.Session.Cycle.{
  put_halt, halted_of, halt_reason_of, flatten_if_open, end_day,
}

module _ {F W : Type 0} ⦃num : Float F⦄ (env : Setup F W)
    (responsive : IsResponsive env.client) where
  flatten_if_open_run :
      (trades : Dict (TradeRecord F)) (s : Session F (Noted W))
      → s.open_trades ≡ trades
      → IsKeyed trades
      → (t : Session F (Noted W)) × (flatten_if_open (with_notes env) trades s ≡ (ok tt, t))
        × IsFlat t
        × (requests t ≡ requests s ++ sales trades)
  unfolding flatten_if_open pure
  flatten_if_open_run [] s e keyed = (s, refl, e, sym (append-nil (requests s)))
  flatten_if_open_run (trade ∷ trades) s e keyed =
      let (t, run_eq, flat, asked) = flatten_all_sells env responsive _ s (rw e keyed) in
      (t, run_eq, flat, asked ∙ ap (λ d. requests s ++ sales d) e)

  -- If the broker accepts every order and every poll ends in an answer, `end_day` returns, from any
  -- session, and no trade is open afterwards. The requests that it makes of the client are one for
  -- each trade with shares left, in order: a sale of its symbol, of all those shares. The dict of
  -- trades has no key twice.
  pub end_day_sells :
      (s : Session F (Noted W))
      → IsKeyed s.open_trades
      → (t : Session F (Noted W)) × (end_day (with_notes env) s ≡ (ok tt, t))
        × IsFlat t
        × (requests t ≡ requests s ++ sales s.open_trades)
  unfolding end_day ◌>>=◌ gets modify
  end_day_sells s keyed =
      let finish : Session F (Noted W) → Session F (Noted W) = λ u.
        put_halt (halted_of (with_notes env) u.daily_state)
          (halt_reason_of (with_notes env) u.daily_state) u in
      let (t, run_eq, flat, asked) = flatten_if_open_run s.open_trades s refl keyed in
      (
        finish t,
        bind_run (flatten_if_open (with_notes env) s.open_trades) (λ _. modify finish) run_eq refl,
        flat,
        asked,
      )
