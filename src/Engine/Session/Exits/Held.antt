-- ===== src/Engine/Session/Exits/Held.antt =====
-- The exits of bot/src/bot/engine/session.py never sell more than is held.
use quick_stock_bot.Prelude.{false, String, List, [], ◌∷◌, Option, none, some, ◌≡◌, refl, arith}
use quick_stock_bot.Prelude.Int.{ℤ, pos, ◌-ℤ◌, ltb_ℤ, leb_ℤ, min_ℤ}
use quick_stock_bot.Prelude.Dict.{Dict, Each, Each-erase, Each-lookup, lookup}
use quick_stock_bot.Prelude.Keeps.{
  Keeps, Keeps-pure, Keeps-lift, Keeps-modify, Keeps-if, Keeps-bind, Keeps-read,
}
use quick_stock_bot.Num.{Float}
use quick_stock_bot.Models.{Bar, Order}
use quick_stock_bot.Engine.Messages.{Reason, LogLine}
use quick_stock_bot.Engine.Exits.{ExitSignal, update_high_water_mark}
use quick_stock_bot.Engine.Session.State.{
  Session, Setup, TradeRecord, log, put_trade, record_order, bars_of,
}
use quick_stock_bot.Engine.Session.Positions.{
  IsHeld, IsTracked, put_trade-IsTracked, log-IsTracked, record_order-IsTracked, call-IsTracked,
}
use quick_stock_bot.Engine.Session.Exits.{
  sold, mark, retag, after_sale, erase_all, tags_of, execute_exit, act_on, exit_marked, exit_trade,
  exit_one, exit_loop, process_exits, flatten_one, flatten_loop, flatten_all,
}

module _ {F : Type 0} ⦃num : Float F⦄ where
  mark-IsHeld :
      {key : String} (t : TradeRecord F) (price : F) → IsHeld key t → IsHeld key (mark t price)
  unfolding mark update_high_water_mark
  mark-IsHeld t price h = ground arith

  retag-IsHeld :
      {key : String} (t : TradeRecord F) (tags : List String)
      → IsHeld key t
      → IsHeld key (retag t tags)
  unfolding retag
  retag-IsHeld t tags h = ground arith

  sold-IsHeld :
      {key : String} (t : TradeRecord F) (asked : ℤ) (filled : Order) (pnl : F)
      → leb_ℤ (min_ℤ asked t.position.remaining_shares) (pos 0) ≡ false
      → IsHeld key t
      → IsHeld key (sold t (min_ℤ asked t.position.remaining_shares) filled pnl)
  unfolding sold ◌-ℤ◌
  sold-IsHeld t asked filled pnl some_shares h = ground arith

module _ {F W : Type 0} ⦃num : Float F⦄ (env : Setup F W) where
  after_sale-IsTracked :
      (key : String) (trade : TradeRecord F) (signal : ExitSignal F) (asked : ℤ) (filled : Order)
      (price : F)
      → leb_ℤ (min_ℤ asked trade.position.remaining_shares) (pos 0) ≡ false
      → IsHeld key trade
      → (s : Session F W) → IsTracked s
      → IsTracked (
          after_sale env key trade signal
            (min_ℤ asked trade.position.remaining_shares)
            filled
            price
            s)
  unfolding after_sale log
  after_sale-IsTracked key trade signal asked filled price some_shares held s h =
      put_trade-IsTracked key _ (sold-IsHeld trade asked filled _ some_shares held) s h

  execute_exit-IsTracked :
      (key : String) (trade : TradeRecord F) (signal : ExitSignal F) (price : F)
      → IsHeld key trade
      → Keeps IsTracked (execute_exit env key trade signal price)
  unfolding execute_exit
  execute_exit-IsTracked key trade signal price held =
      Keeps-if (leb_ℤ (min_ℤ signal.shares_to_sell trade.position.remaining_shares) (pos 0)) _ _
        (λ _. Keeps-pure tt)
        λ some_shares. Keeps-bind _ _ (call-IsTracked _) λ order.
          Keeps-bind _ _ (Keeps-modify (record_order order) (record_order-IsTracked order)) λ _.
            Keeps-bind _ _ (call-IsTracked _) λ filled. Keeps-modify _ (
              after_sale-IsTracked key trade signal signal.shares_to_sell filled price some_shares
                held)

  act_on-IsTracked :
      (key : String) (trade : TradeRecord F) (price : F) (signal : Option (ExitSignal F))
      → IsHeld key trade
      → Keeps IsTracked (act_on env key trade price signal)
  unfolding act_on
  act_on-IsTracked key trade price none held = Keeps-pure false
  act_on-IsTracked key trade price (some signal) held =
      Keeps-bind _ _ (execute_exit-IsTracked key trade signal price held)
        λ _. Keeps-read _ _ λ s h. Keeps-pure _

  exit_marked-IsTracked :
      (key : String) (marked : TradeRecord F) (price : F) (bars : List Bar)
      → IsHeld key marked
      → Keeps IsTracked (exit_marked env key marked price bars)
  unfolding exit_marked
  exit_marked-IsTracked key marked price bars held =
      let tagged = retag marked (tags_of env bars) in
      let held' = retag-IsHeld marked (tags_of env bars) held in
      Keeps-bind _ _ (Keeps-modify (put_trade key marked) (put_trade-IsTracked key marked held))
        λ _. Keeps-bind _ _ (Keeps-lift _) λ macd. Keeps-bind _ _ (Keeps-lift _) λ signal.
          Keeps-bind _ _
            (Keeps-modify (put_trade key tagged) (put_trade-IsTracked key tagged held'))
            λ _. act_on-IsTracked key tagged price signal held'

  exit_one-IsTracked :
      (key : String) (trade : Option (TradeRecord F)) (bars : List Bar)
      → ((t : TradeRecord F) → trade ≡ some t → IsHeld key t)
      → Keeps IsTracked (exit_one env key trade bars)
  unfolding exit_one exit_trade
  exit_one-IsTracked key none bars held = Keeps-pure false
  exit_one-IsTracked key (some trade) [] held = Keeps-pure false
  exit_one-IsTracked key (some trade) (b ∷ bars) held =
      exit_marked-IsTracked key _ _ (b ∷ bars) (mark-IsHeld trade _ (held trade refl))

  exit_loop-IsTracked :
      (names : List String) (bars : Dict (List Bar)) → Keeps IsTracked (exit_loop env names bars)
  unfolding exit_loop
  exit_loop-IsTracked [] bars = Keeps-pure []
  exit_loop-IsTracked (key ∷ rest) bars =
      Keeps-read (λ s. lookup key s.open_trades) _
        λ s h.
          Keeps-bind _ _
            (exit_one-IsTracked key (lookup key s.open_trades) (bars_of key bars)
              (λ t e. Each-lookup IsHeld key t s.open_trades e h))
            λ closed. Keeps-bind _ _ (exit_loop-IsTracked rest bars) λ others. Keeps-pure _

  erase_all-IsTracked :
      (names : List String) (d : Dict (TradeRecord F))
      → Each IsHeld d
      → Each IsHeld (erase_all env names d)
  erase_all-IsTracked [] d h = h
  erase_all-IsTracked (k ∷ ks) d h = erase_all-IsTracked ks _ (Each-erase IsHeld k d h)

  -- The exits of a cycle keep every position between none and all of its shares, whatever the client
  -- answers and wherever it raises.
  pub process_exits-IsTracked : (bars : Dict (List Bar)) → Keeps IsTracked (process_exits env bars)
  unfolding process_exits
  process_exits-IsTracked bars = Keeps-read _ _ λ s h.
      Keeps-bind _ _ (exit_loop-IsTracked _ bars) λ closed.
        Keeps-modify (λ s. record s { open_trades = erase_all env closed s.open_trades })
          (λ s h. erase_all-IsTracked closed s.open_trades h)

  flatten_one-IsTracked :
      (key : String) (trade : Option (TradeRecord F)) (reason : Reason F)
      → ((t : TradeRecord F) → trade ≡ some t → IsHeld key t)
      → Keeps IsTracked (flatten_one env key trade reason)
  unfolding flatten_one
  flatten_one-IsTracked key none reason held = Keeps-pure tt
  flatten_one-IsTracked key (some trade) reason held =
      Keeps-if (ltb_ℤ (pos 0) trade.position.remaining_shares) _ _
        (λ _. execute_exit-IsTracked key trade _ _ (held trade refl)) (λ _. Keeps-pure tt)

  flatten_loop-IsTracked :
      (names : List String) (reason : Reason F) → Keeps IsTracked (flatten_loop env names reason)
  unfolding flatten_loop
  flatten_loop-IsTracked [] reason = Keeps-pure tt
  flatten_loop-IsTracked (key ∷ rest) reason =
      Keeps-read (λ s. lookup key s.open_trades) _
        λ s h.
          Keeps-bind _ _
            (flatten_one-IsTracked key (lookup key s.open_trades) reason
              (λ t e. Each-lookup IsHeld key t s.open_trades e h))
            λ _. flatten_loop-IsTracked rest reason

  pub flatten_all-IsTracked : (reason : Reason F) → Keeps IsTracked (flatten_all env reason)
  unfolding flatten_all
  flatten_all-IsTracked reason = Keeps-read _ _ λ s h.
      Keeps-bind _ _ (flatten_loop-IsTracked _ reason) λ _.
        Keeps-modify (λ s. log (LogLine.flattened reason) (record s { open_trades = [] }))
          (λ s h. log-IsTracked _ _ tt)
