-- ===== src/Engine/Session/Exits/Sells.antt =====
-- The exits of bot/src/bot/engine/session.py only ever sell.
use quick_stock_bot.Prelude.{false, String, List, [], ◌∷◌, Option, none, some, ◌≡◌, refl}
use quick_stock_bot.Prelude.Int.{ℤ, pos, ltb_ℤ, leb_ℤ, min_ℤ}
use quick_stock_bot.Prelude.Dict.{Dict}
use quick_stock_bot.Num.{Float}
use quick_stock_bot.Models.{Bar, Order, OrderSide}
use quick_stock_bot.Engine.Messages.{Reason, LogLine}
use quick_stock_bot.Engine.Exits.{ExitSignal}
use quick_stock_bot.Engine.Session.State.{Session, Setup, TradeRecord, log, put_trade, record_order}
use quick_stock_bot.Engine.Session.Requests.{
  Request, Noted, requests, with_notes, log_quiet, put_trade_quiet, record_order_quiet, Asks,
  Asks-bind, Asks-pure, Asks-lift, Asks-gets, Asks-modify, Asks-if, Asks-poll, Asks-submit,
}
use quick_stock_bot.Engine.Session.Exits.{
  after_sale, erase_all, execute_exit, act_on, retag, tags_of, exit_marked, exit_trade, exit_one,
  exit_loop, process_exits, flatten_one, flatten_loop, flatten_all,
}

abbrev pub IsSell : Request → Type 0
IsSell r = r.side ≡ OrderSide.sell

module _ {F W : Type 0} ⦃num : Float F⦄ (env : Setup F W) where
  after_sale_quiet :
      (key : String) (trade : TradeRecord F) (signal : ExitSignal F) (qty : ℤ) (filled : Order)
      (price : F) (s : Session F (Noted W))
      → requests (after_sale (with_notes env) key trade signal qty filled price s) ≡ requests s
  unfolding after_sale put_trade log
  after_sale_quiet key trade signal qty filled price s = refl

  execute_exit_sells :
      (key : String) (trade : TradeRecord F) (signal : ExitSignal F) (price : F)
      → Asks F W IsSell (execute_exit (with_notes env) key trade signal price)
  unfolding execute_exit
  execute_exit_sells key trade signal price =
      Asks-if (leb_ℤ (min_ℤ signal.shares_to_sell trade.position.remaining_shares) (pos 0)) _ _
        (λ _. Asks-pure tt)
        λ _. Asks-bind _ _ (Asks-submit env.client _ _ _ _ _ refl) λ order.
          Asks-bind _ _ (Asks-modify (record_order order) (record_order_quiet order)) λ _.
            Asks-bind _ _ (Asks-poll env.client _)
              λ filled. Asks-modify _ (after_sale_quiet key trade signal _ filled price)

  act_on_sells :
      (key : String) (trade : TradeRecord F) (price : F) (signal : Option (ExitSignal F))
      → Asks F W IsSell (act_on (with_notes env) key trade price signal)
  unfolding act_on
  act_on_sells key trade price none = Asks-pure false
  act_on_sells key trade price (some signal) =
      Asks-bind _ _ (execute_exit_sells key trade signal price)
        λ _. Asks-bind _ _ (Asks-gets _) λ now. Asks-pure _

  exit_marked_sells :
      (key : String) (marked : TradeRecord F) (price : F) (bars : List Bar)
      → Asks F W IsSell (exit_marked (with_notes env) key marked price bars)
  unfolding exit_marked
  exit_marked_sells key marked price bars =
      Asks-bind _ _ (Asks-modify (put_trade key marked) (put_trade_quiet key marked)) λ _.
        Asks-bind _ _ (Asks-lift _) λ macd. Asks-bind _ _ (Asks-lift _) λ signal.
          let tagged = retag marked (tags_of env bars) in
          Asks-bind _ _ (Asks-modify (put_trade key tagged) (put_trade_quiet key tagged))
            λ _. act_on_sells key tagged price signal

  exit_one_sells :
      (key : String) (trade : Option (TradeRecord F)) (bars : List Bar)
      → Asks F W IsSell (exit_one (with_notes env) key trade bars)
  unfolding exit_one exit_trade
  exit_one_sells key none bars = Asks-pure false
  exit_one_sells key (some trade) [] = Asks-pure false
  exit_one_sells key (some trade) (b ∷ bars) = exit_marked_sells key _ _ (b ∷ bars)

  exit_loop_sells :
      (names : List String) (bars : Dict (List Bar))
      → Asks F W IsSell (exit_loop (with_notes env) names bars)
  unfolding exit_loop
  exit_loop_sells [] bars = Asks-pure []
  exit_loop_sells (key ∷ rest) bars = Asks-bind _ _ (Asks-gets _) λ found.
      Asks-bind _ _ (exit_one_sells key found _)
        λ closed. Asks-bind _ _ (exit_loop_sells rest bars) λ others. Asks-pure _

  pub process_exits_sells :
      (bars : Dict (List Bar)) → Asks F W IsSell (process_exits (with_notes env) bars)
  unfolding process_exits
  process_exits_sells bars = Asks-bind _ _ (Asks-gets _) λ names.
      Asks-bind _ _ (exit_loop_sells names bars) λ closed.
        Asks-modify (λ s. record s { open_trades = erase_all env closed s.open_trades }) (λ s. refl)

  flatten_one_sells :
      (key : String) (trade : Option (TradeRecord F)) (reason : Reason F)
      → Asks F W IsSell (flatten_one (with_notes env) key trade reason)
  unfolding flatten_one
  flatten_one_sells key none reason = Asks-pure tt
  flatten_one_sells key (some trade) reason =
      Asks-if (ltb_ℤ (pos 0) trade.position.remaining_shares) _ _
        (λ _. execute_exit_sells key trade _ _) (λ _. Asks-pure tt)

  flatten_loop_sells :
      (names : List String) (reason : Reason F)
      → Asks F W IsSell (flatten_loop (with_notes env) names reason)
  unfolding flatten_loop
  flatten_loop_sells [] reason = Asks-pure tt
  flatten_loop_sells (key ∷ rest) reason = Asks-bind _ _ (Asks-gets _) λ found.
      Asks-bind _ _ (flatten_one_sells key found reason) λ _. flatten_loop_sells rest reason

  pub flatten_all_sells :
      (reason : Reason F) → Asks F W IsSell (flatten_all (with_notes env) reason)
  unfolding flatten_all
  flatten_all_sells reason = Asks-bind _ _ (Asks-gets _) λ names.
      Asks-bind _ _ (flatten_loop_sells names reason) λ _.
        Asks-modify (λ s. log (LogLine.flattened reason) (record s { open_trades = [] }))
          (λ s. log_quiet _ _)
