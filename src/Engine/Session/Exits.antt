-- ===== src/Engine/Session/Exits.antt =====
-- bot/src/bot/engine/session.py: `_process_exits`, `_execute_exit` and `_flatten_all`.
pub mod Sells
pub mod Held
pub mod Choice
pub mod Flat
pub mod Sold
pub mod Ends
use quick_stock_bot.Prelude.{
  ◌+◌, Bool, true, false, ◌&&◌, ◌||◌, not, String, List, [], ◌∷◌, ◌++◌, Option, none, some, Result,
  ok, and_then, if◌then◌else◌, last_or,
}
use quick_stock_bot.Prelude.Int.{ℤ, pos, ◌-ℤ◌, leb_ℤ, ltb_ℤ, min_ℤ}
use quick_stock_bot.Prelude.Dict.{Dict, lookup, erase, keys}
use quick_stock_bot.Prelude.Action.{Action, pure, lift, gets, modify, ◌>>=◌, ◌>>◌}
use quick_stock_bot.Num.{Decimal, Float, lit, ◌⊕◌, ◌⊖◌, ◌⊗◌, ◌≤?◌, decimal_of_int, is_zero}
use quick_stock_bot.Models.{Bar, Order, OrderSide, OrderType, TimeInForce}
use quick_stock_bot.Ta.State.{MacdState}
use quick_stock_bot.Ta.Config.{TaConfig}
use quick_stock_bot.Ta.Helpers.{current_price}
use quick_stock_bot.Ta.Macd.{classify_macd}
use quick_stock_bot.Ta.Patterns.{run_enabled_patterns, matched_tags}
use quick_stock_bot.Engine.Config.{ExecutionConfig, ExitMode, TrailTrigger}
use quick_stock_bot.Engine.Messages.{Reason, LogLine, text}
use quick_stock_bot.Engine.Exits.{
  OpenPosition, ExitSignal, is_closed, has_reversal, check_take_profit, check_trailing_stop,
  update_high_water_mark, dump_exit, trail_off_per_candle, trail_off_candle_pattern,
}
use quick_stock_bot.Engine.Session.State.{
  TradeRecord, Session, Setup, call, log, record_order, put_trade, bars_of,
}

module _ {F : Type 0} ⦃num : Float F⦄ where
  -- `float(filled.filled_avg_price or Decimal(str(price)))`: a zero price counts as missing
  unfoldable pub fill_price : Option Decimal → F → F
  fill_price none price = num.of_decimal (num.repr price)
  fill_price (some d) price =
      if is_zero d.mantissa then num.of_decimal (num.repr price) else num.of_decimal d

  -- the trade after `qty` shares are sold
  sold : TradeRecord F → ℤ → Order → F → TradeRecord F
  sold trade qty filled chunk_pnl = record trade {
    exit_orders = trade.exit_orders ++ (filled ∷ []);
    position = record trade.position { remaining_shares = trade.position.remaining_shares -ℤ qty };
    realized_pnl = trade.realized_pnl ⊕ chunk_pnl;
  }

  -- `update_high_water_mark(pos, price)`, and `trade.prev_pattern_tags = pattern_tags[:]`
  mark : TradeRecord F → F → TradeRecord F
  mark trade price = record trade { position = update_high_water_mark trade.position price }

  retag : TradeRecord F → List String → TradeRecord F
  retag trade tags = record trade { prev_pattern_tags = tags }

  -- the two ends of `_execute_exit`
  exit_line : Bool → ExitSignal F → ℤ → ℤ → F → F → LogLine F
  exit_line true signal qty remaining price chunk_pnl =
      LogLine.exited signal.symbol qty price signal.reason chunk_pnl
  exit_line false signal qty remaining price chunk_pnl =
      LogLine.partly_exited signal.symbol qty remaining price signal.reason

  abbrev as_some : Result (ExitSignal F) → Result (Option (ExitSignal F))
  as_some r = and_then r λ s. ok (some s)

  -- a scale-out, by the kind of trigger that is configured
  trail :
      ExecutionConfig F
      → TrailTrigger
      → TradeRecord F
      → MacdState F
      → List String
      → List String
      → Reason F
      → Reason F
      → Result (Option (ExitSignal F))
  trail cfg TrailTrigger.per_candle trade macd tags bullish candle_reason pattern_reason = as_some (
      trail_off_per_candle trade.position macd tags bullish cfg.trail_off_fraction_per_candle
        candle_reason)
  trail cfg TrailTrigger.candle_pattern trade macd tags bullish candle_reason pattern_reason =
      trail_off_candle_pattern trade.position macd tags bullish trade.prev_pattern_tags
        cfg.trail_off_fraction_per_candle pattern_reason

  on_take_profit :
      ExitMode
      → ExecutionConfig F
      → TradeRecord F
      → MacdState F
      → List String
      → List String
      → Result (Option (ExitSignal F))
  unfolding trail
  on_take_profit ExitMode.dump cfg trade macd tags bullish =
      ok (some (dump_exit trade.position (text "take_profit reached (dump)")))
  on_take_profit ExitMode.trail_off cfg trade macd tags bullish =
      trail cfg cfg.trail_off_trigger trade macd tags bullish
        (text "take_profit: trail_off per_candle") (text "take_profit: trail_off candle_pattern")

  on_reversal :
      ExitMode
      → ExecutionConfig F
      → TradeRecord F
      → MacdState F
      → List String
      → List String
      → Result (Option (ExitSignal F))
  on_reversal ExitMode.dump cfg trade macd tags bullish =
      ok (some (dump_exit trade.position (text "reversal/back-side detected (dump)")))
  on_reversal ExitMode.trail_off cfg trade macd tags bullish = as_some (
      trail_off_per_candle trade.position macd tags bullish cfg.trail_off_fraction_per_candle
        (text "reversal/back-side: trail_off"))

  otherwise :
      ExitMode
      → ExecutionConfig F
      → TradeRecord F
      → MacdState F
      → List String
      → List String
      → Result (Option (ExitSignal F))
  unfolding trail
  otherwise ExitMode.dump cfg trade macd tags bullish = ok none
  otherwise ExitMode.trail_off cfg trade macd tags bullish =
      trail cfg cfg.trail_off_trigger trade macd tags bullish (text "trail_off per_candle ongoing")
        (text "trail_off candle_pattern ongoing")

  -- the signal that `_process_exits` chooses
  pub choose_signal :
      ExecutionConfig F
      → TradeRecord F
      → F
      → MacdState F
      → List String
      → List String
      → Result (Option (ExitSignal F))
  unfolding on_take_profit on_reversal otherwise
  choose_signal cfg trade price macd tags bullish =
      if cfg.trailing_stop && check_trailing_stop trade.position price cfg.trailing_stop_pct
      then ok (some (dump_exit trade.position (text "trailing stop hit")))
      else if check_take_profit trade.position price cfg.take_profit_pct
      then on_take_profit cfg.exit_mode cfg trade macd tags bullish
      else if has_reversal tags || not macd.eligible || (macd.slope ≤? lit 0 0)
      then on_reversal cfg.exit_mode cfg trade macd tags bullish
      else otherwise cfg.exit_mode cfg trade macd tags bullish

module _ {F W : Type 0} ⦃num : Float F⦄ (env : Setup F W) where
  open env use {client, cfg, ta_cfg}

  -- the state after the fill of a sale is known
  after_sale : String → TradeRecord F → ExitSignal F → ℤ → Order → F → Session F W → Session F W
  unfolding fill_price sold exit_line
  after_sale key trade signal qty filled price s =
      let paid = fill_price filled.filled_avg_price price in
      let chunk_pnl = (paid ⊖ trade.entry_price) ⊗ num.of_int qty in
      let trade' = sold trade qty filled chunk_pnl in
      let done = is_closed trade'.position || signal.is_final in
      let s' = put_trade key trade' s in
      log (exit_line done signal qty trade.position.remaining_shares paid chunk_pnl) (record s' {
        result = record s'.result {
          realized_pnl = s'.result.realized_pnl ⊕ chunk_pnl;
          trades_exited = if done then s'.result.trades_exited + 1 else s'.result.trades_exited;
        };
      })

  -- `_execute_exit`, on the trade that stands in the dict under `key`
  pub execute_exit : String → TradeRecord F → ExitSignal F → F → Action (Session F W) (Unit {0})
  unfolding after_sale
  execute_exit key trade signal price =
      let qty = min_ℤ signal.shares_to_sell trade.position.remaining_shares in
      if leb_ℤ qty (pos 0) then pure tt else do
        exit_order ← call (
            client.submit_order signal.symbol (decimal_of_int qty) OrderSide.sell OrderType.market
              TimeInForce.day)
        modify (record_order exit_order)
        filled ← call (client.poll_order exit_order.id)
        modify (after_sale key trade signal qty filled price)

  -- the end of the loop's body in `_process_exits`: is the trade to be deleted?
  act_on : String → TradeRecord F → F → Option (ExitSignal F) → Action (Session F W) Bool
  unfolding execute_exit
  act_on key trade price none = pure false
  act_on key trade price (some signal) = do
    execute_exit key trade signal price
    now ← gets (λ s. lookup key s.open_trades)
    pure (signal.is_final || elim now [ none ↦ true | some t ↦ is_closed t.position ])

  -- `[m.tag for m in pattern_matches if m.matched]`
  tags_of : List Bar → List String
  tags_of bars =
      matched_tags
        (run_enabled_patterns {F = F} bars ta_cfg.enabled_patterns ta_cfg.pattern_candle_lookback)

  -- the loop's body, from the trade with its high-water mark up to date
  exit_marked : String → TradeRecord F → F → List Bar → Action (Session F W) Bool
  unfolding choose_signal act_on tags_of retag
  exit_marked key marked price bars = do
    modify (put_trade key marked)
    macd ← lift (classify_macd bars ta_cfg)
    let tags = tags_of bars
    signal ← lift (choose_signal cfg marked price macd tags ta_cfg.enabled_patterns)
    modify (put_trade key (retag marked tags))
    act_on key (retag marked tags) price signal

  exit_trade : String → TradeRecord F → Bar → List Bar → Action (Session F W) Bool
  unfolding exit_marked mark
  exit_trade key trade b bars =
      let price = current_price (last_or b bars) in
      exit_marked key (mark trade price) price (b ∷ bars)

  -- one round of the loop of `_process_exits`
  exit_one : String → Option (TradeRecord F) → List Bar → Action (Session F W) Bool
  unfolding exit_trade
  exit_one key none bars = pure false
  exit_one key (some trade) [] = pure false
  exit_one key (some trade) (b ∷ bars) = exit_trade key trade b bars

  -- the loop: the keys to delete
  exit_loop : List String → Dict (List Bar) → Action (Session F W) (List String)
  unfolding exit_one
  exit_loop [] bars = pure []
  exit_loop (key ∷ rest) bars = do
    found ← gets (λ s. lookup key s.open_trades)
    closed ← exit_one key found (bars_of key bars)
    others ← exit_loop rest bars
    pure (if closed then key ∷ others else others)

  -- `for sym in closed: del self._open_trades[sym]`
  abbrev erase_all : List String → Dict (TradeRecord F) → Dict (TradeRecord F)
  erase_all [] d = d
  erase_all (k ∷ ks) d = erase_all ks (erase k d)

  unfoldable pub process_exits : Dict (List Bar) → Action (Session F W) (Unit {0})
  unfolding exit_loop
  process_exits bars = do
    names ← gets (λ s. keys s.open_trades)
    closed ← exit_loop names bars
    modify (λ s. record s { open_trades = erase_all closed s.open_trades })

  flatten_one : String → Option (TradeRecord F) → Reason F → Action (Session F W) (Unit {0})
  unfolding execute_exit
  flatten_one key none reason = pure tt
  flatten_one key (some trade) reason =
      if ltb_ℤ (pos 0) trade.position.remaining_shares
      then execute_exit key trade (dump_exit trade.position reason) trade.entry_price
      else pure tt

  flatten_loop : List String → Reason F → Action (Session F W) (Unit {0})
  unfolding flatten_one
  flatten_loop [] reason = pure tt
  flatten_loop (key ∷ rest) reason = do
    found ← gets (λ s. lookup key s.open_trades)
    flatten_one key found reason
    flatten_loop rest reason

  unfoldable pub flatten_all : Reason F → Action (Session F W) (Unit {0})
  unfolding flatten_loop
  flatten_all reason = do
    names ← gets (λ s. keys s.open_trades)
    flatten_loop names reason
    modify (λ s. log (LogLine.flattened reason) (record s { open_trades = [] }))
