-- ===== src/Engine/Session/Entries.antt =====
-- bot/src/bot/engine/session.py: `_process_entries` and the margin check. The score that the code
-- computes there and does not use is left out.
pub mod Buys
pub mod Held
pub mod Ends
use quick_stock_bot.Prelude.{
  ◌+◌, Bool, true, false, String, List, [], ◌∷◌, Option, none, some, Result, and_then, not, ltb,
  if◌then◌else◌, length, take, last_or, is_some,
}
use quick_stock_bot.Prelude.Int.{ℤ}
use quick_stock_bot.Prelude.Dict.{Dict, contains}
use quick_stock_bot.Prelude.Action.{Action, pure, lift, gets, modify, ◌>>=◌, ◌>>◌}
use quick_stock_bot.Num.{Float, lit, ◌<?◌, ◌≤?◌, decimal_of_int}
use quick_stock_bot.Models.{
  AccountSnapshot, Bar, Order, OrderSide, OrderType, TimeInForce, is_filled,
}
use quick_stock_bot.Ta.State.{MacdState}
use quick_stock_bot.Ta.Helpers.{current_price}
use quick_stock_bot.Ta.Macd.{classify_macd}
use quick_stock_bot.Ta.Patterns.{run_enabled_patterns, matched_tags}
use quick_stock_bot.Engine.Messages.{Reason, LogLine}
use quick_stock_bot.Engine.Gate.{GateResult, check_entry_gate}
use quick_stock_bot.Engine.Sizing.{SizingResult, compute_shares}
use quick_stock_bot.Engine.Session.State.{
  TradeRecord, Session, Setup, call, log, log_all, record_order, put_trade, bars_of,
}
use quick_stock_bot.Engine.Session.Exits.{fill_price}

module _ {F : Type 0} ⦃num : Float F⦄ where
  -- `_margin_allows_entry`: the answer and the lines that it logs
  unfoldable pub margin_allows_entry : AccountSnapshot → Bool × List (LogLine F)
  margin_allows_entry acct =
      if acct.is_pdt_restricted
      then (false, LogLine.margin "PDT flag active — new entries blocked" ∷ [])
      else if num.of_decimal acct.buying_power ≤? lit 0 0
      then (false, [])
      else if num.of_decimal acct.day_trading_buying_power <? lit 0 0
      then (false, LogLine.margin "intraday margin deficit — skipping entry" ∷ [])
      else (true, [])

  -- the trade of a filled entry
  new_trade : String → SizingResult F → List String → Order → F → TradeRecord F
  unfolding fill_price
  new_trade symbol sizing tags filled price =
      let paid = fill_price filled.filled_avg_price price in
      record {
        symbol = symbol;
        entry_order = filled;
        entry_price = paid;
        shares = sizing.shares;
        position = record {
          symbol = symbol;
          entry_price = paid;
          shares = sizing.shares;
          remaining_shares = sizing.shares;
          high_water_mark = paid;
          pattern_tags = tags;
        };
        exit_orders = [];
        realized_pnl = lit 0 0;
        prev_pattern_tags = tags;
      }

module _ {F W : Type 0} ⦃num : Float F⦄ (env : Setup F W) where
  open env use {client, cfg, ta_cfg, score_setup_fn}

  after_entry : String → SizingResult F → List String → Order → F → Session F W → Session F W
  unfolding new_trade
  after_entry symbol sizing tags filled price s =
      let trade = new_trade symbol sizing tags filled price in
      let s' = put_trade symbol trade s in
      log
        (LogLine.entered symbol sizing.shares trade.entry_price sizing.effective_risk_pct
          sizing.max_risk_dollars)
        (record s' { result = record s'.result { trades_entered = s'.result.trades_entered + 1 } })

  -- the order of an entry and what follows its fill
  buy : String → SizingResult F → List String → F → Action (Session F W) (Unit {0})
  unfolding after_entry
  buy symbol sizing tags price = do
    entry_order ← call (
        client.submit_order symbol (decimal_of_int sizing.shares) OrderSide.buy OrderType.market
          TimeInForce.day)
    modify (record_order entry_order)
    filled ← call (client.poll_order entry_order.id)
    modify (
        if is_filled filled.status
        then after_entry symbol sizing tags filled price
        else log (LogLine.not_filled symbol entry_order.id filled.status))

  sized : String → SizingResult F → List String → F → Action (Session F W) (Unit {0})
  unfolding buy
  sized symbol sizing tags price =
      if sizing.skipped
      then modify (log (LogLine.skip_sizing symbol sizing.skip_reason))
      else buy symbol sizing tags price

  -- from the margin check on
  size_and_buy : String → AccountSnapshot → List String → F → Action (Session F W) (Unit {0})
  unfolding sized
  size_and_buy symbol acct tags price =
      let (allowed, lines) = margin_allows_entry {F = F} acct in
      if not allowed then modify (λ s. log (LogLine.skip_margin symbol) (log_all lines s)) else do
        sizing ← lift (
            compute_shares (num.of_decimal acct.equity) (num.of_decimal acct.buying_power) price
              cfg)
        sized symbol sizing tags price

  gated : String → GateResult F → List String → F → Action (Session F W) (Unit {0})
  unfolding size_and_buy
  gated symbol gate tags price =
      if not gate.passed
      then modify (log (LogLine.skip symbol gate.reason))
      else do acct ← call client.get_account; size_and_buy symbol acct tags price

  try_entry : String → Bar → List Bar → Action (Session F W) (Unit {0})
  unfolding gated
  try_entry symbol b bars = do
    macd ← lift (classify_macd (b ∷ bars) ta_cfg)
    let tags = matched_tags (
        run_enabled_patterns {F = F} (b ∷ bars) ta_cfg.enabled_patterns
          ta_cfg.pattern_candle_lookback)
    let price = current_price (last_or b bars)
    gate ← lift (
        check_entry_gate (b ∷ bars) macd tags (score_setup_fn symbol (b ∷ bars))
          ta_cfg.enabled_patterns cfg.conviction_threshold cfg.overextension_pct 3)
    gated symbol gate tags price

  -- one round of the loop; fewer than two candles are too few
  entry_one : String → Bool → List Bar → Action (Session F W) (Unit {0})
  unfolding try_entry
  entry_one symbol true bars = pure tt
  entry_one symbol false [] = pure tt
  entry_one symbol false (b ∷ []) = pure tt
  entry_one symbol false (b ∷ c ∷ bars) = try_entry symbol b (c ∷ bars)

  entry_loop : List String → Dict (List Bar) → Action (Session F W) (Unit {0})
  unfolding entry_one
  entry_loop [] bars = pure tt
  entry_loop (symbol ∷ rest) bars = do
    held ← gets (λ s. contains symbol s.open_trades)
    entry_one symbol held (bars_of symbol bars)
    entry_loop rest bars

  unfoldable pub process_entries : List String → Dict (List Bar) → Action (Session F W) (Unit {0})
  unfolding entry_loop
  process_entries ranked bars = entry_loop (take cfg.active_tickers_n ranked) bars
