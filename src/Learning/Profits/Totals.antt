-- ===== src/Learning/Profits/Totals.antt =====
-- bot/src/bot/learning/prior_profit.py: the statistics of a symbol are those of its own trades.
use mathlib.Core.List.{foldl}
use quick_stock_bot.Prelude.{
  ◌+◌, false, String, List, [], ◌∷◌, Option, none, some, ◌==◌, ◌≡◌, ◌∙◌, ap, refl, arith, length,
  filter, if◌then◌else◌, Bool-cases, inl, inr, eq_iff,
}
use quick_stock_bot.Prelude.Dict.{Dict, lookup, lookup-insert}
use quick_stock_bot.Num.{Float, lit, ◌⊕◌, ◌<?◌}
use quick_stock_bot.Learning.Profits.{
  TickerProfitStats, stats_or_empty, add_trade, record_trade, get_stats,
}

module _ {F : Type 0} ⦃num : Float F⦄ where
  -- the profits of one symbol's trades
  abbrev pub pnls_of : String → List (String × F) → List F
  pnls_of symbol [] = []
  pnls_of symbol ((s, pnl) ∷ trades) =
      if s == symbol then pnl ∷ pnls_of symbol trades else pnls_of symbol trades

  abbrev pub record_all :
      List (String × F) → Dict (TickerProfitStats F) → Dict (TickerProfitStats F)
  record_all [] d = d
  record_all ((s, pnl) ∷ trades) d = record_all trades (record_trade s pnl d)

  -- statistics `s` after more profits, and what they should be from none
  after : TickerProfitStats F → List F → TickerProfitStats F
  after s pnls = record {
    symbol = s.symbol;
    cumulative_pnl = foldl ◌⊕◌ s.cumulative_pnl pnls;
    trade_count = s.trade_count + length pnls;
    win_count = s.win_count + length (filter (λ p. lit 0 0 <? p) pnls);
  }

  continue : String → Option (TickerProfitStats F) → List F → Option (TickerProfitStats F)
  unfolding after
  continue symbol o [] = o
  continue symbol o (pnl ∷ pnls) = some (after (stats_or_empty symbol o) (pnl ∷ pnls))

  pub summary : String → List F → Option (TickerProfitStats F)
  summary symbol [] = none
  summary symbol (pnl ∷ pnls) = some (record {
    symbol = symbol;
    cumulative_pnl = foldl ◌⊕◌ (lit 0 0) (pnl ∷ pnls);
    trade_count = length (pnl ∷ pnls);
    win_count = length (filter (λ p. lit 0 0 <? p) (pnl ∷ pnls));
  })

  after-add_trade :
      (s : TickerProfitStats F) (pnl : F) (pnls : List F)
      → after (add_trade pnl s) pnls ≡ after s (pnl ∷ pnls)
  unfolding after
  after-add_trade s pnl pnls = ground arith

  continue-add_trade :
      (symbol : String) (o : Option (TickerProfitStats F)) (pnl : F) (pnls : List F)
      → continue symbol (some (add_trade pnl (stats_or_empty symbol o))) pnls
        ≡ continue symbol o (pnl ∷ pnls)
  unfolding continue
  continue-add_trade symbol o pnl [] = ground arith
  continue-add_trade symbol o pnl (q ∷ pnls) =
      ap some (after-add_trade (stats_or_empty symbol o) pnl (q ∷ pnls))

  lookup-record_trade :
      (symbol : String) (pnl : F) (d : Dict (TickerProfitStats F))
      → lookup symbol (record_trade symbol pnl d)
        ≡ some (add_trade pnl (stats_or_empty symbol (lookup symbol d)))
  unfolding record_trade
  lookup-record_trade symbol pnl d = ground (
    arith,
    lookup-insert symbol symbol (add_trade pnl (stats_or_empty symbol (lookup symbol d))) d,
    eq_iff symbol symbol,
  )

  lookup-record_trade_other :
      (symbol s : String) (pnl : F) (d : Dict (TickerProfitStats F))
      → (s == symbol) ≡ false
      → lookup symbol (record_trade s pnl d) ≡ lookup symbol d
  unfolding record_trade
  lookup-record_trade_other symbol s pnl d other =
      ground (arith, lookup-insert s symbol (add_trade pnl (stats_or_empty s (lookup s d))) d)

  record_all-continue :
      (symbol : String) (trades : List (String × F)) (d : Dict (TickerProfitStats F))
      → lookup symbol (record_all trades d)
        ≡ continue symbol (lookup symbol d) (pnls_of symbol trades)
  unfolding continue
  record_all-continue symbol [] d = refl
  record_all-continue symbol ((s, pnl) ∷ trades) d = elim (Bool-cases (s == symbol)) [
    | inl same ↦ rw same (
        rw ((eq_iff s symbol).0 same) (
          record_all-continue symbol trades (record_trade symbol pnl d)
          ∙ ap (λ o. continue symbol o (pnls_of symbol trades)) (lookup-record_trade symbol pnl d)
          ∙ continue-add_trade symbol (lookup symbol d) pnl (pnls_of symbol trades)))
    | inr other ↦ rw other (
        record_all-continue symbol trades (record_trade s pnl d)
        ∙ ap (λ o. continue symbol o (pnls_of symbol trades))
            (lookup-record_trade_other symbol s pnl d other))
  ]

  continue-summary :
      (symbol : String) (pnls : List F) → continue symbol none pnls ≡ summary symbol pnls
  unfolding continue after summary
  continue-summary symbol [] = refl
  continue-summary symbol (pnl ∷ pnls) = ground arith

  -- After any sequence of trades, recorded from an empty tracker, the statistics of a symbol are the
  -- sum, the number and the number of the profitable ones of its own trades, and there are none if
  -- it had no trade.
  pub record_all-summary :
      (trades : List (String × F)) (symbol : String)
      → get_stats symbol (record_all trades []) ≡ summary symbol (pnls_of symbol trades)
  record_all-summary trades symbol =
      record_all-continue symbol trades [] ∙ continue-summary symbol (pnls_of symbol trades)
