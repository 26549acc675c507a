-- ===== src/Learning/Profits.antt =====
-- bot/src/bot/learning/prior_profit.py and labeling.py.
pub mod Totals
use quick_stock_bot.Prelude.{
  ℕ, suc, Bool, String, List, Option, none, some, nat_eq, if◌then◌else◌, ◌∷◌, [],
}
use quick_stock_bot.Prelude.Int.{pos}
use quick_stock_bot.Prelude.Dict.{Dict, lookup, insert, values}
use quick_stock_bot.Num.{Float, lit, ◌⊕◌, ◌⊘◌, ◌<?◌}

pub record TickerProfitStats (F : Type 0) : Type 0 where
  pub symbol : String
  pub cumulative_pnl : F
  pub trade_count : ℕ
  pub win_count : ℕ

module _ {F : Type 0} ⦃num : Float F⦄ where
  unfoldable pub label_from_pnl : F → ℕ
  label_from_pnl net_pnl = if lit 0 0 <? net_pnl then 1 else 0

  unfoldable pub trade_label_str : F → String
  trade_label_str net_pnl = if lit 0 0 <? net_pnl then "good" else "bad"

  unfoldable pub win_rate : TickerProfitStats F → F
  win_rate s =
      if nat_eq s.trade_count 0
      then lit 0 0
      else num.of_int (pos s.win_count) ⊘ num.of_int (pos s.trade_count)

  abbrev pub empty_stats : String → TickerProfitStats F
  empty_stats symbol = record {
    symbol = symbol;
    cumulative_pnl = lit 0 0;
    trade_count = 0;
    win_count = 0;
  }

  -- `self._stats[symbol]`, added first if it is missing
  abbrev stats_or_empty : String → Option (TickerProfitStats F) → TickerProfitStats F
  stats_or_empty symbol none = empty_stats symbol
  stats_or_empty symbol (some s) = s

  abbrev add_trade : F → TickerProfitStats F → TickerProfitStats F
  add_trade net_pnl s = record s {
    cumulative_pnl = s.cumulative_pnl ⊕ net_pnl;
    trade_count = suc s.trade_count;
    win_count = if lit 0 0 <? net_pnl then suc s.win_count else s.win_count;
  }

  -- the tracker after a trade; the code returns the entry of the symbol
  unfoldable pub record_trade : String → F → Dict (TickerProfitStats F) → Dict (TickerProfitStats F)
  record_trade symbol net_pnl stats =
      insert symbol (add_trade net_pnl (stats_or_empty symbol (lookup symbol stats))) stats

  abbrev pub get_stats : String → Dict (TickerProfitStats F) → Option (TickerProfitStats F)
  get_stats = lookup

  unfoldable pub all_stats : Dict (TickerProfitStats F) → List (TickerProfitStats F)
  all_stats = values

  unfoldable pub prior_profit : Dict (TickerProfitStats F) → String → Option F
  prior_profit stats symbol = elim (lookup symbol stats) [
    | none ↦ none
    | some s ↦ some s.cumulative_pnl
  ]
