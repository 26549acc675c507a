-- ===== src/Scanner/Active.antt =====
-- bot/src/bot/scanner/scanner.py: `build_active_set`.
pub mod Selection
use quick_stock_bot.Prelude.{
  Bool, String, List, [], ◌∷◌, ◌++◌, Option, none, some, filter, map, mem, take, if◌then◌else◌,
}
use quick_stock_bot.Num.{Float, ◌<?◌}
use quick_stock_bot.Scanner.Config.{ScannerConfig}
use quick_stock_bot.Scanner.State.{TickerState}

module _ {F : Type 0} ⦃num : Float F⦄ where
  -- `sorted(..., key=pct_change, reverse=True)` keeps the order of equals.
  pub insert_ranked : TickerState F → List (TickerState F) → List (TickerState F)
  insert_ranked s [] = s ∷ []
  insert_ranked s (t ∷ ts) =
      if s.pct_change <? t.pct_change then t ∷ insert_ranked s ts else s ∷ t ∷ ts

  pub rank : List (TickerState F) → List (TickerState F)
  unfolding insert_ranked
  rank [] = []
  rank (s ∷ ss) = insert_ranked s (rank ss)

  unfoldable pub some_or : List (TickerState F) → List (TickerState F) → List (TickerState F)
  some_or [] other = other
  some_or (s ∷ ss) other = s ∷ ss

  unfoldable pub among : List String → List (TickerState F) → List (TickerState F)
  unfolding some_or
  among [] tradable = tradable
  among (m ∷ movers) tradable = some_or (filter (λ c. mem c.symbol (m ∷ movers)) tradable) tradable

  -- the candidates that compete for the slots
  unfoldable pub eligible : Option (List String) → List (TickerState F) → List (TickerState F)
  unfolding among
  eligible none candidates = filter (λ c. c.tradable) candidates
  eligible (some movers) candidates = among movers (filter (λ c. c.tradable) candidates)

  pub symbols_of : List (TickerState F) → List String
  symbols_of ss = map (λ s. s.symbol) ss

pub add_whitelist : List String → List String → List String
add_whitelist [] top = top
add_whitelist (sym ∷ whitelist) top =
    add_whitelist whitelist (if mem sym top then top else top ++ (sym ∷ []))

module _ {F : Type 0} ⦃num : Float F⦄ where
  unfoldable pub build_active_set :
      List (TickerState F) → ScannerConfig F → Option (List String) → List String
  unfolding rank eligible symbols_of add_whitelist
  build_active_set candidates config movers =
      add_whitelist config.whitelist_symbols
        (symbols_of (take config.active_tickers_n (rank (eligible movers candidates))))
