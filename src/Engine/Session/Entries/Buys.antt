-- ===== src/Engine/Session/Entries/Buys.antt =====
-- The entries of bot/src/bot/engine/session.py buy nothing but the first candidates.
use quick_stock_bot.Prelude.{
  Bool, true, false, not, All, ◌∙◌, eq_iff, String, List, [], ◌∷◌, ◌≡◌, refl, arith, take, mem,
  if◌then◌else◌,
}
use quick_stock_bot.Prelude.Int.{ℤ, pos, ◌≤ℤ◌}
use quick_stock_bot.Prelude.Dict.{Dict}
use quick_stock_bot.Prelude.Action.{lift}
use quick_stock_bot.Num.{Float, decimal_of_int}
use quick_stock_bot.Models.{AccountSnapshot, Bar, Order, OrderSide, is_filled}
use quick_stock_bot.Engine.Messages.{LogLine}
use quick_stock_bot.Engine.Gate.{GateResult}
use quick_stock_bot.Engine.Sizing.{SizingResult, compute_shares}
use quick_stock_bot.Engine.Sizing.Laws.{compute_shares-IsSized}
use quick_stock_bot.Engine.Session.State.{Session, Setup, log, record_order, put_trade}
use quick_stock_bot.Engine.Session.Requests.{
  Request, Noted, requests, with_notes, Follows, log_quiet, log_all_quiet, record_order_quiet, Asks,
  Asks-bind, Asks-bind_ok, Asks-pure, Asks-lift, Asks-gets, Asks-modify, Asks-if, Asks-account,
  Asks-poll, Asks-submit,
}
use quick_stock_bot.Engine.Session.Entries.{
  after_entry, buy, sized, size_and_buy, gated, try_entry, entry_one, entry_loop, process_entries,
  margin_allows_entry,
}

-- a purchase of at least one whole share of one of the symbols
abbrev pub IsPurchase : List String → Request → Type 0
IsPurchase symbols r =
    (r.side ≡ OrderSide.buy)
    × (mem r.symbol symbols ≡ true)
    × ((n : ℤ) × (pos 1 ≤ℤ n) × (r.qty ≡ decimal_of_int n))

module _ {F W : Type 0} ⦃num : Float F⦄ (env : Setup F W) (symbols : List String) where
  finish_quiet :
      (symbol : String) (sizing : SizingResult F) (tags : List String) (price : F) (id : String)
      (filled : Order) (s : Session F (Noted W))
      → requests (
          (if is_filled filled.status
              then after_entry (with_notes env) symbol sizing tags filled price
              else log (LogLine.not_filled symbol id filled.status))
            s)
        ≡ requests s
  unfolding after_entry put_trade log
  finish_quiet symbol sizing tags price id filled s = ground arith

  buy_buys :
      (symbol : String) (sizing : SizingResult F) (tags : List String) (price : F)
      → mem symbol symbols ≡ true
      → pos 1 ≤ℤ sizing.shares
      → Asks F W (IsPurchase symbols) (buy (with_notes env) symbol sizing tags price)
  unfolding buy
  buy_buys symbol sizing tags price m some_shares =
      Asks-bind _ _ (Asks-submit env.client _ _ _ _ _ (refl, m, (sizing.shares, some_shares, refl)))
        λ order. Asks-bind _ _ (Asks-modify (record_order order) (record_order_quiet order)) λ _.
          Asks-bind _ _ (Asks-poll env.client _)
            λ filled. Asks-modify _ (finish_quiet symbol sizing tags price order.id filled)

  sized_buys :
      (symbol : String) (sizing : SizingResult F) (tags : List String) (price : F)
      → mem symbol symbols ≡ true
      → (sizing.skipped ≡ false → pos 1 ≤ℤ sizing.shares)
      → Asks F W (IsPurchase symbols) (sized (with_notes env) symbol sizing tags price)
  unfolding sized
  sized_buys symbol sizing tags price m some_shares =
      Asks-if sizing.skipped _ _ (λ _. Asks-modify (log _) (log_quiet _))
        (λ taken. buy_buys symbol sizing tags price m (some_shares taken))

  size_and_buy_buys :
      (symbol : String) (acct : AccountSnapshot) (tags : List String) (price : F)
      → mem symbol symbols ≡ true
      → Asks F W (IsPurchase symbols) (size_and_buy (with_notes env) symbol acct tags price)
  unfolding size_and_buy lift
  size_and_buy_buys symbol acct tags price m =
      Asks-if (not (margin_allows_entry {F = F} acct).0) _ _
        (λ _. Asks-modify _ (λ s. log_quiet _ _ ∙ log_all_quiet _ s))
        (λ _. Asks-bind_ok (lift (compute_shares _ _ price env.cfg)) _ (Asks-lift _) λ s sizing e.
          sized_buys symbol sizing tags price m
            (λ taken. (compute_shares-IsSized _ _ price env.cfg e taken).positive))

  gated_buys :
      (symbol : String) (gate : GateResult F) (tags : List String) (price : F)
      → mem symbol symbols ≡ true
      → Asks F W (IsPurchase symbols) (gated (with_notes env) symbol gate tags price)
  unfolding gated
  gated_buys symbol gate tags price m =
      Asks-if (not gate.passed) _ _ (λ _. Asks-modify (log _) (log_quiet _))
        (λ _.
          Asks-bind _ _ (Asks-account env.client)
            λ acct. size_and_buy_buys symbol acct tags price m)

  entry_one_buys :
      (symbol : String) (held : Bool) (bars : List Bar)
      → mem symbol symbols ≡ true
      → Asks F W (IsPurchase symbols) (entry_one (with_notes env) symbol held bars)
  unfolding entry_one try_entry
  entry_one_buys symbol true bars m = Asks-pure tt
  entry_one_buys symbol false [] m = Asks-pure tt
  entry_one_buys symbol false (b ∷ []) m = Asks-pure tt
  entry_one_buys symbol false (b ∷ c ∷ bars) m =
      Asks-bind _ _ (Asks-lift _)
        λ macd. Asks-bind _ _ (Asks-lift _) λ gate. gated_buys symbol gate _ _ m

  entry_loop_buys :
      (rest : List String) (bars : Dict (List Bar))
      → All (λ c. mem c symbols ≡ true) rest
      → Asks F W (IsPurchase symbols) (entry_loop (with_notes env) rest bars)
  unfolding entry_loop
  entry_loop_buys [] bars ms = Asks-pure tt
  entry_loop_buys (symbol ∷ rest) bars (m, ms) =
      Asks-bind _ _ (Asks-gets _)
        λ held. Asks-bind _ _ (entry_one_buys symbol held _ m) λ _. entry_loop_buys rest bars ms

All-mem :
    (whole part : List String)
    → ((c : String) → mem c part ≡ true → mem c whole ≡ true)
    → All (λ c. mem c whole ≡ true) part
All-mem whole [] h = tt
All-mem whole (x ∷ part) h =
    (h x (ground (arith, eq_iff x x)), All-mem whole part (λ c m. h c (ground arith)))

module _ {F W : Type 0} ⦃num : Float F⦄ (env : Setup F W) where
  process_entries-Asks :
      (ranked : List String) (bars : Dict (List Bar))
      → Asks F W
          (IsPurchase (take env.cfg.active_tickers_n ranked))
          (process_entries (with_notes env) ranked bars)
  unfolding process_entries
  process_entries-Asks ranked bars =
      let candidates = take env.cfg.active_tickers_n ranked in
      entry_loop_buys env candidates candidates bars (All-mem candidates candidates (λ c m. m))

  -- Whatever the client answers and also if it raises, the entries of a cycle ask for nothing but
  -- purchases, each of at least one whole share of one of the first ranked candidates.
  pub process_entries_buys :
      (ranked : List String) (bars : Dict (List Bar)) (s : Session F (Noted W))
      → Follows
          (IsPurchase (take env.cfg.active_tickers_n ranked))
          s
          (process_entries (with_notes env) ranked bars s).1
  process_entries_buys ranked bars s = (process_entries-Asks ranked bars).at s
