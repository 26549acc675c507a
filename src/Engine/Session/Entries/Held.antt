-- ===== src/Engine/Session/Entries/Held.antt =====
-- A new position of bot/src/bot/engine/session.py holds just what was bought.
use quick_stock_bot.Prelude.{
  Bool, true, false, not, String, List, [], ◌∷◌, ◌≡◌, arith, if◌then◌else◌, take,
}
use quick_stock_bot.Prelude.Int.{pos, ◌≤ℤ◌}
use quick_stock_bot.Prelude.Dict.{Dict}
use quick_stock_bot.Prelude.Action.{lift}
use quick_stock_bot.Prelude.Keeps.{
  Keeps, Keeps-pure, Keeps-lift, Keeps-modify, Keeps-if, Keeps-bind, Keeps-bind_ok, Keeps-read,
}
use quick_stock_bot.Num.{Float}
use quick_stock_bot.Models.{AccountSnapshot, Bar, Order, is_filled}
use quick_stock_bot.Engine.Messages.{LogLine}
use quick_stock_bot.Engine.Gate.{GateResult}
use quick_stock_bot.Engine.Sizing.{SizingResult, compute_shares}
use quick_stock_bot.Engine.Sizing.Laws.{compute_shares-IsSized}
use quick_stock_bot.Engine.Session.State.{Session, Setup, log, record_order}
use quick_stock_bot.Engine.Session.Positions.{
  IsHeld, IsTracked, put_trade-IsTracked, log-IsTracked, log_all-IsTracked, record_order-IsTracked,
  call-IsTracked,
}
use quick_stock_bot.Engine.Session.Entries.{
  new_trade, after_entry, buy, sized, size_and_buy, gated, try_entry, entry_one, entry_loop,
  process_entries, margin_allows_entry,
}

module _ {F : Type 0} ⦃num : Float F⦄ where
  new_trade-IsHeld :
      (symbol : String) (sizing : SizingResult F) (tags : List String) (filled : Order) (price : F)
      → pos 1 ≤ℤ sizing.shares
      → IsHeld symbol (new_trade symbol sizing tags filled price)
  unfolding new_trade
  new_trade-IsHeld symbol sizing tags filled price h = ground arith

module _ {F W : Type 0} ⦃num : Float F⦄ (env : Setup F W) where
  finish-IsTracked :
      (symbol : String) (sizing : SizingResult F) (tags : List String) (price : F) (id : String)
      (filled : Order)
      → pos 1 ≤ℤ sizing.shares
      → (s : Session F W) → IsTracked s
      → IsTracked (
          (if is_filled filled.status
              then after_entry env symbol sizing tags filled price
              else log (LogLine.not_filled symbol id filled.status))
            s)
  unfolding after_entry log
  finish-IsTracked symbol sizing tags price id filled n s h =
      let put =
        put_trade-IsTracked symbol _ (new_trade-IsHeld symbol sizing tags filled price n) s h in
      elim (is_filled filled.status)
        as (λ b. IsTracked (
          (if b
              then after_entry env symbol sizing tags filled price
              else log (LogLine.not_filled symbol id filled.status))
            s)) [ true ↦ put | false ↦ h ]

  buy-IsTracked :
      (symbol : String) (sizing : SizingResult F) (tags : List String) (price : F)
      → pos 1 ≤ℤ sizing.shares
      → Keeps IsTracked (buy env symbol sizing tags price)
  unfolding buy
  buy-IsTracked symbol sizing tags price n = Keeps-bind _ _ (call-IsTracked _) λ order.
      Keeps-bind _ _ (Keeps-modify (record_order order) (record_order-IsTracked order)) λ _.
        Keeps-bind _ _ (call-IsTracked _)
          λ filled. Keeps-modify _ (finish-IsTracked symbol sizing tags price order.id filled n)

  sized-IsTracked :
      (symbol : String) (sizing : SizingResult F) (tags : List String) (price : F)
      → (sizing.skipped ≡ false → pos 1 ≤ℤ sizing.shares)
      → Keeps IsTracked (sized env symbol sizing tags price)
  unfolding sized
  sized-IsTracked symbol sizing tags price n =
      Keeps-if sizing.skipped _ _ (λ _. Keeps-modify (log _) (log-IsTracked _))
        (λ taken. buy-IsTracked symbol sizing tags price (n taken))

  size_and_buy-IsTracked :
      (symbol : String) (acct : AccountSnapshot) (tags : List String) (price : F)
      → Keeps IsTracked (size_and_buy env symbol acct tags price)
  unfolding size_and_buy lift
  size_and_buy-IsTracked symbol acct tags price =
      Keeps-if (not (margin_allows_entry {F = F} acct).0) _ _
        (λ _. Keeps-modify _ (λ s h. log-IsTracked _ _ (log_all-IsTracked _ s h)))
        (λ _.
          Keeps-bind_ok (lift (compute_shares _ _ price env.cfg)) _ (Keeps-lift _) λ s sizing h e.
            sized-IsTracked symbol sizing tags price
              (λ taken. (compute_shares-IsSized _ _ price env.cfg e taken).positive))

  gated-IsTracked :
      (symbol : String) (gate : GateResult F) (tags : List String) (price : F)
      → Keeps IsTracked (gated env symbol gate tags price)
  unfolding gated
  gated-IsTracked symbol gate tags price =
      Keeps-if (not gate.passed) _ _ (λ _. Keeps-modify (log _) (log-IsTracked _))
        (λ _.
          Keeps-bind _ _ (call-IsTracked _) λ acct. size_and_buy-IsTracked symbol acct tags price)

  entry_one-IsTracked :
      (symbol : String) (held : Bool) (bars : List Bar)
      → Keeps IsTracked (entry_one env symbol held bars)
  unfolding entry_one try_entry
  entry_one-IsTracked symbol true bars = Keeps-pure tt
  entry_one-IsTracked symbol false [] = Keeps-pure tt
  entry_one-IsTracked symbol false (b ∷ []) = Keeps-pure tt
  entry_one-IsTracked symbol false (b ∷ c ∷ bars) =
      Keeps-bind _ _ (Keeps-lift _)
        λ macd. Keeps-bind _ _ (Keeps-lift _) λ gate. gated-IsTracked symbol gate _ _

  entry_loop-IsTracked :
      (rest : List String) (bars : Dict (List Bar)) → Keeps IsTracked (entry_loop env rest bars)
  unfolding entry_loop
  entry_loop-IsTracked [] bars = Keeps-pure tt
  entry_loop-IsTracked (symbol ∷ rest) bars =
      Keeps-read _ _
        λ s h. Keeps-bind _ _ (entry_one-IsTracked symbol _ _) λ _. entry_loop-IsTracked rest bars

  -- The entries of a cycle keep every position between none and all of its shares.
  pub process_entries-IsTracked :
      (ranked : List String) (bars : Dict (List Bar))
      → Keeps IsTracked (process_entries env ranked bars)
  unfolding process_entries
  process_entries-IsTracked ranked bars =
      entry_loop-IsTracked (take env.cfg.active_tickers_n ranked) bars
