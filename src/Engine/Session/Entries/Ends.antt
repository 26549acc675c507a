-- ===== src/Engine/Session/Entries/Ends.antt =====
-- bot/src/bot/engine/session.py, `_process_entries`: with a broker that answers it returns.
use quick_stock_bot.Prelude.{
  Bool, true, false, not, String, List, [], ◌∷◌, none, some, ok, Returns, refl, ◌≡◌, All,
  if◌then◌else◌, take, last_or,
}
use quick_stock_bot.Prelude.Dict.{Dict, Each, Each-lookup, lookup}
use quick_stock_bot.Prelude.Succeeds.{
  Succeeds, Succeeds-pure, Succeeds-gets, Succeeds-lift, Succeeds-modify, Succeeds-if,
  Succeeds-bind, bind_run,
}
use quick_stock_bot.Num.{Float, lit}
use quick_stock_bot.Models.{AccountSnapshot, Bar, Order, is_filled}
use quick_stock_bot.Ta.Macd.Answers.{IsPeriods}
use quick_stock_bot.Ta.State.{MacdState}
use quick_stock_bot.Ta.Helpers.{current_price}
use quick_stock_bot.Engine.Messages.{LogLine}
use quick_stock_bot.Engine.Gate.{GateResult, check_entry_gate}
use quick_stock_bot.Engine.Gate.Laws.{check_entry_gate-Verdict}
use quick_stock_bot.Engine.Sizing.{SizingResult}
use quick_stock_bot.Engine.Sizing.Laws.{IsSizable, compute_shares-Returns}
use quick_stock_bot.Engine.Session.State.{
  Session, Setup, call, bars_of, log, log_all, put_trade, record_order,
}
use quick_stock_bot.Engine.Session.Exits.Choice.{classify_macd-Returns}
use quick_stock_bot.Engine.Session.Exits.Flat.{
  IsResponsive, IsStable, Unlimited, Every-Unlimited, Succeeds-call,
}
use quick_stock_bot.Engine.Session.Entries.{
  margin_allows_entry, after_entry, buy, sized, size_and_buy, gated, try_entry, entry_one,
  entry_loop, process_entries,
}

-- A price at which an entry raises nothing: it is not zero, and the broker reports an account with which
-- the floors that sizing takes are of finite numbers.
pub record IsPrice {F W : Type 0} ⦃num : Float F⦄ (env : Setup F W) (price : F) : Type 0 where
  pub nonzero : num.eq price (lit 0 0) ≡ false
  pub account :
      (w : W)
      → (a : AccountSnapshot) × (w' : W) × (env.client.get_account w ≡ (ok a, w'))
        × IsSizable (num.of_decimal a.equity) (num.of_decimal a.buying_power) price env.cfg

-- a candle that closes at such a price
abbrev pub IsPriced : {F W : Type 0} ⦃num : Float F⦄ → Setup F W → Bar → Type 0
IsPriced {F} {W} ⦃num⦄ env b = IsPrice env (num.of_decimal b.close)

last_or-All : (P : Bar → Type 0) (b : Bar) (bars : List Bar) → All P (b ∷ bars) → P (last_or b bars)
last_or-All P b [] (h, _) = h
last_or-All P b (c ∷ bars) (_, h) = last_or-All P c bars h

bars_of-All :
    (P : Bar → Type 0) (symbol : String) (bars : Dict (List Bar))
    → Each (λ _ bs. All P bs) bars
    → All P (bars_of symbol bars)
bars_of-All P symbol bars h =
    elim (lookup symbol bars)
        as (λ o.
          ((bs : List Bar) → o ≡ some bs → All P bs)
          → All P (elim o [ none ↦ [] | some bs ↦ bs ])) [
            | none ↦ λ _. tt
            | some bs ↦ λ found. found bs refl
          ]
      (λ bs e. Each-lookup (λ _ bs. All P bs) symbol bs bars e h)

module _ {F : Type 0} ⦃num : Float F⦄ where
  gate-Returns :
      (bars : List Bar) (macd : MacdState F) (tags : List String) (score : F)
      (enabled : List String) (threshold overextension : F)
      → Returns (check_entry_gate bars macd tags score enabled threshold overextension 3)
  gate-Returns bars macd tags score enabled threshold overextension =
      rw (check_entry_gate-Verdict bars macd tags score enabled threshold overextension 3).gate_eq
        tt

module _ {F W : Type 0} ⦃num : Float F⦄ (env : Setup F W) (responsive : IsResponsive env.client)
    (periods : IsPeriods env.ta_cfg) {P : Session F W → Type 0}
    (stable : IsStable Unlimited P) where
  finish_keeps :
      (symbol : String) (sizing : SizingResult F) (tags : List String) (price : F) (id : String)
      (filled : Order) (s : Session F W)
      → P s
      → P (
          (if is_filled filled.status
              then after_entry env symbol sizing tags filled price
              else log (LogLine.not_filled symbol id filled.status))
            s)
  unfolding after_entry log put_trade
  finish_keeps symbol sizing tags price id filled s p =
      elim (is_filled filled.status)
        as (λ b. P (
          (if b
              then after_entry env symbol sizing tags filled price
              else log (LogLine.not_filled symbol id filled.status))
            s)) [
              | true ↦ stable.on_result _ _ (stable.on_trades s _ p (Every-Unlimited _))
              | false ↦ stable.on_result s _ p
            ]

  buy-Succeeds :
      (symbol : String) (sizing : SizingResult F) (tags : List String) (price : F)
      → Succeeds P P (buy env symbol sizing tags price)
  unfolding buy record_order
  buy-Succeeds symbol sizing tags price =
      Succeeds-bind _ _ (Succeeds-call stable _ (responsive.submits _ _ _ _ _)) λ order.
        Succeeds-bind _ _ (Succeeds-modify _ λ s p. stable.on_result s _ p) λ _.
          Succeeds-bind _ _ (Succeeds-call stable _ (responsive.polls _))
            λ filled. Succeeds-modify _ λ s p. finish_keeps symbol sizing tags price _ filled s p

  log_keeps : (line : LogLine F) (s : Session F W) → P s → P (log line s)
  unfolding log
  log_keeps line s p = stable.on_result s _ p

  log_all_keeps : (lines : List (LogLine F)) (s : Session F W) → P s → P (log_all lines s)
  unfolding log_all
  log_all_keeps lines s p = stable.on_result s _ p

  sized-Succeeds :
      (symbol : String) (sizing : SizingResult F) (tags : List String) (price : F)
      → Succeeds P P (sized env symbol sizing tags price)
  unfolding sized
  sized-Succeeds symbol sizing tags price =
      Succeeds-if sizing.skipped _ _ (Succeeds-modify _ (log_keeps _))
        (buy-Succeeds symbol sizing tags price)

  size_and_buy-Succeeds :
      (symbol : String) (acct : AccountSnapshot) (tags : List String) (price : F)
      → num.eq price (lit 0 0) ≡ false
      → IsSizable (num.of_decimal acct.equity) (num.of_decimal acct.buying_power) price env.cfg
      → Succeeds P P (size_and_buy env symbol acct tags price)
  unfolding size_and_buy
  size_and_buy-Succeeds symbol acct tags price nonzero sizable =
      Succeeds-if (not (margin_allows_entry {F = F} acct).0) _ _
        (Succeeds-modify _ λ s p. log_keeps _ _ (log_all_keeps _ s p))
        (Succeeds-bind _ _
          (Succeeds-lift _ (compute_shares-Returns _ _ price env.cfg sizable nonzero))
          λ sizing. sized-Succeeds symbol sizing tags price)

  gated-Succeeds :
      (symbol : String) (gate : GateResult F) (tags : List String) (price : F)
      → IsPrice env price
      → Succeeds P P (gated env symbol gate tags price)
  unfolding gated call
  gated-Succeeds symbol gate tags price priced =
      Succeeds-if (not gate.passed) _ _ (Succeeds-modify _ (log_keeps _)) (record {
        run = λ s p.
            let (acct, w', e, sizable) = priced.account s.world in
            let (u, t, run_eq, q) =
              (size_and_buy-Succeeds symbol acct tags price priced.nonzero sizable).run
                (record s { world = w' }) (stable.on_world s w' p) in
            (u, t, bind_run (call env.client.get_account) _ (rw e refl) run_eq, q);
      })

  try_entry-Succeeds :
      (symbol : String) (b : Bar) (bars : List Bar)
      → All (IsPriced env) (b ∷ bars)
      → Succeeds P P (try_entry env symbol b bars)
  unfolding try_entry current_price
  try_entry-Succeeds symbol b bars priced =
      Succeeds-bind _ _ (Succeeds-lift _ (classify_macd-Returns F (b ∷ bars) env.ta_cfg periods))
        λ macd.
          Succeeds-bind _ _ (Succeeds-lift _ (gate-Returns (b ∷ bars) macd _ _ _ _ _))
            λ gate. gated-Succeeds symbol gate _ _ (last_or-All (IsPriced env) b bars priced)

  entry_one-Succeeds :
      (symbol : String) (held : Bool) (bars : List Bar)
      → All (IsPriced env) bars
      → Succeeds P P (entry_one env symbol held bars)
  unfolding entry_one
  entry_one-Succeeds symbol true bars priced = Succeeds-pure tt
  entry_one-Succeeds symbol false [] priced = Succeeds-pure tt
  entry_one-Succeeds symbol false (b ∷ []) priced = Succeeds-pure tt
  entry_one-Succeeds symbol false (b ∷ c ∷ bars) priced =
      try_entry-Succeeds symbol b (c ∷ bars) priced

  entry_loop-Succeeds :
      (names : List String) (bars : Dict (List Bar))
      → Each (λ _ bs. All (IsPriced env) bs) bars
      → Succeeds P P (entry_loop env names bars)
  unfolding entry_loop
  entry_loop-Succeeds [] bars priced = Succeeds-pure tt
  entry_loop-Succeeds (symbol ∷ rest) bars priced = Succeeds-bind _ _ (Succeeds-gets _) λ held.
      Succeeds-bind _ _
        (entry_one-Succeeds symbol held _ (bars_of-All (IsPriced env) symbol bars priced))
        λ _. entry_loop-Succeeds rest bars priced

  pub process_entries-Succeeds :
      (ranked : List String) (bars : Dict (List Bar))
      → Each (λ _ bs. All (IsPriced env) bs) bars
      → Succeeds P P (process_entries env ranked bars)
  unfolding process_entries
  process_entries-Succeeds ranked bars priced =
      entry_loop-Succeeds (take env.cfg.active_tickers_n ranked) bars priced
