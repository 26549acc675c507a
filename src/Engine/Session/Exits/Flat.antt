-- ===== src/Engine/Session/Exits/Flat.antt =====
-- bot/src/bot/engine/session.py, the exits: with a broker that answers they return, and nothing is
-- open after `_flatten_all`.
use quick_stock_bot.Prelude.{
  false, Bool-cases, inl, inr, arith, String, List, [], ◌∷◌, Option, none, some, Result, ok, ◌≡◌,
  refl,
}
use quick_stock_bot.Prelude.Dict.{Dict, Each, Each-insert, Each-lookup, lookup}
use quick_stock_bot.Prelude.Int.{ℤ, pos, ◌≤ℤ◌, ◌-ℤ◌, ltb_ℤ, leb_ℤ, min_ℤ}
use quick_stock_bot.Prelude.Succeeds.{
  Succeeds, Succeeds-pure, Succeeds-gets, Succeeds-modify, Succeeds-if, Succeeds-bind,
  Succeeds-read,
}
use quick_stock_bot.Num.{Decimal, Float}
use quick_stock_bot.Models.{Order, OrderSide, OrderType, TimeInForce}
use quick_stock_bot.Alpaca.Client.{MarketClient}
use quick_stock_bot.Engine.Messages.{Reason, LogLine}
use quick_stock_bot.Engine.Exits.{ExitSignal}
use quick_stock_bot.Engine.Session.State.{
  Session, SessionResult, Setup, TradeRecord, call, log, put_trade, record_order,
}
use quick_stock_bot.Engine.Session.Exits.{
  sold, after_sale, execute_exit, flatten_one, flatten_loop, flatten_all,
}

-- A client whose orders are always accepted and whose polls always end in an answer.
pub record IsResponsive {W : Type 0} (client : MarketClient W) : Type 0 where
  pub submits :
      (symbol : String) (qty : Decimal) (side : OrderSide) (kind : OrderType) (tif : TimeInForce)
      (w : W)
      → (o : Order) × (w' : W) × (client.submit_order symbol qty side kind tif w ≡ (ok o, w'))
  pub polls : (id : String) (w : W) → (o : Order) × (w' : W) × (client.poll_order id w ≡ (ok o, w'))

-- no position is open
abbrev pub IsFlat : {F W : Type 0} → Session F W → Type 0
IsFlat s = s.open_trades ≡ []

-- every trade has a number of shares left of which `R` holds
abbrev pub Every : {F : Type 0} → (ℤ → Type 0) → Dict (TradeRecord F) → Type 0
Every R d = Each (λ _ t. R t.position.remaining_shares) d

abbrev pub Unlimited : ℤ → Type 0
Unlimited n = Unit

-- What the client's calls and the log leave alone, and changes of the trades too as long as `R` holds
-- of the shares left in each. `R` holds of fewer shares when it holds of more.
pub record IsStable {F W : Type 0} (R : ℤ → Type 0) (P : Session F W → Type 0) : Type 0 where
  pub on_world : (s : Session F W) (w : W) → P s → P (record s { world = w })
  pub on_result : (s : Session F W) (r : SessionResult F) → P s → P (record s { result = r })
  pub on_trades :
      (s : Session F W) (d : Dict (TradeRecord F))
      → P s
      → Every R d
      → P (record s { open_trades = d })
  pub trades : (s : Session F W) → P s → Every R s.open_trades
  pub fewer : (n k : ℤ) → pos 1 ≤ℤ k → k ≤ℤ n → R n → R (n -ℤ k)

pub Every-Unlimited : {F : Type 0} (d : Dict (TradeRecord F)) → Every Unlimited d
Every-Unlimited [] = tt
Every-Unlimited (entry ∷ d) = (tt, Every-Unlimited d)

module _ {F W A : Type 0} {R : ℤ → Type 0} {P : Session F W → Type 0} (stable : IsStable R P) where
  pub Succeeds-call :
      (f : W → Result A × W)
      → ((w : W) → (a : A) × (w' : W) × (f w ≡ (ok a, w')))
      → Succeeds P P (call f)
  unfolding call
  Succeeds-call f h = record {
    run = λ s p.
        let (a, w', f_eq) = h s.world in
        (a, record s { world = w' }, rw f_eq refl, stable.on_world s w' p);
  }

module _ {F W : Type 0} ⦃num : Float F⦄ (env : Setup F W) (responsive : IsResponsive env.client)
    {R : ℤ → Type 0} {P : Session F W → Type 0} (stable : IsStable R P) where
  after_sale_keeps :
      (key : String) (trade : TradeRecord F) (signal : ExitSignal F) (qty : ℤ) (filled : Order)
      (price : F)
      → leb_ℤ (min_ℤ qty trade.position.remaining_shares) (pos 0) ≡ false
      → R trade.position.remaining_shares
      → (s : Session F W) → P s
      → P (
          after_sale env key trade signal
            (min_ℤ qty trade.position.remaining_shares)
            filled
            price
            s)
  unfolding after_sale log put_trade sold
  after_sale_keeps key trade signal qty filled price some_shares held s p = stable.on_result _ _ (
      stable.on_trades s _ p (
        Each-insert (λ _ t. R t.position.remaining_shares) key _ s.open_trades
          (stable.fewer _ _ (ground arith) (ground arith) held) (stable.trades s p)))

  pub execute_exit-Succeeds :
      (key : String) (trade : TradeRecord F) (signal : ExitSignal F) (price : F)
      → R trade.position.remaining_shares
      → Succeeds P P (execute_exit env key trade signal price)
  unfolding execute_exit record_order
  execute_exit-Succeeds key trade signal price held =
      elim (Bool-cases
        (leb_ℤ (min_ℤ signal.shares_to_sell trade.position.remaining_shares) (pos 0))) [
          | inl nothing ↦ rw nothing (Succeeds-pure tt)
          | inr some_shares ↦ rw some_shares (
              Succeeds-bind _ _ (Succeeds-call stable _ (responsive.submits _ _ _ _ _)) λ order.
                Succeeds-bind _ _ (Succeeds-modify _ λ s p. stable.on_result s _ p) λ _.
                  Succeeds-bind _ _ (Succeeds-call stable _ (responsive.polls _)) λ filled.
                    Succeeds-modify _ (
                      after_sale_keeps key trade signal signal.shares_to_sell filled price
                        some_shares held))
        ]

  pub shares_of :
      (key : String) (s : Session F W)
      → P s
      → (t : TradeRecord F) → lookup key s.open_trades ≡ some t
      → R t.position.remaining_shares
  shares_of key s p t e =
      Each-lookup (λ _ t. R t.position.remaining_shares) key t s.open_trades e (stable.trades s p)

  flatten_one-Succeeds :
      (key : String) (trade : Option (TradeRecord F)) (reason : Reason F)
      → ((t : TradeRecord F) → trade ≡ some t → R t.position.remaining_shares)
      → Succeeds P P (flatten_one env key trade reason)
  unfolding flatten_one
  flatten_one-Succeeds key none reason held = Succeeds-pure tt
  flatten_one-Succeeds key (some trade) reason held =
      Succeeds-if (ltb_ℤ (pos 0) trade.position.remaining_shares) _ _
        (execute_exit-Succeeds key trade _ _ (held trade refl)) (Succeeds-pure tt)

  flatten_loop-Succeeds :
      (names : List String) (reason : Reason F) → Succeeds P P (flatten_loop env names reason)
  unfolding flatten_loop
  flatten_loop-Succeeds [] reason = Succeeds-pure tt
  flatten_loop-Succeeds (key ∷ rest) reason = Succeeds-read _ _ λ s p.
      Succeeds-bind _ _ (flatten_one-Succeeds key _ reason (shares_of key s p))
        λ _. flatten_loop-Succeeds rest reason

  pub flatten_all-Succeeds :
      (reason : Reason F) → Succeeds P (λ t. P t × IsFlat t) (flatten_all env reason)
  unfolding flatten_all log
  flatten_all-Succeeds reason = Succeeds-bind _ _ (Succeeds-gets _) λ names.
      Succeeds-bind _ _ (flatten_loop-Succeeds names reason) λ _.
        Succeeds-modify (λ s. log (LogLine.flattened reason) (record s { open_trades = [] }))
          (λ s p. (stable.on_result _ _ (stable.on_trades s [] p tt), refl))
