-- ===== src/Engine/Session/Exits/Sold.antt =====
-- bot/src/bot/engine/session.py, `_flatten_all`: what the client is asked to sell.
use quick_stock_bot.Prelude.{
  true, false, String, List, [], ◌∷◌, ◌++◌, some, ok, ◌≡◌, refl, ap, sym, ◌∙◌, inl, inr, arith,
  append-nil, append_assoc, Bool-cases, if◌then◌else◌, eq_iff,
}
use quick_stock_bot.Prelude.Dict.{Dict, Each, lookup, contains, insert, keys, lookup-insert}
use quick_stock_bot.Prelude.Int.{ℤ, pos, ltb_ℤ, leb_ℤ, min_ℤ}
use quick_stock_bot.Prelude.Action.{gets, modify, ◌>>=◌}
use quick_stock_bot.Prelude.Succeeds.{
  Succeeds, Succeeds-pure, Succeeds-modify, Succeeds-bind, Succeeds-read, Succeeds-from, bind_run,
}
use quick_stock_bot.Num.{Decimal, Float, decimal_of_int}
use quick_stock_bot.Models.{OrderSide, OrderType, TimeInForce}
use quick_stock_bot.Engine.Messages.{Reason, LogLine}
use quick_stock_bot.Engine.Exits.{dump_exit}
use quick_stock_bot.Engine.Session.State.{
  Session, Setup, TradeRecord, call, log, put_trade, record_order,
}
use quick_stock_bot.Engine.Session.Requests.{Request, Noted, with_notes, requests}
use quick_stock_bot.Engine.Session.Exits.{
  after_sale, execute_exit, flatten_one, flatten_loop, flatten_all,
}
use quick_stock_bot.Engine.Session.Exits.Flat.{IsResponsive, IsFlat}

-- no key twice, as in every Python dict
abbrev pub IsKeyed : {V : Type 0} → Dict V → Type 0
IsKeyed [] = Unit
IsKeyed ((key, _) ∷ d) = (contains key d ≡ false) × IsKeyed d

abbrev pub sale : String → ℤ → Request
sale symbol qty = record { symbol = symbol; qty = decimal_of_int qty; side = OrderSide.sell }

-- one sale of all its shares for each trade that has shares left
abbrev pub sales : {F : Type 0} → Dict (TradeRecord F) → List Request
sales [] = []
sales ((key, trade) ∷ trades) =
    if ltb_ℤ (pos 0) trade.position.remaining_shares
    then sale trade.position.symbol trade.position.remaining_shares ∷ sales trades
    else sales trades

-- the entries of `d` stand in `whole`
abbrev Within : {V : Type 0} → Dict V → Dict V → Type 0
Within whole d = Each (λ k v. lookup k whole ≡ some v) d

module _ {V : Type 0} where
  Within-insert :
      (key : String) (v : V) (whole d : Dict V)
      → contains key d ≡ false
      → Within whole d
      → Within (insert key v whole) d
  Within-insert key v whole [] new h = tt
  Within-insert key v whole ((k, w) ∷ d) new (first, rest) = (
    ground (arith, lookup-insert key k v whole, eq_iff key k, eq_iff k key, new, first),
    Within-insert key v whole d (ground (arith, new)) rest,
  )

  Within-cons :
      (key : String) (v : V) (whole d : Dict V)
      → contains key d ≡ false
      → Within whole d
      → Within ((key, v) ∷ whole) d
  Within-cons key v whole [] new h = tt
  Within-cons key v whole ((k, w) ∷ d) new (first, rest) = (
    ground (arith, eq_iff key k, eq_iff k key, new, first),
    Within-cons key v whole d (ground (arith, new)) rest,
  )

  Within-self : (d : Dict V) → IsKeyed d → Within d d
  Within-self [] h = tt
  Within-self ((key, v) ∷ d) (new, h) =
      (ground (arith, eq_iff key key), Within-cons key v d d new (Within-self d h))

-- the requests so far are `rs`, and the trades of `d` are still as they were
abbrev Left : {F W : Type 0} → List Request → Dict (TradeRecord F) → Session F (Noted W) → Type 0
Left rs d s = (requests s ≡ rs) × Within s.open_trades d

module _ {F W : Type 0} ⦃num : Float F⦄ (env : Setup F W)
    (responsive : IsResponsive env.client) where
  submit-Left :
      (rs : List Request) (d : Dict (TradeRecord F)) (symbol : String) (qty : Decimal)
      (side : OrderSide) (kind : OrderType) (tif : TimeInForce)
      → Succeeds
          (Left {W = W} rs d)
          (Left (rs ++ (record { symbol = symbol; qty = qty; side = side } ∷ [])) d)
          (call ((with_notes env).client.submit_order symbol qty side kind tif))
  unfolding call
  submit-Left rs d symbol qty side kind tif = record {
    run = λ s (p, q).
        let (o, w', e) = responsive.submits symbol qty side kind tif s.world.0 in
        (
          o,
          record s {
            world = (w', s.world.1 ++ (record { symbol = symbol; qty = qty; side = side } ∷ []));
          },
          rw e refl,
          (ap (λ l. l ++ (record { symbol = symbol; qty = qty; side = side } ∷ [])) p, q),
        );
  }

  poll-Left :
      (rs : List Request) (d : Dict (TradeRecord F)) (id : String)
      → Succeeds (Left {W = W} rs d) (Left rs d) (call ((with_notes env).client.poll_order id))
  unfolding call
  poll-Left rs d id = record {
    run = λ s h.
        let (o, w', e) = responsive.polls id s.world.0 in
        (o, record s { world = (w', s.world.1) }, rw e refl, h);
  }

  -- a position that is sold whole
  execute_exit-Left :
      (rs : List Request) (d : Dict (TradeRecord F)) (key : String) (trade : TradeRecord F)
      (reason : Reason F) (price : F)
      → contains key d ≡ false
      → ltb_ℤ (pos 0) trade.position.remaining_shares ≡ true
      → Succeeds
          (Left {W = W} rs d)
          (Left (rs ++ (sale trade.position.symbol trade.position.remaining_shares ∷ [])) d)
          (execute_exit (with_notes env) key trade (dump_exit trade.position reason) price)
  unfolding execute_exit dump_exit record_order after_sale log put_trade
  execute_exit-Left rs d key trade reason price new some_left =
      let n = trade.position.remaining_shares in
      let all : min_ℤ n n ≡ n = ground arith in
      let positive : leb_ℤ n (pos 0) ≡ false = ground arith in
      rw all (
        rw positive (
          Succeeds-bind _ _
            (submit-Left rs d trade.position.symbol (decimal_of_int n) OrderSide.sell
              OrderType.market TimeInForce.day)
            λ order. Succeeds-bind _ _ (Succeeds-modify _ λ s h. h) λ _.
              Succeeds-bind _ _ (poll-Left _ d _) λ filled.
                Succeeds-modify _ λ s (p, q). (p, Within-insert key _ s.open_trades d new q)))

  flatten_loop-Left :
      (d : Dict (TradeRecord F)) (rs : List Request) (reason : Reason F)
      → IsKeyed d
      → Succeeds
          (Left {W = W} rs d)
          (Left (rs ++ sales d) [])
          (flatten_loop (with_notes env) (keys d) reason)
  unfolding flatten_loop flatten_one
  flatten_loop-Left [] rs reason h = record {
    run = λ s (p, q). (Succeeds-pure tt).run s (p ∙ sym (append-nil rs), tt);
  }
  flatten_loop-Left ((key, trade) ∷ d) rs reason (new, h) = Succeeds-read _ _ λ s (p, (found, q)).
      rw found (elim (Bool-cases (ltb_ℤ (pos 0) trade.position.remaining_shares)) [
        | inl held ↦ rw held (
            rw
              (← append_assoc rs (sale trade.position.symbol trade.position.remaining_shares ∷ [])
                (sales d))
              (Succeeds-from _ (λ s₁ (p₁, (_, q₁)). (p₁, q₁))
                (Succeeds-bind _ _ (execute_exit-Left rs d key trade reason _ new held)
                  λ _. flatten_loop-Left d _ reason h)))
        | inr empty ↦ rw empty (
            Succeeds-from _ (λ s₁ (p₁, (_, q₁)). (p₁, q₁))
              (Succeeds-bind _ _ (Succeeds-pure tt) λ _. flatten_loop-Left d rs reason h))
      ])

  pub flatten_all_sells :
      (reason : Reason F) (s : Session F (Noted W))
      → IsKeyed s.open_trades
      → (t : Session F (Noted W)) × (flatten_all (with_notes env) reason s ≡ (ok tt, t))
        × IsFlat t
        × (requests t ≡ requests s ++ sales s.open_trades)
  unfolding flatten_all ◌>>=◌ gets modify log
  flatten_all_sells reason s keyed =
      let (_, t, run_eq, (asked, _)) =
        (flatten_loop-Left s.open_trades (requests s) reason keyed).run s
          (refl, Within-self s.open_trades keyed) in
      (
        log (LogLine.flattened reason) (record t { open_trades = [] }),
        bind_run (flatten_loop (with_notes env) (keys s.open_trades) reason)
            (λ _. modify λ u. log (LogLine.flattened reason) (record u { open_trades = [] })) run_eq
            refl,
        refl,
        asked,
      )
