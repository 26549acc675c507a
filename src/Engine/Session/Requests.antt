-- ===== src/Engine/Session/Requests.antt =====
-- The orders that a session asks its client for. Any client, the code's or a test's, is wrapped so
-- that it notes each request; rules say what the parts of a session ask for.
use quick_stock_bot.Prelude.{
  Bool, true, false, String, List, [], ◌∷◌, ◌++◌, Result, Error, ok, err, ◌≡◌, refl, ◌∙◌, ap, sym,
  append-nil, append_assoc, All, All-append, if◌then◌else◌,
}
use quick_stock_bot.Prelude.Action.{Action, pure, raise, lift, gets, modify, ◌>>=◌}
use quick_stock_bot.Num.{Decimal}
use quick_stock_bot.Models.{Order, OrderSide, OrderType, TimeInForce}
use quick_stock_bot.Alpaca.Client.{MarketClient}
use quick_stock_bot.Engine.Session.State.{
  Session, Setup, TradeRecord, call, log, log_all, record_order, put_trade, put_daily,
}
use quick_stock_bot.Engine.Messages.{LogLine}
use quick_stock_bot.Engine.Breaker.{DailyState}

pub record Request : Type 0 where
  pub symbol : String
  pub qty : Decimal
  pub side : OrderSide

abbrev pub Noted : Type 0 → Type 0
Noted W = W × List Request

abbrev on_world : {W A : Type 0} → (W → Result A × W) → Noted W → Result A × Noted W
on_world f (w, rs) = let (r, w') = f w in (r, (w', rs))

abbrev pub noted : {W : Type 0} → MarketClient W → MarketClient (Noted W)
noted c = record {
  get_calendar = λ a b. on_world (c.get_calendar a b);
  get_clock = on_world c.get_clock;
  get_bars = λ a b d e f. on_world (c.get_bars a b d e f);
  submit_order = λ symbol qty side kind tif (w, rs).
      let (r, w') = c.submit_order symbol qty side kind tif w in
      (r, (w', rs ++ (record { symbol = symbol; qty = qty; side = side } ∷ [])));
  poll_order = λ id. on_world (c.poll_order id);
  get_account = on_world c.get_account;
}

-- the session with its client noted
abbrev pub with_notes : {F W : Type 0} → Setup F W → Setup F (Noted W)
with_notes env = record {
  client = noted env.client;
  cfg = env.cfg;
  ta_cfg = env.ta_cfg;
  score_setup_fn = env.score_setup_fn;
}

module _ {F W : Type 0} where
  abbrev pub requests : Session F (Noted W) → List Request
  requests s = s.world.1

  -- from `s` to `s'` only requests that satisfy `P` were made
  abbrev pub Follows : (Request → Type 0) → Session F (Noted W) → Session F (Noted W) → Type 0
  Follows P s s' = (rs : List Request) × (requests s' ≡ requests s ++ rs) × All P rs

module _ {F W : Type 0} where
  -- the small updates leave the client's world alone
  pub log_quiet : (line : LogLine F) (s : Session F (Noted W)) → requests (log line s) ≡ requests s
  unfolding log
  log_quiet line s = refl

  pub log_all_quiet :
      (lines : List (LogLine F)) (s : Session F (Noted W)) → requests (log_all lines s) ≡ requests s
  unfolding log_all
  log_all_quiet lines s = refl

  pub record_order_quiet :
      (order : Order) (s : Session F (Noted W)) → requests (record_order order s) ≡ requests s
  unfolding record_order
  record_order_quiet order s = refl

  pub put_trade_quiet :
      (key : String) (trade : TradeRecord F) (s : Session F (Noted W))
      → requests (put_trade key trade s) ≡ requests s
  unfolding put_trade
  put_trade_quiet key trade s = refl

  pub put_daily_quiet :
      (daily : DailyState F) (s : Session F (Noted W)) → requests (put_daily daily s) ≡ requests s
  unfolding put_daily
  put_daily_quiet daily s = refl

-- All requests that `m` makes satisfy `P`, whether it returns or raises.
pub record Asks (F W : Type 0) {A : Type 0} (P : Request → Type 0)
    (m : Action (Session F (Noted W)) A) : Type 0 where
  pub at : (s : Session F (Noted W)) → Follows P s (m s).1

module _ {F W : Type 0} {P : Request → Type 0} where
  Follows-trans : (s t u : Session F (Noted W)) → Follows P s t → Follows P t u → Follows P s u
  Follows-trans s t u (xs, p, hx) (ys, q, hy) =
      (xs ++ ys, q ∙ ap (λ l. l ++ ys) p ∙ append_assoc _ xs ys, All-append P xs ys hx hy)

  Follows-refl : (s t : Session F (Noted W)) → requests t ≡ requests s → Follows P s t
  Follows-refl s t e = ([], e ∙ sym (append-nil _), tt)

  -- an action that makes no request
  pub Asks-quiet :
      {A : Type 0} (m : Action (Session F (Noted W)) A)
      → ((s : Session F (Noted W)) → requests (m s).1 ≡ requests s)
      → Asks F W P m
  Asks-quiet m h = record { at = λ s. Follows-refl s (m s).1 (h s) }

  Follows-bind :
      {A B : Type 0} (r : Result A) (s t : Session F (Noted W))
      (f : A → Action (Session F (Noted W)) B)
      → Follows P s t
      → ((a : A) → Asks F W P (f a))
      → let out : Result B × Session F (Noted W) = elim r [ ok a ↦ f a t | err e ↦ (err e, t) ] in
        Follows P s out.1
  Follows-bind (ok a) s t f h k = Follows-trans s t (f a t).1 h ((k a).at t)
  Follows-bind (err e) s t f h k = h

  pub Asks-bind :
      {A B : Type 0} (m : Action (Session F (Noted W)) A) (f : A → Action (Session F (Noted W)) B)
      → Asks F W P m
      → ((a : A) → Asks F W P (f a))
      → Asks F W P (m >>= f)
  unfolding ◌>>=◌
  Asks-bind m f km kf = record { at = λ s. Follows-bind (m s).0 s (m s).1 f (km.at s) kf }

  Follows-bind_ok :
      {A B : Type 0} (r : Result A) (s t : Session F (Noted W))
      (f : A → Action (Session F (Noted W)) B)
      → Follows P s t
      → ((a : A) → r ≡ ok a → Asks F W P (f a))
      → let out : Result B × Session F (Noted W) = elim r [ ok a ↦ f a t | err e ↦ (err e, t) ] in
        Follows P s out.1
  Follows-bind_ok (ok a) s t f h k = Follows-trans s t (f a t).1 h ((k a refl).at t)
  Follows-bind_ok (err e) s t f h k = h

  -- the rest may use what the first part returned
  pub Asks-bind_ok :
      {A B : Type 0} (m : Action (Session F (Noted W)) A) (f : A → Action (Session F (Noted W)) B)
      → Asks F W P m
      → ((s : Session F (Noted W)) (a : A) → (m s).0 ≡ ok a → Asks F W P (f a))
      → Asks F W P (m >>= f)
  unfolding ◌>>=◌
  Asks-bind_ok m f km kf = record { at = λ s. Follows-bind_ok (m s).0 s (m s).1 f (km.at s) (kf s) }

  pub Asks-pure : {A : Type 0} (a : A) → Asks F W P (pure a)
  unfolding pure
  Asks-pure a = Asks-quiet (pure a) (λ s. refl)

  pub Asks-raise : {A : Type 0} (e : Error) → Asks F W P (raise {A = A} e)
  unfolding raise
  Asks-raise {A} e = Asks-quiet (raise {A = A} e) (λ s. refl)

  pub Asks-lift : {A : Type 0} (r : Result A) → Asks F W P (lift r)
  unfolding lift
  Asks-lift r = Asks-quiet (lift r) (λ s. refl)

  pub Asks-gets : {A : Type 0} (f : Session F (Noted W) → A) → Asks F W P (gets f)
  unfolding gets
  Asks-gets f = Asks-quiet (gets f) (λ s. refl)

  pub Asks-modify :
      (f : Session F (Noted W) → Session F (Noted W))
      → ((s : Session F (Noted W)) → requests (f s) ≡ requests s)
      → Asks F W P (modify f)
  unfolding modify
  Asks-modify f h = Asks-quiet (modify f) h

  pub Asks-if :
      {A : Type 0} (b : Bool) (m n : Action (Session F (Noted W)) A)
      → (b ≡ true → Asks F W P m)
      → (b ≡ false → Asks F W P n)
      → Asks F W P (if b then m else n)
  Asks-if true m n km kn = km refl
  Asks-if false m n km kn = kn refl

  module _ (c : MarketClient W) where
    pub Asks-account : Asks F W P (call (noted c).get_account)
    unfolding call
    Asks-account = Asks-quiet (call (noted c).get_account) (λ s. refl)

    pub Asks-poll : (id : String) → Asks F W P (call ((noted c).poll_order id))
    unfolding call
    Asks-poll id = Asks-quiet (call ((noted c).poll_order id)) (λ s. refl)

    pub Asks-submit :
        (symbol : String) (qty : Decimal) (side : OrderSide) (kind : OrderType) (tif : TimeInForce)
        → P (record { symbol = symbol; qty = qty; side = side })
        → Asks F W P (call ((noted c).submit_order symbol qty side kind tif))
    unfolding call
    Asks-submit symbol qty side kind tif h = record {
      at = λ s. (record { symbol = symbol; qty = qty; side = side } ∷ [], refl, (h, tt));
    }
