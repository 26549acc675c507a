-- ===== src/Control/Relay/Safe.antt =====
-- bot/src/bot/control/relay_client.py: no session turns paper trading off by itself.
use quick_stock_bot.Prelude.{
  Bool, true, false, String, List, [], ◌∷◌, some, Result, ok, err, Error, ◌≡◌, All,
}
use quick_stock_bot.Prelude.Dict.{lookup}
use quick_stock_bot.Prelude.Keeps.{Keeps, Keeps-modify, Keeps-raise, Keeps-pure, Keeps-bind}
use quick_stock_bot.Num.{Float}
use quick_stock_bot.Control.Database.{Database}
use quick_stock_bot.Control.Dispatch.{Params}
use quick_stock_bot.Control.Dispatch.Methods.{IsUnconfirmed, request_all-stays_paper}
use quick_stock_bot.Control.Relay.{
  Message, challenge, request, other, broken, Arrival, Attempt, refused, cancelled, opened, Relay,
  RelaySetup, Frame, send, dispatch_rpc, answer, serve, greet, authenticate_and_serve, run_session,
  after, run,
}

module _ {F : Type 0} ⦃num : Float F⦄ (setup : RelaySetup F) where
  -- a request of which the patch does not confirm live trading
  abbrev pub IsUnasked : Arrival F → Type 0
  IsUnasked a = elim a.message [
    | challenge nonce ↦ Unit
    | request id method params ↦ IsUnconfirmed setup.tools (method, params)
    | other ↦ Unit
    | broken ↦ Unit
  ]

  abbrev pub IsQuiet : Attempt F → Type 0
  IsQuiet refused = Unit
  IsQuiet (cancelled arrivals) = All IsUnasked arrivals
  IsQuiet (opened arrivals) = All IsUnasked arrivals

  module _ (db : Database F) where
    -- where paper trading is stored as off, it was off before
    IsPaper : Relay F → Type 0
    IsPaper r =
        lookup "paper_trading" r.db.settings ≡ some "false"
        → lookup "paper_trading" db.settings ≡ some "false"

    send-IsPaper : (writable : Bool) (frame : Frame F) → Keeps IsPaper (send writable frame)
    unfolding send IsPaper
    send-IsPaper false frame = Keeps-raise Error.client
    send-IsPaper true frame = Keeps-modify _ (λ r h. h)

    dispatch_rpc-IsPaper :
        (id method : String) (params : Params F)
        → IsUnconfirmed setup.tools (method, params)
        → Keeps IsPaper (dispatch_rpc setup id method params)
    unfolding dispatch_rpc IsPaper
    dispatch_rpc-IsPaper id method params u = record {
      at = λ r h e. h (request_all-stays_paper setup.tools ((method, params) ∷ []) r.db (u, tt) e);
    }

    answer-IsPaper :
        (message : Message F) (writable : Bool)
        → IsUnasked (record { message = message; writable = writable })
        → Keeps IsPaper (answer setup message writable)
    unfolding answer
    answer-IsPaper (challenge nonce) writable u = Keeps-pure tt
    answer-IsPaper (request id method params) writable u =
        Keeps-bind _ _ (dispatch_rpc-IsPaper id method params u)
          (λ frame. send-IsPaper writable frame)
    answer-IsPaper other writable u = Keeps-pure tt
    answer-IsPaper broken writable u = Keeps-raise Error.value_error

    serve-IsPaper :
        (arrivals : List (Arrival F))
        → All IsUnasked arrivals
        → Keeps IsPaper (serve setup arrivals)
    unfolding serve
    serve-IsPaper [] h = Keeps-pure tt
    serve-IsPaper (a ∷ arrivals) (u, h) =
        Keeps-bind _ _ (answer-IsPaper a.message a.writable u) (λ _. serve-IsPaper arrivals h)

    greet-IsPaper :
        (message : Message F) (writable : Bool) → Keeps IsPaper (greet setup message writable)
    unfolding greet
    greet-IsPaper (challenge nonce) writable = send-IsPaper writable _
    greet-IsPaper (request id method params) writable = Keeps-raise Error.runtime
    greet-IsPaper other writable = Keeps-raise Error.runtime
    greet-IsPaper broken writable = Keeps-raise Error.value_error

    authenticate-IsPaper :
        (arrivals : List (Arrival F))
        → All IsUnasked arrivals
        → Keeps IsPaper (authenticate_and_serve setup arrivals)
    unfolding authenticate_and_serve
    authenticate-IsPaper [] h = Keeps-raise Error.client
    authenticate-IsPaper (a ∷ arrivals) (u, h) =
        Keeps-bind _ _ (greet-IsPaper a.message a.writable) (λ _. serve-IsPaper arrivals h)

    run_session-IsPaper :
        (arrivals : List (Arrival F)) (r : Relay F)
        → All IsUnasked arrivals
        → IsPaper r
        → IsPaper (run_session setup arrivals r).1
    unfolding run_session IsPaper
    run_session-IsPaper arrivals r u h =
        (authenticate-IsPaper arrivals u).at (record r { connected = true }) h

    after-IsPaper :
        (reply : Result (Unit {0})) (r : Relay F) → IsPaper r → IsPaper (after setup reply r)
    unfolding after IsPaper
    after-IsPaper (ok _) r h = h
    after-IsPaper (err e) r h = h

    run-IsPaper :
        (attempts : List (Attempt F)) (r : Relay F)
        → All IsQuiet attempts
        → IsPaper r
        → IsPaper (run setup attempts r)
    unfolding run
    run-IsPaper [] r u h = h
    run-IsPaper (cancelled arrivals ∷ attempts) r (u, us) h = run_session-IsPaper arrivals r u h
    run-IsPaper (refused ∷ attempts) r (u, us) h =
        run-IsPaper attempts _ us (after-IsPaper (err Error.client) r h)
    run-IsPaper (opened arrivals ∷ attempts) r (u, us) h =
        run-IsPaper attempts _ us
          (after-IsPaper (run_session setup arrivals r).0 _ (run_session-IsPaper arrivals r u h))

  -- Over any number of sessions with the relay, however each ends and whatever is asked in them, paper
  -- trading is not turned off if no patch of a request confirms it: where it is stored as "false" at
  -- the end, it was at the start.
  pub run-stays_paper :
      (attempts : List (Attempt F)) (r : Relay F)
      → All IsQuiet attempts
      → lookup "paper_trading" (run setup attempts r).db.settings ≡ some "false"
      → lookup "paper_trading" r.db.settings ≡ some "false"
  unfolding IsPaper
  run-stays_paper attempts r u e = run-IsPaper r.db attempts r u (λ h. h) e
