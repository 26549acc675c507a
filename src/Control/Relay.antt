-- ===== src/Control/Relay.antt =====
-- bot/src/bot/control/relay_client.py. A session is the list of what arrives on the socket; the
-- identifiers of the bot's own frames and the times in them are left out. The waits are whole numbers
-- of seconds, as the code's floats are. HMAC-SHA256 is a parameter.
pub mod Served
pub mod Paced
pub mod Safe
use quick_stock_bot.Prelude.{
  ℕ, ◌*◌, Bool, true, false, not, ◌&&◌, ◌||◌, ltb, String, List, [], ◌∷◌, ◌++◌, Option, none, some,
  Result, ok, err, Error, mem, ◌==◌, if◌then◌else◌,
}
use quick_stock_bot.Prelude.Action.{Action, pure, raise, modify, ◌>>=◌, ◌>>◌}
use quick_stock_bot.Num.{Float}
use quick_stock_bot.Control.Database.{Database}
use quick_stock_bot.Control.Dispatch.{
  Params, Response, subscribed, state, symbols, ticker, settings, lists, trades, order, days,
  queued, LogFilter, Tools, dispatch,
}

-- what arrives: a challenge with its nonce, a request with its id, method and parameters, any other
-- message, or a text that is no JSON or misses a field
pub data Message (F : Type 0) : Type 0 where
  challenge : String → Message F
  request : String → String → Params F → Message F
  other : Message F
  broken : Message F

-- a message, and whether the socket takes what is sent in answer
pub record Arrival (F : Type 0) : Type 0 where
  pub message : Message F
  pub writable : Bool

pub data Code : Type 0 where
  unknown_method invalid_params internal : Code

-- what the bot sends: its registration with the proof, results and errors of requests, and log events
pub data Frame (F : Type 0) : Type 0 where
  register : String → String → String → Frame F
  result : String → Response F → Frame F
  failure : String → Code → Frame F
  log : String → String → Frame F

-- the arguments of the client. `not_finite_code` is the code of `math.floor` and `int` of a float that
-- is not finite: they raise ValueError for NaN and OverflowError for infinity.
pub record RelaySetup (F : Type 0) : Type 0 where
  pub tools : Tools F
  pub bot_id : String
  pub license_key : String
  pub connection_password : String
  pub hmac : String → String → String
  pub not_finite_code : Code

pub record Relay (F : Type 0) : Type 0 where
  pub db : Database F
  pub log_filter : Option LogFilter
  pub connected : Bool
  pub backoff : ℕ
  pub sent : List (Frame F)
  pub slept : List ℕ

-- one round of `run`: the session that it starts, or that is cancelled after what has arrived
pub data Attempt (F : Type 0) : Type 0 where
  refused : Attempt F
  cancelled : List (Arrival F) → Attempt F
  opened : List (Arrival F) → Attempt F

-- `min(backoff * 2, 60.0)`
abbrev pub doubled : ℕ → ℕ
doubled b = if ltb 60 (b * 2) then 60 else b * 2

-- `_LEVEL_ORDER.get(level, default)`
level_order : String → ℕ → ℕ
level_order level default =
    if level == "debug"
    then 0
    else if level == "info"
    then 1
    else if level == "warning"
    then 2
    else if level == "error"
    then 3
    else default

-- the filter takes the event
pub takes : LogFilter → String → String → Bool
unfolding level_order
takes filter category level =
    (is_empty filter.categories || mem category filter.categories)
    && not (ltb (level_order level 0) (level_order filter.min_level 1))
  where
    is_empty : List String → Bool
    is_empty [] = true
    is_empty (_ ∷ _) = false

module _ {F : Type 0} where
  -- `_on_log_subscribe`, which the handler of `subscribe_logs` calls
  subscribe : Response F → Option LogFilter → Option LogFilter
  subscribe (subscribed filter) old = some filter
  subscribe (state tickers account notices) old = old
  subscribe (symbols ss) old = old
  subscribe (ticker v) old = old
  subscribe (settings s) old = old
  subscribe (lists ls) old = old
  subscribe (trades ts total) old = old
  subscribe (order v) old = old
  subscribe (days ds) old = old
  subscribe queued old = old

  -- `ws.send`
  pub send : Bool → Frame F → Action (Relay F) (Unit {0})
  send false frame = raise Error.client
  send true frame = modify (λ r. record r { sent = r.sent ++ (frame ∷ []) })

  -- the frame of `emit_log`; the payload of the event is left out
  emit_if : Bool → Bool → String → String → Action (Relay F) (Unit {0})
  unfolding send
  emit_if false writable category message = pure tt
  emit_if true writable category message = send writable (log category message)

  wants : Relay F → String → String → Bool
  unfolding takes
  wants r category level = elim r.log_filter [
    | none ↦ false
    | some filter ↦ r.connected && takes filter category level
  ]

  unfoldable pub emit_log : Bool → String → String → String → Action (Relay F) (Unit {0})
  unfolding emit_if wants
  emit_log writable category level message r =
      emit_if (wants r category level) writable category message r

module _ {F : Type 0} ⦃num : Float F⦄ (setup : RelaySetup F) where
  open setup use {tools, bot_id, license_key, connection_password, hmac, not_finite_code}

  -- the `except` clauses of `_dispatch_rpc`
  code_of : Error → Code
  code_of Error.key_error = unknown_method
  code_of Error.value_error = invalid_params
  code_of Error.validation = invalid_params
  code_of Error.not_finite = not_finite_code
  code_of Error.zero_division = internal
  code_of Error.assertion = internal
  code_of Error.index_error = internal
  code_of Error.type_error = internal
  code_of Error.runtime = internal
  code_of Error.client = internal

  pub reply_of : String → Result (Response F) → Frame F
  unfolding code_of
  reply_of id (ok response) = result id response
  reply_of id (err e) = failure id (code_of e)

  filter_after : Result (Response F) → Option LogFilter → Option LogFilter
  unfolding subscribe
  filter_after (ok response) old = subscribe response old
  filter_after (err e) old = old

  -- `_dispatch_rpc`
  pub dispatch_rpc : String → String → Params F → Action (Relay F) (Frame F)
  unfolding reply_of filter_after
  dispatch_rpc id method params r =
      let (reply, db') = dispatch tools method params r.db in
      (ok (reply_of id reply), record r { db = db'; log_filter = filter_after reply r.log_filter })

  -- one round of the loop of `_run_session`
  pub answer : Message F → Bool → Action (Relay F) (Unit {0})
  unfolding dispatch_rpc send
  answer (challenge nonce) writable = pure tt
  answer (request id method params) writable = do
    frame ← dispatch_rpc id method params
    send writable frame
  answer other writable = pure tt
  answer broken writable = raise Error.value_error

  pub serve : List (Arrival F) → Action (Relay F) (Unit {0})
  unfolding answer
  serve [] = pure tt
  serve (a ∷ arrivals) = do answer a.message a.writable; serve arrivals

  -- `_authenticate`, on the first message
  greet : Message F → Bool → Action (Relay F) (Unit {0})
  unfolding send
  greet (challenge nonce) writable =
      send writable (register bot_id license_key (hmac nonce connection_password))
  greet (request id method params) writable = raise Error.runtime
  greet other writable = raise Error.runtime
  greet broken writable = raise Error.value_error

  authenticate_and_serve : List (Arrival F) → Action (Relay F) (Unit {0})
  unfolding greet serve
  authenticate_and_serve [] = raise Error.client
  authenticate_and_serve (a ∷ arrivals) = do greet a.message a.writable; serve arrivals

  -- `_run_session`, on a socket that opens
  unfoldable pub run_session : List (Arrival F) → Action (Relay F) (Unit {0})
  unfolding authenticate_and_serve
  run_session arrivals r =
      let (reply, r') = authenticate_and_serve arrivals (record r { connected = true }) in
      (reply, record r' { connected = false })

  -- what `run` does after a session
  after : Result (Unit {0}) → Relay F → Relay F
  after (ok _) r = record r { backoff = 1 }
  after (err e) r = record r { slept = r.slept ++ (r.backoff ∷ []); backoff = doubled r.backoff }

  -- `run`, which a cancellation ends
  unfoldable pub run : List (Attempt F) → Relay F → Relay F
  unfolding after run_session
  run [] r = r
  run (cancelled arrivals ∷ attempts) r = (run_session arrivals r).1
  run (refused ∷ attempts) r = run attempts (after (err Error.client) r)
  run (opened arrivals ∷ attempts) r =
      let (reply, r') = run_session arrivals r in run attempts (after reply r')
