-- ===== src/Control/Relay/Served.antt =====
-- bot/src/bot/control/relay_client.py: what a session does for the requests that arrive.
use quick_stock_bot.Prelude.{
  ◌≤◌, Bool, true, false, String, List, [], ◌∷◌, ◌++◌, Result, ok, err, Error, ◌≡◌, refl, sym, ap,
  ◌∙◌, arith, length, append_assoc, append-nil,
}
use quick_stock_bot.Prelude.Action.{pure, raise, modify, ◌>>=◌}
use quick_stock_bot.Num.{Float}
use quick_stock_bot.Control.Database.{Database}
use quick_stock_bot.Control.Dispatch.{Params, Response, dispatch}
use quick_stock_bot.Control.Dispatch.Methods.{request_all}
use quick_stock_bot.Control.Relay.{
  Message, challenge, request, other, broken, Code, unknown_method, invalid_params, internal,
  Arrival, Relay, RelaySetup, Frame, register, result, failure, reply_of, code_of, send,
  dispatch_rpc, answer, serve, greet, authenticate_and_serve, run_session,
}

-- the requests among the messages
abbrev pub requests_of : {F : Type 0} → List (Arrival F) → List (String × Params F)
requests_of [] = []
requests_of (a ∷ arrivals) = elim a.message [
  | challenge nonce ↦ requests_of arrivals
  | request id method params ↦ (method, params) ∷ requests_of arrivals
  | other ↦ requests_of arrivals
  | broken ↦ requests_of arrivals
]

module _ {F : Type 0} ⦃num : Float F⦄ (setup : RelaySetup F) where
  -- the code that a request is answered with when its handler raised
  abbrev pub expected_code : Error → Code
  expected_code Error.key_error = unknown_method
  expected_code Error.value_error = invalid_params
  expected_code Error.validation = invalid_params
  expected_code Error.not_finite = setup.not_finite_code
  expected_code Error.zero_division = internal
  expected_code Error.assertion = internal
  expected_code Error.index_error = internal
  expected_code Error.type_error = internal
  expected_code Error.runtime = internal
  expected_code Error.client = internal

  -- the answer to a request with the id `id`
  abbrev pub expected : String → Result (Response F) → Frame F
  expected id (ok response) = result id response
  expected id (err e) = failure id (expected_code e)

  reply_of-expected :
      (id : String) (reply : Result (Response F)) → reply_of setup id reply ≡ expected id reply
  unfolding reply_of code_of
  reply_of-expected id (ok response) = refl
  reply_of-expected id (err Error.key_error) = refl
  reply_of-expected id (err Error.value_error) = refl
  reply_of-expected id (err Error.validation) = refl
  reply_of-expected id (err Error.not_finite) = refl
  reply_of-expected id (err Error.zero_division) = refl
  reply_of-expected id (err Error.assertion) = refl
  reply_of-expected id (err Error.index_error) = refl
  reply_of-expected id (err Error.type_error) = refl
  reply_of-expected id (err Error.runtime) = refl
  reply_of-expected id (err Error.client) = refl

  -- one answer for each request, with its id
  abbrev pub replies : List (Arrival F) → Database F → List (Frame F)
  replies [] db = []
  replies (a ∷ arrivals) db = elim a.message [
    | challenge nonce ↦ replies arrivals db
    | request id method params ↦
        let (reply, db') = dispatch setup.tools method params db in
        expected id reply ∷ replies arrivals db'
    | other ↦ replies arrivals db
    | broken ↦ replies arrivals db
  ]

  -- A first part of the messages was served: the database is as after its requests, and its answers
  -- were sent in order, but for one at most that the socket did not take. A session that ends by
  -- itself served all of them.
  pub record IsServed (arrivals : List (Arrival F)) (r r' : Relay F) (outcome : Result (Unit {0}))
      : Type 0 where
    pub served : List (Arrival F)
    pub rest : List (Arrival F)
    pub answered : List (Frame F)
    pub lost : List (Frame F)
    pub split : arrivals ≡ served ++ rest
    pub database : r'.db ≡ request_all setup.tools (requests_of served) r.db
    pub frames : r'.sent ≡ r.sent ++ answered
    pub in_order : answered ++ lost ≡ replies served r.db
    pub at_most_one : length lost ≤ 1
    pub complete : outcome ≡ ok tt → (rest ≡ []) × (lost ≡ [])

  -- the loop after its first message
  IsServed-one :
      (message : Message F) (writable : Bool) (arrivals : List (Arrival F)) (r : Relay F)
      → ((r₁ : Relay F)
          → IsServed arrivals r₁ (serve setup arrivals r₁).1 (serve setup arrivals r₁).0)
      → let all = record { message = message; writable = writable } ∷ arrivals in
        IsServed all r (serve setup all r).1 (serve setup all r).0
  unfolding serve answer ◌>>=◌ pure raise modify dispatch_rpc send
  IsServed-one other writable arrivals r ih =
      let s = ih r in
      record {
        served = record { message = other; writable = writable } ∷ s.served;
        rest = s.rest;
        answered = s.answered;
        lost = s.lost;
        split = ap (λ more. record { message = other; writable = writable } ∷ more) s.split;
        database = s.database;
        frames = s.frames;
        in_order = s.in_order;
        at_most_one = s.at_most_one;
        complete = s.complete;
      }
  IsServed-one (challenge nonce) writable arrivals r ih =
      let s = ih r in
      record {
        served = record { message = challenge nonce; writable = writable } ∷ s.served;
        rest = s.rest;
        answered = s.answered;
        lost = s.lost;
        split =
            ap (λ more. record { message = challenge nonce; writable = writable } ∷ more) s.split;
        database = s.database;
        frames = s.frames;
        in_order = s.in_order;
        at_most_one = s.at_most_one;
        complete = s.complete;
      }
  IsServed-one broken writable arrivals r ih = record {
    served = record { message = broken; writable = writable } ∷ [];
    rest = arrivals;
    answered = [];
    lost = [];
    split = refl;
    database = refl;
    frames = sym (append-nil r.sent);
    in_order = refl;
    at_most_one = ground arith;
    complete = λ e. absurd (ground (arith, e));
  }
  IsServed-one (request id method params) false arrivals r ih = record {
    served = record { message = request id method params; writable = false } ∷ [];
    rest = arrivals;
    answered = [];
    lost = reply_of setup id (dispatch setup.tools method params r.db).0 ∷ [];
    split = refl;
    database = refl;
    frames = sym (append-nil r.sent);
    in_order =
        ap (λ frame. frame ∷ []) (reply_of-expected id (dispatch setup.tools method params r.db).0);
    at_most_one = ground arith;
    complete = λ e. absurd (ground (arith, e));
  }
  IsServed-one (request id method params) true arrivals r ih =
      let frame = reply_of setup id (dispatch setup.tools method params r.db).0 in
      let s = ih _ in
      record {
        served = record { message = request id method params; writable = true } ∷ s.served;
        rest = s.rest;
        answered = frame ∷ s.answered;
        lost = s.lost;
        split =
            ap (λ more. record { message = request id method params; writable = true } ∷ more)
              s.split;
        database = s.database;
        frames = s.frames ∙ append_assoc r.sent (frame ∷ []) s.answered;
        in_order =
            ap (λ f. f ∷ (s.answered ++ s.lost))
              (reply_of-expected id (dispatch setup.tools method params r.db).0)
            ∙ ap (λ fs. expected id (dispatch setup.tools method params r.db).0 ∷ fs) s.in_order;
        at_most_one = s.at_most_one;
        complete = s.complete;
      }

  serve-IsServed :
      (arrivals : List (Arrival F)) (r : Relay F)
      → IsServed arrivals r (serve setup arrivals r).1 (serve setup arrivals r).0
  unfolding serve pure
  serve-IsServed [] r = record {
    served = [];
    rest = [];
    answered = [];
    lost = [];
    split = refl;
    database = refl;
    frames = sym (append-nil r.sent);
    in_order = refl;
    at_most_one = ground arith;
    complete = λ e. (refl, refl);
  }
  serve-IsServed (a ∷ arrivals) r =
      IsServed-one a.message a.writable arrivals r (λ r₁. serve-IsServed arrivals r₁)

  -- After a challenge that can be answered, a session sends the registration with the HMAC of the nonce
  -- under the password, and then serves the requests in order: each gets one frame with its id, the
  -- result, or the code of the error: unknown method for KeyError, invalid parameters for ValueError and
  -- failed validation, the code given for a float that is not finite, internal for the others. If it
  -- stops early, a first part of the messages was served, and one answer at most was not sent.
  pub run_session-IsServed :
      (nonce : String) (arrivals : List (Arrival F)) (r : Relay F)
      → let first : Frame F =
          register setup.bot_id setup.license_key (setup.hmac nonce setup.connection_password) in
        let (outcome, r') =
          run_session setup (record { message = challenge nonce; writable = true } ∷ arrivals) r in
        IsServed arrivals (record r { sent = r.sent ++ (first ∷ []) }) r' outcome
  unfolding run_session authenticate_and_serve greet send ◌>>=◌ modify
  run_session-IsServed nonce arrivals r =
      let s = serve-IsServed arrivals (record r {
        sent =
            r.sent
            ++ (register setup.bot_id setup.license_key (setup.hmac nonce setup.connection_password)
                ∷ []);
        connected = true;
      }) in
      record {
        served = s.served;
        rest = s.rest;
        answered = s.answered;
        lost = s.lost;
        split = s.split;
        database = s.database;
        frames = s.frames;
        in_order = s.in_order;
        at_most_one = s.at_most_one;
        complete = s.complete;
      }
