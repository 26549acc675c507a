-- ===== src/Control/Relay/Paced.antt =====
-- bot/src/bot/control/relay_client.py: the waits between sessions.
use quick_stock_bot.Prelude.{
  ℕ, ◌+◌, ◌≤◌, ltb, if◌then◌else◌, Bool, true, false, String, List, [], ◌∷◌, ◌++◌, Result, ok, err,
  Error, ◌≡◌, refl, sym, ap, ◌∙◌, append_assoc, append-nil, arith, All,
}
use quick_stock_bot.Prelude.Keeps.{Keeps, Keeps-modify, Keeps-raise, Keeps-pure, Keeps-bind}
use quick_stock_bot.Num.{Float}
use quick_stock_bot.Control.Dispatch.{Params}
use quick_stock_bot.Control.Relay.{
  Message, challenge, request, other, broken, Arrival, Attempt, refused, cancelled, opened, Relay,
  RelaySetup, Frame, doubled, send, dispatch_rpc, answer, serve, greet, authenticate_and_serve,
  run_session, after, run,
}

-- the waits of a client whose next wait is `b`, by the ends of its sessions: a session that ends by
-- itself makes the next wait one second, and one that raises is followed by a wait and doubles the
-- next, up to 60 seconds
abbrev pub waits : ℕ → List Bool → List ℕ
waits b [] = []
waits b (true ∷ ends) = waits 1 ends
waits b (false ∷ ends) = b ∷ waits (if ltb 60 (b + b) then 60 else b + b) ends

abbrev pub IsWait : ℕ → Type 0
IsWait t = (1 ≤ t) × (t ≤ 60)

abbrev pub ended : {A : Type 0} → Result A → Bool
ended (ok a) = true
ended (err e) = false

-- the waits so far are `ts` and the next is `b`
abbrev IsPaced : {F : Type 0} → ℕ → List ℕ → Relay F → Type 0
IsPaced b ts r = (r.backoff ≡ b) × (r.slept ≡ ts)

doubled-two : (b : ℕ) → doubled b ≡ (if ltb 60 (b + b) then 60 else b + b)
doubled-two b = ground arith

waits-IsWait : (ends : List Bool) (b : ℕ) → IsWait b → All IsWait (waits b ends)
waits-IsWait [] b h = tt
waits-IsWait (true ∷ ends) b h = waits-IsWait ends 1 (omega arith)
waits-IsWait (false ∷ ends) b h = (h, waits-IsWait ends _ (let (low, high) = h in ground arith))

module _ {F : Type 0} (b : ℕ) (ts : List ℕ) where
  send-IsPaced : (writable : Bool) (frame : Frame F) → Keeps (IsPaced b ts) (send writable frame)
  unfolding send
  send-IsPaced false frame = Keeps-raise Error.client
  send-IsPaced true frame = Keeps-modify _ (λ r h. h)

module _ {F : Type 0} ⦃num : Float F⦄ (setup : RelaySetup F) (b : ℕ) (ts : List ℕ) where
  dispatch_rpc-IsPaced :
      (id method : String) (params : Params F)
      → Keeps (IsPaced b ts) (dispatch_rpc setup id method params)
  unfolding dispatch_rpc
  dispatch_rpc-IsPaced id method params = record { at = λ r h. h }

  answer-IsPaced :
      (message : Message F) (writable : Bool) → Keeps (IsPaced b ts) (answer setup message writable)
  unfolding answer
  answer-IsPaced (challenge nonce) writable = Keeps-pure tt
  answer-IsPaced (request id method params) writable =
      Keeps-bind _ _ (dispatch_rpc-IsPaced id method params)
        (λ frame. send-IsPaced b ts writable frame)
  answer-IsPaced other writable = Keeps-pure tt
  answer-IsPaced broken writable = Keeps-raise Error.value_error

  serve-IsPaced : (arrivals : List (Arrival F)) → Keeps (IsPaced b ts) (serve setup arrivals)
  unfolding serve
  serve-IsPaced [] = Keeps-pure tt
  serve-IsPaced (a ∷ arrivals) =
      Keeps-bind _ _ (answer-IsPaced a.message a.writable) (λ _. serve-IsPaced arrivals)

  greet-IsPaced :
      (message : Message F) (writable : Bool) → Keeps (IsPaced b ts) (greet setup message writable)
  unfolding greet
  greet-IsPaced (challenge nonce) writable = send-IsPaced b ts writable _
  greet-IsPaced (request id method params) writable = Keeps-raise Error.runtime
  greet-IsPaced other writable = Keeps-raise Error.runtime
  greet-IsPaced broken writable = Keeps-raise Error.value_error

  authenticate-IsPaced :
      (arrivals : List (Arrival F)) → Keeps (IsPaced b ts) (authenticate_and_serve setup arrivals)
  unfolding authenticate_and_serve
  authenticate-IsPaced [] = Keeps-raise Error.client
  authenticate-IsPaced (a ∷ arrivals) =
      Keeps-bind _ _ (greet-IsPaced a.message a.writable) (λ _. serve-IsPaced arrivals)

  run_session-IsPaced :
      (arrivals : List (Arrival F)) (r : Relay F)
      → IsPaced b ts r
      → IsPaced b ts (run_session setup arrivals r).1
  unfolding run_session
  run_session-IsPaced arrivals r h =
      (authenticate-IsPaced arrivals).at (record r { connected = true }) h

module _ {F : Type 0} ⦃num : Float F⦄ (setup : RelaySetup F) where
  -- which of the attempts ended by themselves: a refused connection does not, and a cancelled session
  -- is the last
  abbrev pub outcomes : List (Attempt F) → Relay F → List Bool
  outcomes [] r = []
  outcomes (cancelled arrivals ∷ attempts) r = []
  outcomes (refused ∷ attempts) r = false ∷ outcomes attempts (run setup (refused ∷ []) r)
  outcomes (opened arrivals ∷ attempts) r =
      ended (run_session setup arrivals r).0
      ∷ outcomes attempts (run setup (opened arrivals ∷ []) r)

  after-slept :
      (reply : Result (Unit {0})) (r : Relay F) (b : ℕ) (ts : List ℕ) (ends : List Bool)
      → IsPaced b ts r
      → (after setup reply r).slept ++ waits (after setup reply r).backoff ends
        ≡ ts ++ waits b (ended reply ∷ ends)
  unfolding after
  after-slept (ok _) r b ts ends (e₁, e₂) = ap (λ x. x ++ waits 1 ends) e₂
  after-slept (err e) r b ts ends (e₁, e₂) = rw e₁ (
      rw e₂ (append_assoc ts (b ∷ []) _ ∙ ap (λ next. ts ++ (b ∷ waits next ends)) (doubled-two b)))

  run-slept :
      (attempts : List (Attempt F)) (r : Relay F)
      → (run setup attempts r).slept ≡ r.slept ++ waits r.backoff (outcomes attempts r)
  unfolding run
  run-slept [] r = sym (append-nil r.slept)
  run-slept (cancelled arrivals ∷ attempts) r =
      (run_session-IsPaced setup r.backoff r.slept arrivals r (refl, refl)).1
      ∙ sym (append-nil r.slept)
  run-slept (refused ∷ attempts) r =
      run-slept attempts _
      ∙ after-slept (err Error.client) r r.backoff r.slept (outcomes attempts _) (refl, refl)
  run-slept (opened arrivals ∷ attempts) r =
      run-slept attempts _
      ∙ after-slept (run_session setup arrivals r).0 _ r.backoff r.slept (outcomes attempts _)
          (run_session-IsPaced setup r.backoff r.slept arrivals r (refl, refl))

  -- However the sessions of a client go, it waits exactly after those that raise or are refused: first
  -- the time of its backoff, then each time twice the wait before, but at most 60 seconds, and one
  -- second again after a session that ended by itself. If its backoff is from 1 to 60 seconds, so is
  -- each of these waits.
  pub run_waits :
      (attempts : List (Attempt F)) (r : Relay F)
      → IsWait r.backoff
      → ((run setup attempts r).slept ≡ r.slept ++ waits r.backoff (outcomes attempts r))
        × All IsWait (waits r.backoff (outcomes attempts r))
  run_waits attempts r h = (run-slept attempts r, waits-IsWait (outcomes attempts r) r.backoff h)
