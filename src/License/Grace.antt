-- ===== src/License/Grace.antt =====
-- bot/src/bot/license/validator.py: when trading is allowed.
use quick_stock_bot.Prelude.{
  Bool, true, false, ◌&&◌, ◌||◌, String, List, [], ◌∷◌, Option, none, some, ◌≡◌, ◌==◌, ◌∙◌, ap,
  refl, inl, inr, Bool-cases, All,
}
use quick_stock_bot.Num.{Float, lit, ◌⊖◌, ◌<?◌}
use quick_stock_bot.Prelude.Dict.{Dict}
use quick_stock_bot.License.{
  Row, Reply, failure, answer, Spelling, Moment, Validator, time_of, load_last_valid_ts,
  offline_status, revoked_status, active_status, unknown_status, interpret, status_of, saved,
  check_once, is_revoked, is_active, in_grace,
}
use quick_stock_bot.License.Restart.{IsFaithful, kept_time, status_of-time}

-- the server said "active"
abbrev pub is_valid : Reply → Bool
is_valid failure = false
is_valid (answer s) = is_active s

-- the replies that the grace window covers
abbrev pub is_covered : Reply → Bool
is_covered failure = true
is_covered (answer none) = false
is_covered (answer (some s)) = is_revoked s

module _ {F : Type 0} ⦃num : Float F⦄ (spelling : Spelling F) where
  revoked_status-allowed :
      (s : String) (now : F) (t : Option F)
      → (revoked_status s now t).trading_allowed ≡ in_grace now t
  unfolding revoked_status
  revoked_status-allowed s now t = elim (Bool-cases (in_grace now t)) [
    | inl within ↦ rw within refl
    | inr past ↦ rw past refl
  ]

  status_of-allowed :
      (reply : Reply) (now : F) (t : Option F)
      → (status_of spelling reply now t).trading_allowed
        ≡ (is_valid reply || is_covered reply && in_grace now t)
  unfolding status_of interpret offline_status revoked_status active_status unknown_status
  status_of-allowed failure now t = elim (Bool-cases (in_grace now t)) [
    | inl within ↦ rw within refl
    | inr past ↦ rw past refl
  ]
  status_of-allowed (answer none) now t = refl
  status_of-allowed (answer (some s)) now t = elim (Bool-cases (s == "active")) [
    | inl active ↦ rw active refl
    | inr other ↦ rw other (elim (Bool-cases (is_revoked s)) [
      | inl revoked ↦ rw revoked (revoked_status-allowed s now t)
      | inr unknown ↦ rw unknown refl
    ])
  ]

  -- A check allows trading exactly when the server says "active", or when the request fails or the
  -- server says "revoked" or "expired" and the stored time is less than 30 days before.
  pub check_once-allowed :
      (reply : Reply) (moment : Moment F) (v : Validator F)
      → (check_once spelling reply moment v).status.trading_allowed ≡ (
          is_valid reply
          || is_covered reply && in_grace moment.now (load_last_valid_ts spelling v.settings))
  unfolding check_once
  check_once-allowed reply moment v =
      status_of-allowed reply moment.now (load_last_valid_ts spelling v.settings)

  -- checks one after the other
  pub run_checks : List (Reply × Moment F) → Validator F → Validator F
  run_checks [] v = v
  run_checks ((reply, moment) ∷ checks) v = run_checks checks (check_once spelling reply moment v)

  saved_invalid :
      (reply : Reply) (moment : Moment F) (d : Dict Row)
      → is_valid reply ≡ false
      → saved spelling reply moment d ≡ d
  unfolding saved
  saved_invalid failure moment d h = refl
  saved_invalid (answer s) moment d h = rw h refl

  time_kept :
      (reply : Reply) (moment : Moment F) (v : Validator F)
      → is_valid reply ≡ false
      → load_last_valid_ts spelling (check_once spelling reply moment v).settings
        ≡ load_last_valid_ts spelling v.settings
  unfolding check_once
  time_kept reply moment v h =
      let s = status_of spelling reply moment.now (load_last_valid_ts spelling v.settings) in
      ap (λ o. time_of spelling o)
        (kept_time spelling s moment.persisted_at (saved spelling reply moment v.settings))
      ∙ ap (λ d. load_last_valid_ts spelling d) (saved_invalid reply moment v.settings h)

  run_checks-time :
      (checks : List (Reply × Moment F)) (v : Validator F)
      → All (λ check. is_valid check.0 ≡ false) checks
      → load_last_valid_ts spelling (run_checks checks v).settings
        ≡ load_last_valid_ts spelling v.settings
  unfolding run_checks
  run_checks-time [] v h = refl
  run_checks-time ((reply, moment) ∷ checks) v (first, rest) =
      run_checks-time checks (check_once spelling reply moment v) rest
      ∙ time_kept reply moment v first

  time_set :
      (moment : Moment F) (v : Validator F)
      → IsFaithful spelling moment.now
      → load_last_valid_ts spelling (check_once spelling (answer (some "active")) moment v).settings
        ≡ some moment.now
  unfolding check_once status_of interpret active_status
  time_set moment v faithful =
      ap (λ o. time_of spelling o)
        (kept_time spelling (active_status moment.now) moment.persisted_at
          (saved spelling (answer (some "active")) moment v.settings))
      ∙ status_of-time spelling (answer (some "active")) moment v.settings faithful

  -- After the server said "active", and any number of checks at any times at which it did not, a
  -- check that fails or finds the license revoked or expired allows trading exactly as long as 30
  -- days have not passed since that answer, if the text of its time reads back as that time.
  pub grace_window :
      (valid : Moment F) (v : Validator F) (checks : List (Reply × Moment F)) (reply : Reply)
      (moment : Moment F)
      → IsFaithful spelling valid.now
      → All (λ check. is_valid check.0 ≡ false) checks
      → is_valid reply ≡ false
      → is_covered reply ≡ true
      → let before = run_checks checks (check_once spelling (answer (some "active")) valid v) in
        (check_once spelling reply moment before).status.trading_allowed
        ≡ (moment.now ⊖ valid.now <? lit 2_592_000 0)
  grace_window valid v checks reply moment faithful invalid hv hc =
      let after = check_once spelling (answer (some "active")) valid v in
      check_once-allowed reply moment (run_checks checks after)
      ∙ rw hv (
          rw hc (
            ap (λ t. in_grace moment.now t)
              (run_checks-time checks after invalid ∙ time_set valid v faithful)))
