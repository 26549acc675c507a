-- ===== src/Control/Notices/Reported.antt =====
-- The notice of bot/src/bot/control/handlers.py reports what bot/src/bot/license/validator.py stored.
use Prim.Native.String.{◌++◌}
use quick_stock_bot.Prelude.{
  Bool, true, false, String, List, [], ◌∷◌, Option, some, ◌≡◌, ◌∙◌, arith, ◌==◌, if◌then◌else◌,
}
use quick_stock_bot.Prelude.Int.{ℤ}
use quick_stock_bot.Prelude.Dict.{Dict, lookup-insert}
use quick_stock_bot.Num.{Float}
use quick_stock_bot.License.{
  Row, LicenseStatus, Reply, Spelling, Moment, Validator, check_once, saved, value_at, persist, put,
  key_status, key_trading_allowed, key_reason,
}
use quick_stock_bot.Control.Notices.{
  Notice, license, warning, error, license_notice, value_or, filled_or, says_true,
}

value_at-put :
    (key j value : String) (at : ℤ) (d : Dict Row)
    → value_at j (put key value at d) ≡ (if key == j then some value else value_at j d)
value_at-put key j value at d =
    ground (arith, lookup-insert key j (record { value = value; updated_at = at }) d)

-- what the dashboard should show of a state, a permission and a reason
abbrev shown : String → Bool → String → List Notice
shown state allowed reason =
    if state == "active"
    then []
    else license (if allowed then warning else error) allowed
        (if reason == "" then "license status: " ++ state else reason)
      ∷ []

-- what the dashboard should show of a status
abbrev pub expected : {F : Type 0} → LicenseStatus F → List Notice
expected s = shown s.state s.trading_allowed s.reason

-- the three texts that `persist` leaves
Left : {F : Type 0} → LicenseStatus F → Dict Row → Type 0
Left s d =
    (value_at key_status d ≡ some s.state)
    × (value_at key_trading_allowed d ≡ some (if s.trading_allowed then "true" else "false"))
    × (value_at key_reason d ≡ some s.reason)

persist-Left :
    {F : Type 0} ⦃num : Float F⦄ (spelling : Spelling F) (s : LicenseStatus F) (at : ℤ)
    (d : Dict Row)
    → Left s (persist spelling s at d)
unfolding Left
persist-Left spelling s at d =
    let allowed = if s.trading_allowed then "true" else "false" in
    let d₁ = put key_status s.state at d in
    let d₂ = put key_trading_allowed allowed at d₁ in
    (
      value_at-put key_reason key_status s.reason at d₂
          ∙ value_at-put key_trading_allowed key_status allowed at d₁
          ∙ value_at-put key_status key_status s.state at d,
      value_at-put key_reason key_trading_allowed s.reason at d₂
          ∙ value_at-put key_trading_allowed key_trading_allowed allowed at d₁,
      value_at-put key_reason key_reason s.reason at d₂,
    )

reported :
    (lower : String → String) (read : String → Option String) (state reason : String)
    → (allowed : Bool) → lower "true" ≡ "true"
    → lower "false" ≡ "false"
    → read "_license_cached_status" ≡ some state
    → read "_license_trading_allowed" ≡ some (if allowed then "true" else "false")
    → read "_license_reason" ≡ some reason
    → license_notice lower read ≡ shown state allowed reason
unfolding license_notice value_or filled_or says_true
reported lower read state reason true lt lf e₁ e₂ e₃ =
    rw (e₁) (rw (e₂) (rw (e₃) (rw (lt) (ground arith))))
reported lower read state reason false lt lf e₁ e₂ e₃ =
    rw (e₁) (rw (e₂) (rw (e₃) (rw (lf) (ground arith))))

-- After every check of the license, the notice that the control handler builds from the database is
-- the one of the status that the check left: none when the status is active, otherwise a warning
-- while trading is allowed and an error once it is stopped, with the reason that the check gave. This
-- asks that `lower` keeps the two texts "true" and "false".
pub check_once-license_notice :
    {F : Type 0} ⦃num : Float F⦄ (spelling : Spelling F) (reply : Reply) (moment : Moment F)
    (v : Validator F)
    → spelling.lower "true" ≡ "true"
    → spelling.lower "false" ≡ "false"
    → let v' = check_once spelling reply moment v in
      license_notice spelling.lower (λ k. value_at k v'.settings) ≡ expected v'.status
unfolding check_once Left
check_once-license_notice spelling reply moment v lt lf =
    let v' = check_once spelling reply moment v in
    let (e₁, e₂, e₃) =
      persist-Left spelling v'.status moment.persisted_at
        (saved spelling reply moment v.settings) in
    reported spelling.lower (λ k. value_at k v'.settings) v'.status.state v'.status.reason
      v'.status.trading_allowed lt lf e₁ e₂ e₃
