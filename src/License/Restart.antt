-- ===== src/License/Restart.antt =====
-- bot/src/bot/license/validator.py: what a restart reads back from the settings.
use Prim.Native.String.{◌++◌}
use text.Mathlib.TextLemmas.{append-eq-nil_iff}
use quick_stock_bot.Prelude.{
  true, false, ◌||◌, String, Option, none, some, ◌≡◌, ◌==◌, ◌∙◌, ap, refl, arith, inl, inr,
  Bool-cases, eq_iff, if◌then◌else◌,
}
use quick_stock_bot.Prelude.Int.{ℤ}
use quick_stock_bot.Prelude.Dict.{Dict, lookup-insert}
use quick_stock_bot.Num.{Float}
use quick_stock_bot.License.{
  Row, LicenseStatus, Reply, failure, answer, Spelling, Moment, Validator, key_last_valid_ts,
  key_status, key_trading_allowed, key_reason, put, value_at, or_text, load_last_valid_ts, persist,
  load_cached, cached, in_grace, start, offline_status, revoked_status, active_status,
  unknown_status, interpret, status_of, saved, check_once, is_revoked,
}

-- A text that begins with a text that is not empty is not empty.
nonempty_prefix : (s t : String) → (s == "") ≡ false → ((s ++ t) == "") ≡ false
nonempty_prefix s t h = elim (Bool-cases ((s ++ t) == "")) [
  | inl empty ↦ absurd (
      ground
        (arith, eq_iff s "", (append-eq-nil_iff {p = s} {q = t}).0 ((eq_iff (s ++ t) "").0 empty)))
  | inr full ↦ full
]

-- the value under a key just written, and under another key
value_at-put :
    (key value : String) (at : ℤ) (d : Dict Row)
    → (key == key) ≡ true
    → value_at key (put key value at d) ≡ some value
value_at-put key value at d h =
    ground (arith, lookup-insert key key (record { value = value; updated_at = at }) d)

value_at-put_other :
    (key other value : String) (at : ℤ) (d : Dict Row)
    → (other == key) ≡ false
    → value_at key (put other value at d) ≡ value_at key d
value_at-put_other key other value at d h =
    ground (arith, lookup-insert other key (record { value = value; updated_at = at }) d)

module _ {F : Type 0} ⦃num : Float F⦄ (spelling : Spelling F) where
  -- What Python promises of the texts that are written and read again, for one reading of the clock:
  -- the text of the time is read as that time, and the two answers are in lower case.
  pub record IsFaithful (now : F) : Type 0 where
    pub time_reads : spelling.read (spelling.show now) ≡ some now
    pub time_shows : (spelling.show now == "") ≡ false
    pub lower_true : spelling.lower "true" ≡ "true"
    pub lower_false : spelling.lower "false" ≡ "false"

  cached-ap :
      {a a' b b' c c' d d' : Option String}
      → a ≡ a'
      → b ≡ b'
      → c ≡ c'
      → d ≡ d'
      → cached spelling a b c d ≡ cached spelling a' b' c' d'
  cached-ap p q r s = cc

  module _ (s : LicenseStatus F) (at : ℤ) (d : Dict Row) where
    abbrev allowed_text : String
    allowed_text = if s.trading_allowed then "true" else "false"

    abbrev with_status : Dict Row
    with_status = put key_status s.state at d

    abbrev with_allowed : Dict Row
    with_allowed = put key_trading_allowed allowed_text at with_status

    kept_status : value_at key_status (persist spelling s at d) ≡ some s.state
    kept_status =
        value_at-put_other key_status key_reason s.reason at with_allowed refl
        ∙ value_at-put_other key_status key_trading_allowed allowed_text at with_status refl
        ∙ value_at-put key_status s.state at d refl

    kept_allowed :
        value_at key_trading_allowed (persist spelling s at d)
        ≡ some (if s.trading_allowed then "true" else "false")
    kept_allowed =
        value_at-put_other key_trading_allowed key_reason s.reason at with_allowed refl
        ∙ value_at-put key_trading_allowed allowed_text at with_status refl

    kept_reason : value_at key_reason (persist spelling s at d) ≡ some s.reason
    kept_reason = value_at-put key_reason s.reason at with_allowed refl

    pub kept_time :
        value_at key_last_valid_ts (persist spelling s at d) ≡ value_at key_last_valid_ts d
    kept_time =
        value_at-put_other key_last_valid_ts key_reason s.reason at with_allowed refl
        ∙ value_at-put_other key_last_valid_ts key_trading_allowed allowed_text at with_status refl
        ∙ value_at-put_other key_last_valid_ts key_status s.state at d refl

    allowed_back :
        (now : F)
        → IsFaithful now
        → let text = spelling.lower (or_text (some allowed_text) "false") in
          (text == "true" || text == "1") ≡ s.trading_allowed
    allowed_back now faithful = elim (Bool-cases s.trading_allowed) [
      | inl allowed ↦ rw allowed (rw faithful.lower_true refl)
      | inr stopped ↦ rw stopped (rw faithful.lower_false refl)
    ]

    -- what is read back after a status was written
    load-persist :
        (now : F)
        → IsFaithful now
        → (s.reason == "") ≡ false
        → load_cached spelling (persist spelling s at d)
          ≡ record s { last_valid_ts = load_last_valid_ts spelling d }
    unfolding load_cached
    load-persist now faithful full =
        cached-ap kept_status kept_allowed kept_reason kept_time
        ∙ ground (arith, allowed_back now faithful, full)

  revoked_status-reason :
      (s : String) (now : F) (t : Option F) → ((revoked_status s now t).reason == "") ≡ false
  unfolding revoked_status
  revoked_status-reason s now t = elim (Bool-cases (in_grace now t)) [
    | inl within ↦ rw within (nonempty_prefix _ _ refl)
    | inr past ↦ rw past (nonempty_prefix _ _ refl)
  ]

  status_of-reason :
      (reply : Reply) (now : F) (t : Option F)
      → ((status_of spelling reply now t).reason == "") ≡ false
  unfolding status_of interpret offline_status revoked_status active_status unknown_status
  status_of-reason failure now t = elim (Bool-cases (in_grace now t)) [
    | inl within ↦ rw within refl
    | inr past ↦ rw past refl
  ]
  status_of-reason (answer none) now t = nonempty_prefix _ _ refl
  status_of-reason (answer (some s)) now t = elim (Bool-cases (s == "active")) [
    | inl active ↦ rw active refl
    | inr other ↦ rw other (elim (Bool-cases (is_revoked s)) [
      | inl revoked ↦ rw revoked (revoked_status-reason s now t)
      | inr unknown ↦ rw unknown (nonempty_prefix _ _ refl)
    ])
  ]

  pub status_of-time :
      (reply : Reply) (moment : Moment F) (d : Dict Row)
      → IsFaithful moment.now
      → load_last_valid_ts spelling (saved spelling reply moment d)
        ≡ (status_of spelling reply moment.now (load_last_valid_ts spelling d)).last_valid_ts
  unfolding status_of interpret offline_status revoked_status active_status unknown_status saved
  status_of-time failure moment d faithful = ground arith
  status_of-time (answer none) moment d faithful = refl
  status_of-time (answer (some s)) moment d faithful = ground (
    arith,
    value_at-put key_last_valid_ts (spelling.show moment.now) moment.saved_at d refl,
    faithful.time_reads,
    faithful.time_shows,
  )

  -- Whatever a check brought, a validator that is started again on the same database has the status
  -- that the check left, if the text of the time of the check reads back as that time.
  pub check_once-start :
      (reply : Reply) (moment : Moment F) (v : Validator F)
      → IsFaithful moment.now
      → (start spelling (check_once spelling reply moment v).settings).status
        ≡ (check_once spelling reply moment v).status
  unfolding check_once start
  check_once-start reply moment v faithful =
      let s = status_of spelling reply moment.now (load_last_valid_ts spelling v.settings) in
      load-persist s moment.persisted_at (saved spelling reply moment v.settings) moment.now
        faithful (status_of-reason reply moment.now (load_last_valid_ts spelling v.settings))
      ∙ ap (λ t. record s { last_valid_ts = t }) (status_of-time reply moment v.settings faithful)
