-- ===== src/License/Allowed.antt =====
-- bot/src/bot/license/validator.py: the conditions under which a check allows trading.
use quick_stock_bot.Prelude.{
  true, false, ◌&&◌, ◌||◌, none, some, ◌≡◌, ◌==◌, ◌↔◌, ◌∙◌, sym, refl, arith, eq_iff, inl, inr,
  Bool-cases, Option-cases,
}
use quick_stock_bot.Prelude.Dict.{Dict, lookup}
use quick_stock_bot.Num.{Float, lit, ◌⊖◌, ◌≺◌}
use quick_stock_bot.License.{
  Row, Reply, failure, answer, Spelling, Moment, Validator, load_last_valid_ts, check_once,
  in_grace,
}
use quick_stock_bot.License.Grace.{is_valid, is_covered, check_once-allowed}

module _ {F : Type 0} ⦃num : Float F⦄ (spelling : Spelling F) where
  -- the settings keep a time that is less than 30 days, of 86 400 seconds, before `now`
  pub record IsRecent (d : Dict Row) (now : F) : Type 0 where
    pub row : Row
    pub time : F
    pub stored : lookup "_license_last_valid_ts" d ≡ some row
    pub filled : (row.value == "") ≡ false
    pub reads : spelling.read row.value ≡ some time
    pub recent : now ⊖ time ≺ lit 2_592_000 0

  -- why a check allows trading
  pub data IsAllowed (d : Dict Row) (now : F) : Reply → Type 0 where
    valid : IsAllowed d now (answer (some "active"))
    offline : IsRecent d now → IsAllowed d now failure
    revoked : IsRecent d now → IsAllowed d now (answer (some "revoked"))
    expired : IsRecent d now → IsAllowed d now (answer (some "expired"))

  IsRecent-of_grace :
      (d : Dict Row) (now : F)
      → in_grace now (load_last_valid_ts spelling d) ≡ true
      → IsRecent d now
  IsRecent-of_grace d now h = elim (Option-cases (lookup "_license_last_valid_ts" d)) [
    | inl missing ↦ absurd (ground arith)
    | inr (row, stored) ↦ elim (Option-cases (spelling.read row.value)) [
      | inl unread ↦ absurd (ground arith)
      | inr (time, reads) ↦ record {
        row = row;
        time = time;
        stored = stored;
        filled = ground arith;
        reads = reads;
        recent = ground arith;
      }
    ]
  ]

  grace-of_IsRecent :
      (d : Dict Row) (now : F)
      → IsRecent d now
      → in_grace now (load_last_valid_ts spelling d) ≡ true
  grace-of_IsRecent d now r = ground (arith, r.stored, r.filled, r.reads, r.recent)

  IsAllowed-because :
      (reply : Reply) (d : Dict Row) (now : F)
      → (is_valid reply || is_covered reply && in_grace now (load_last_valid_ts spelling d)) ≡ true
      → IsAllowed d now reply
  IsAllowed-because failure d now h = offline (IsRecent-of_grace d now h)
  IsAllowed-because (answer none) d now h = absurd (ground arith)
  IsAllowed-because (answer (some s)) d now h = elim (Bool-cases (s == "active")) [
    | inl is_active ↦ rw ((eq_iff s "active").0 is_active) valid
    | inr not_active ↦ elim (Bool-cases (s == "revoked")) [
      | inl is_lost ↦
          rw ((eq_iff s "revoked").0 is_lost) (revoked (IsRecent-of_grace d now (ground arith)))
      | inr not_lost ↦ elim (Bool-cases (s == "expired")) [
        | inl is_past ↦
            rw ((eq_iff s "expired").0 is_past) (expired (IsRecent-of_grace d now (ground arith)))
        | inr not_past ↦ absurd (ground arith)
      ]
    ]
  ]

  trades-of_IsAllowed :
      (reply : Reply) (d : Dict Row) (now : F)
      → IsAllowed d now reply
      → (is_valid reply || is_covered reply && in_grace now (load_last_valid_ts spelling d)) ≡ true
  trades-of_IsAllowed reply d now valid = refl
  trades-of_IsAllowed reply d now (offline r) = grace-of_IsRecent d now r
  trades-of_IsAllowed reply d now (revoked r) = rw (grace-of_IsRecent d now r) refl
  trades-of_IsAllowed reply d now (expired r) = rw (grace-of_IsRecent d now r) refl

  -- A check allows trading exactly when the server says "active", or when the request fails or the
  -- server says "revoked" or "expired" and the settings keep under "_license_last_valid_ts" a text that
  -- is not empty and reads as a time less than 2 592 000 seconds before.
  pub trading_allowed_iff :
      (reply : Reply) (moment : Moment F) (v : Validator F)
      → ((check_once spelling reply moment v).status.trading_allowed ≡ true)
        ↔ IsAllowed v.settings moment.now reply
  trading_allowed_iff reply moment v =
      let same = check_once-allowed spelling reply moment v in
      (
        λ h. IsAllowed-because reply v.settings moment.now (sym same ∙ h),
        λ h. same ∙ trades-of_IsAllowed reply v.settings moment.now h,
      )
