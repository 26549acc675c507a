-- ===== src/License.antt =====
-- bot/src/bot/license/validator.py: the license check and its grace window. The settings table keeps
-- the time of the last valid answer and the last status.
pub mod Restart
pub mod Grace
pub mod Allowed
use quick_stock_bot.Prelude.{
  Bool, true, false, ◌||◌, String, Option, none, some, ◌==◌, if◌then◌else◌,
}
use quick_stock_bot.Prelude.Int.{ℤ}
use quick_stock_bot.Prelude.Dict.{Dict, insert, lookup}
use quick_stock_bot.Num.{Float, lit, ◌⊖◌, ◌<?◌}
use Prim.Native.String.{◌++◌}

-- a row of the table `settings`
pub record Row : Type 0 where
  pub value : String
  pub updated_at : ℤ

pub record LicenseStatus (F : Type 0) : Type 0 where
  pub state : String
  pub trading_allowed : Bool
  pub reason : String
  pub last_valid_ts : Option F

-- what the request brings: any exception, or the field `status` of the answer
pub data Reply : Type 0 where
  failure : Reply
  answer : Option String → Reply

-- Python's texts of values: `str(x)` and `float(s)` of floats, `s.lower()`, and `repr` of a status
pub record Spelling (F : Type 0) : Type 0 where
  pub show : F → String
  pub read : String → Option F
  pub lower : String → String
  pub repr : Option String → String

-- the readings of the clock during one check
pub record Moment (F : Type 0) : Type 0 where
  pub now : F
  pub saved_at : ℤ
  pub persisted_at : ℤ

-- the fields of `LicenseValidator` that change
pub record Validator (F : Type 0) : Type 0 where
  pub settings : Dict Row
  pub status : LicenseStatus F

abbrev pub key_last_valid_ts : String
key_last_valid_ts = "_license_last_valid_ts"

abbrev pub key_status : String
key_status = "_license_cached_status"

abbrev pub key_trading_allowed : String
key_trading_allowed = "_license_trading_allowed"

abbrev pub key_reason : String
key_reason = "_license_reason"

-- `INSERT OR REPLACE INTO settings`
abbrev pub put : String → String → ℤ → Dict Row → Dict Row
put key value updated_at = insert key (record { value = value; updated_at = updated_at })

-- `SELECT value FROM settings WHERE key = ?`
abbrev pub value_at : String → Dict Row → Option String
value_at key d = elim (lookup key d) [ none ↦ none | some row ↦ some row.value ]

-- `x or default`, of a text that may be missing
abbrev pub or_text : Option String → String → String
or_text none default = default
or_text (some s) default = if s == "" then default else s

-- "revoked" and "expired"
abbrev pub is_revoked : String → Bool
is_revoked s = s == "revoked" || s == "expired"

abbrev pub is_active : Option String → Bool
is_active none = false
is_active (some s) = s == "active"

module _ {F : Type 0} ⦃num : Float F⦄ where
  -- the test of the grace window
  abbrev pub in_grace : F → Option F → Bool
  in_grace now none = false
  in_grace now (some t) = now ⊖ t <? lit 2_592_000 0

  -- the status of a failed request
  unfoldable pub offline_status : F → Option F → LicenseStatus F
  offline_status now last_valid_ts =
      if in_grace now last_valid_ts
      then record {
        state = "offline";
        trading_allowed = true;
        reason = "validation endpoint unreachable — offline within grace window, trading continues";
        last_valid_ts = last_valid_ts;
      }
      else record {
        state = "offline";
        trading_allowed = false;
        reason = "validation endpoint unreachable — offline past grace window, trading stopped";
        last_valid_ts = last_valid_ts;
      }

  revoked_status : String → F → Option F → LicenseStatus F
  revoked_status server_status now last_valid_ts =
      if in_grace now last_valid_ts
      then record {
        state = "revoked";
        trading_allowed = true;
        reason =
            "license "
            ++ (server_status ++ " — grace period active, trading continues until grace expires");
        last_valid_ts = last_valid_ts;
      }
      else record {
        state = "revoked";
        trading_allowed = false;
        reason = "license " ++ (server_status ++ " — grace period expired, trading stopped");
        last_valid_ts = last_valid_ts;
      }

  active_status : F → LicenseStatus F
  active_status now = record {
    state = "active";
    trading_allowed = true;
    reason = "license valid and active";
    last_valid_ts = some now;
  }

module _ {F : Type 0} ⦃num : Float F⦄ (spelling : Spelling F) where
  open spelling use {show, read, lower, repr}

  unknown_status : Option String → Option F → LicenseStatus F
  unknown_status server_status last_valid_ts = record {
    state = "unknown";
    trading_allowed = false;
    reason = "unexpected server status: " ++ repr server_status;
    last_valid_ts = last_valid_ts;
  }

  interpret : Option String → F → Option F → LicenseStatus F
  unfolding revoked_status active_status unknown_status
  interpret none now last_valid_ts = unknown_status none last_valid_ts
  interpret (some s) now last_valid_ts =
      if s == "active"
      then active_status now
      else if is_revoked s
      then revoked_status s now last_valid_ts
      else unknown_status (some s) last_valid_ts

  -- a stored time; a text that is empty or is no number counts as missing
  abbrev time_of : Option String → Option F
  time_of none = none
  time_of (some s) = if s == "" then none else read s

  abbrev pub load_last_valid_ts : Dict Row → Option F
  load_last_valid_ts d = time_of (value_at key_last_valid_ts d)

  abbrev save_last_valid_ts : F → ℤ → Dict Row → Dict Row
  save_last_valid_ts ts at = put key_last_valid_ts (show ts) at

  abbrev pub persist : LicenseStatus F → ℤ → Dict Row → Dict Row
  persist status at d = put key_reason status.reason at (
      put key_trading_allowed (if status.trading_allowed then "true" else "false") at
        (put key_status status.state at d))

  -- the status from the four stored values
  cached : Option String → Option String → Option String → Option String → LicenseStatus F
  cached status allowed reason last_valid = record {
    state = elim status [ none ↦ "unknown" | some s ↦ s ];
    trading_allowed = let text = lower (or_text allowed "false") in text == "true" || text == "1";
    reason = or_text reason "no validation performed yet";
    last_valid_ts = time_of last_valid;
  }

  load_cached : Dict Row → LicenseStatus F
  unfolding cached
  load_cached d =
      cached (value_at key_status d) (value_at key_trading_allowed d) (value_at key_reason d)
        (value_at key_last_valid_ts d)

  -- `__init__`, on a database
  unfoldable pub start : Dict Row → Validator F
  unfolding load_cached
  start d = record { settings = d; status = load_cached d }

  -- the status that a check computes
  pub status_of : Reply → F → Option F → LicenseStatus F
  unfolding interpret
  status_of failure now last_valid_ts = offline_status now last_valid_ts
  status_of (answer server_status) now last_valid_ts = interpret server_status now last_valid_ts

  pub saved : Reply → Moment F → Dict Row → Dict Row
  saved failure moment d = d
  saved (answer server_status) moment d =
      if is_active server_status then save_last_valid_ts moment.now moment.saved_at d else d

  -- `check_once`; its result is the status that it leaves
  unfoldable pub check_once : Reply → Moment F → Validator F → Validator F
  unfolding status_of saved
  check_once reply moment v =
      let status = status_of reply moment.now (load_last_valid_ts v.settings) in
      record {
        settings = persist status moment.persisted_at (saved reply moment v.settings);
        status = status;
      }
