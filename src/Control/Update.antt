-- ===== src/Control/Update.antt =====
-- bot/src/bot/control/handlers.py: `handle_update_settings`. A write is seen by every later call on the
-- connection, also when the loop of writes raises afterwards, before its commit.
pub mod Entries
pub mod Guards
pub mod Writes
pub mod Outcomes
use quick_stock_bot.Prelude.{
  Bool, true, false, not, ◌&&◌, ◌||◌, String, List, [], ◌∷◌, Option, none, some, Result, ok, err,
  Error, mem, ◌==◌, is_some, if◌then◌else◌,
}
use quick_stock_bot.Prelude.Int.{ℤ}
use quick_stock_bot.Prelude.Dict.{Dict, lookup, contains}
use quick_stock_bot.Prelude.Action.{Action, pure, raise, lift, gets, modify, ◌>>=◌, ◌>>◌}
use quick_stock_bot.Num.{Float, lit, ◌≤?◌}
use quick_stock_bot.Control.Values.{
  Json, null, flag, integer, number, text, texts, Conversions, truthy, str, serialize_value, to_int,
  to_float, coerce_bool, coerce_float,
}
use quick_stock_bot.Control.Database.{Database, get_all_settings_raw, set_setting}
use quick_stock_bot.Control.Settings.{
  Settings, Raw, raw_get, or_else, override_on, handle_get_settings,
}

-- `_READ_ONLY`
abbrev pub read_only : List String
read_only = "goal_post_trade_count" ∷ []

-- `_LIST_FIELDS`
abbrev pub list_fields : List String
list_fields = "watchlist" ∷ "blacklist" ∷ "enabled_patterns" ∷ []

-- `_BOOL_FIELDS`
abbrev pub bool_fields : List String
bool_fields =
    "paper_trading" ∷ "auto_trade" ∷ "risk_override_enabled" ∷ "include_unknown_float"
    ∷ "require_news" ∷ "macd_enforce_above_zero" ∷ "override_risk_per_trade"
    ∷ "flatten_on_daily_loss" ∷ "flatten_on_daily_profit" ∷ "trailing_stop_enabled"
    ∷ "force_close_at_close" ∷ []

-- `_INT_FIELDS`
abbrev pub int_fields : List String
int_fields =
    "max_positions" ∷ "macd_fast" ∷ "macd_slow" ∷ "macd_signal" ∷ "scanner_refresh_seconds"
    ∷ "max_float_shares" ∷ "active_tickers_n" ∷ "pattern_candle_lookback" ∷ "macd_slope_lookback"
    ∷ []

-- `_FLOAT_FIELDS`
abbrev pub float_fields : List String
float_fields =
    "risk_per_trade_pct" ∷ "daily_risk_pct" ∷ "min_score" ∷ "daily_giveback_pct"
    ∷ "pre_open_lead_hours" ∷ "scan_duration_hours" ∷ "relative_volume_min" ∷ "gap_up_min_pct"
    ∷ "prior_profit_bias_weight" ∷ "daily_max_loss_pct" ∷ "daily_profit_target_pct"
    ∷ "trail_off_fraction_per_candle" ∷ "stop_loss_pct" ∷ "take_profit_pct" ∷ "trailing_stop_pct"
    ∷ []

abbrev pub Patch : Type 0 → Type 0
Patch F = Dict (Json F)

-- `patch.pop(key, None)` and `del patch[key]`: what is left
unfoldable pub without : {F : Type 0} → String → Patch F → Patch F
without key [] = []
without key ((k, v) ∷ patch) = if k == key then without key patch else (k, v) ∷ without key patch

module _ {F : Type 0} ⦃num : Float F⦄ where
  unfoldable pub truthy_at : String → Patch F → Bool
  truthy_at key patch = elim (lookup key patch) [ none ↦ false | some v ↦ truthy v ]

  -- the patch turns paper trading off
  pub goes_live : Patch F → Bool
  goes_live patch = elim (lookup "paper_trading" patch) [ none ↦ false | some v ↦ not (truthy v) ]

  -- `patch.get(first, patch.get(second, default))`
  pub get_either : String → String → Json F → Patch F → Json F
  get_either first second default patch = elim (lookup first patch) [
    | some v ↦ v
    | none ↦ elim (lookup second patch) [ some v ↦ v | none ↦ default ]
  ]

  -- `v >= x`; a text or a list cannot be compared with a number
  pub at_least : F → Json F → Result Bool
  at_least x null = err Error.type_error
  at_least x (flag b) = ok (x ≤? (if b then lit 1 0 else lit 0 0))
  at_least x (integer n) = ok (x ≤? num.of_int n)
  at_least x (number y) = ok (x ≤? y)
  at_least x (text s) = err Error.type_error
  at_least x (texts items) = err Error.type_error

module _ {F : Type 0} ⦃num : Float F⦄ (conv : Conversions F) where
  -- a text overrides when it is "true" or "1"
  pub as_override : Json F → Bool
  as_override (text s) = (conv.lower s == "true") || (conv.lower s == "1")
  as_override null = truthy {F = F} null
  as_override (flag b) = b
  as_override (integer n) = truthy {F = F} (integer n)
  as_override (number x) = truthy (number x)
  as_override (texts items) = truthy {F = F} (texts items)

  pub new_override : Patch F → Raw → Bool
  unfolding get_either as_override
  new_override patch raw = as_override (
      get_either "override_risk_per_trade" "risk_override_enabled" (flag (override_on conv raw))
        patch)

  pub new_daily : Patch F → Raw → Result F
  unfolding get_either
  new_daily patch raw =
      elim (to_float conv (
        get_either "daily_max_loss_pct" "daily_risk_pct"
          (number (
            coerce_float conv
              (or_else (raw_get "daily_max_loss_pct" raw) (raw_get "daily_risk_pct" raw))
              (lit 5 0)))
          patch)) [ err e ↦ err e | ok x ↦ ok (num.abs x) ]

  -- the rule on `risk_per_trade_pct`: the patch that is left
  pub check_risk : F → Bool → Patch F → Option (Json F) → Result (Patch F)
  unfolding at_least
  check_risk daily override patch none = ok patch
  check_risk daily override patch (some risk) =
      if override
      then elim (at_least daily risk) [
        | err e ↦ err e
        | ok too_high ↦ if too_high then err Error.value_error else ok patch
      ]
      else ok (without "risk_per_trade_pct" patch)

  pub with_daily : Raw → Patch F → Result F → Result (Patch F)
  unfolding check_risk new_override
  with_daily raw patch (err e) = err e
  with_daily raw patch (ok daily) =
      check_risk daily (new_override patch raw) patch (lookup "risk_per_trade_pct" patch)

  -- the checks before the writes
  unfoldable pub accepted : Raw → Patch F → Result (Patch F)
  unfolding goes_live truthy_at with_daily new_daily
  accepted raw patch =
      let rest = without "live_mode_confirmed" patch in
      if goes_live rest && not (truthy_at "live_mode_confirmed" patch)
      then err Error.value_error
      else with_daily raw rest (new_daily rest raw)

  -- `str(val) if val is not None else ""`
  pub str_or_empty : Json F → String
  str_or_empty null = ""
  str_or_empty (flag b) = str conv (flag b)
  str_or_empty (integer n) = str conv (integer n)
  str_or_empty (number x) = str conv (number x)
  str_or_empty (text s) = s
  str_or_empty (texts items) = str conv (texts items)

  -- the text of a value under a key, `none` for a read-only key
  unfoldable pub serialized : String → Json F → Result (Option String)
  unfolding str_or_empty
  serialized key val =
      if mem key read_only
      then ok none
      else if mem key list_fields
      then ok (some (serialize_value conv val))
      else if mem key bool_fields
      then ok (some (if truthy val then "true" else "false"))
      else if mem key int_fields
      then elim (to_int conv val) [ err e ↦ err e | ok n ↦ ok (some (conv.show_int n)) ]
      else if mem key float_fields
      then elim (to_float conv val) [ err e ↦ err e | ok x ↦ ok (some (conv.show_float x)) ]
      else ok (some (str_or_empty val))

  pub write_if : String → Option String → Database F → Database F
  write_if key none db = db
  write_if key (some value) db = set_setting key value db

  -- the loop of writes
  pub write_all : Patch F → Action (Database F) (Unit {0})
  unfolding write_if
  write_all [] = pure tt
  write_all ((key, val) ∷ patch) = do
    value ← lift (serialized key val)
    modify (write_if key value)
    write_all patch

  pub get_settings : Action (Database F) (Settings F)
  get_settings db = (handle_get_settings conv db, db)

  pub update_nonempty : Patch F → Action (Database F) (Settings F)
  unfolding write_all get_settings
  update_nonempty patch = do
    raw ← gets get_all_settings_raw
    patch' ← lift (accepted raw patch)
    write_all patch'
    get_settings

  unfoldable pub handle_update_settings : Patch F → Action (Database F) (Settings F)
  unfolding update_nonempty
  handle_update_settings [] = get_settings
  handle_update_settings ((key, val) ∷ patch) = update_nonempty ((key, val) ∷ patch)
