-- ===== src/Runner/Config/Defaults.antt =====
-- bot/run.py: the daily loss limit of a database that has none stored.
use mathlib.Core.Path.{subst}
use quick_stock_bot.Prelude.{
  ℕ, true, false, String, [], ◌∷◌, Option, none, some, Bool-cases, ◌≡◌, refl, ◌∙◌, ap, arith, inl,
  inr, ◌==◌,
}
use quick_stock_bot.Prelude.Dict.{Dict, lookup, insert, lookup-insert}
use quick_stock_bot.Num.{Float, lit, ◌≼◌}
use quick_stock_bot.Engine.Config.{ExecutionConfig, TargetMode, ExitMode, TrailTrigger}
use quick_stock_bot.Engine.Breaker.{
  DailyState, total_pnl_pct, flatten_if, check_limits, check_daily_limits,
}
use quick_stock_bot.Control.Values.{Conversions, coerce_float}
use quick_stock_bot.Control.Database.{Database, get_all_settings_raw, overlay, setting_defaults}
use quick_stock_bot.Control.Settings.{Raw, raw_get}
use quick_stock_bot.Runner.Config.{execution_config_of, assembled, filled}

-- whatever the value is, if there is one, it satisfies `P`
Holds : {A : Type 0} → (A → Type 0) → Option A → Type 0
Holds P none = Unit
Holds P (some a) = P a

held : {A : Type 0} (P : A → Type 0) (o : Option A) {a : A} → Holds P o → o ≡ some a → P a
unfolding Holds
held P o h e = subst (Holds P) e h

lookup-overlay :
    (j : String) (rows : Dict String) (result : Raw)
    → lookup j rows ≡ none
    → lookup j (overlay rows result) ≡ lookup j result
unfolding overlay
lookup-overlay j [] result h = refl
lookup-overlay j ((key, value) ∷ rows) result h = elim (Bool-cases (key == j)) [
  | inl same ↦ absurd (ground (arith, h, same))
  | inr other ↦
      lookup-overlay j rows (insert key (some value) result) (rw (other) at h)
      ∙ lookup-insert key j (some value) result
      ∙ rw (other) refl
]

module _ {F : Type 0} ⦃num : Float F⦄ (conv : Conversions F) where
  HasLimit : Raw → ExecutionConfig F → Type 0
  HasLimit raw cfg =
      cfg.daily_max_loss_pct ≡ coerce_float conv (raw_get "daily_max_loss_pct" raw) (lit 5 0)

  assembled-HasLimit :
      (raw : Raw) (n : Option ℕ) (target : Option TargetMode) (exits : Option ExitMode)
      (trigger : Option TrailTrigger)
      → Holds (HasLimit raw) (assembled conv raw n target exits trigger)
  unfolding assembled filled HasLimit Holds
  assembled-HasLimit raw none target exits trigger = tt
  assembled-HasLimit raw (some n) none exits trigger = tt
  assembled-HasLimit raw (some n) (some target) none trigger = tt
  assembled-HasLimit raw (some n) (some target) (some exits) none = tt
  assembled-HasLimit raw (some n) (some target) (some exits) (some trigger) = refl

  execution_config_of-HasLimit : (raw : Raw) → Holds (HasLimit raw) (execution_config_of conv raw)
  unfolding execution_config_of
  execution_config_of-HasLimit raw = assembled-HasLimit raw _ _ _ _

  default_limit :
      (db : Database F) (cfg : ExecutionConfig F)
      → lookup "daily_max_loss_pct" db.settings ≡ none
      → execution_config_of conv (get_all_settings_raw db) ≡ some cfg
      → cfg.daily_max_loss_pct ≡ lit 5 0
  unfolding HasLimit raw_get coerce_float get_all_settings_raw setting_defaults
  default_limit db cfg missing e =
      let found =
        held (HasLimit (get_all_settings_raw db)) _
          (execution_config_of-HasLimit (get_all_settings_raw db)) e in
      let stored = lookup-overlay "daily_max_loss_pct" db.settings setting_defaults missing in
      let absent : raw_get "daily_max_loss_pct" (get_all_settings_raw db) ≡ none =
        ap (λ (o : Option (Option String)). elim o [ none ↦ none | some v ↦ v ]) stored in
      found ∙ ap (λ (o : Option String). coerce_float conv o (lit 5 0)) absent

  -- If the settings have no daily loss limit, the session that the trading loop starts is halted by its
  -- first check of the limits, and flattened if so configured, unless the day has gained more than five
  -- percent: the limit is then taken to be plus five percent.
  pub check_daily_limits_halts :
      (db : Database F) (cfg : ExecutionConfig F) (s : DailyState F) (realized unrealized : F)
      → lookup "daily_max_loss_pct" db.settings ≡ none
      → execution_config_of conv (get_all_settings_raw db) ≡ some cfg
      → s.halted ≡ false
      → total_pnl_pct (record s { realized_pnl = realized; unrealized_pnl = unrealized }) ≼ lit 5 0
      → let (s', action) = check_daily_limits s realized unrealized cfg in
        (s'.halted ≡ true) × (action ≡ flatten_if cfg.flatten_on_max_loss)
  unfolding check_daily_limits check_limits
  check_daily_limits_halts db cfg s realized unrealized missing e running low =
      rw (running) (rw (default_limit db cfg missing e) (rw (low) (refl, refl)))
