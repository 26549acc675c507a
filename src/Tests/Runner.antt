-- ===== src/Tests/Runner.antt =====
-- The loops of run.py on a database without a daily loss limit, and the migration of two settings.
use quick_stock_bot.Prelude.{◌≡◌, refl, true, String, List, [], ◌∷◌, some}
use quick_stock_bot.Prelude.Int.{pos}
use quick_stock_bot.Prelude.Dict.{lookup}
use quick_stock_bot.Num.Fixed.{Fixed, fixed_float}
use quick_stock_bot.Engine.Config.{ExecutionConfig}
use quick_stock_bot.Engine.Breaker.{flatten_if, check_daily_limits}
use quick_stock_bot.Scanner.Candidates.{scan_candidates}
use quick_stock_bot.Scanner.Candidates.Passes.{scan_candidates_without_news}
use quick_stock_bot.Control.Values.{Json, number, coerce_int}
use quick_stock_bot.Control.Database.{get_all_settings_raw, setting_defaults}
use quick_stock_bot.Control.Settings.{raw_get}
use quick_stock_bot.Runner.Config.{execution_config_of}
use quick_stock_bot.Runner.Config.Defaults.{check_daily_limits_halts}
use quick_stock_bot.Runner.Migration.{load_config_json_into_db}
use quick_stock_bot.Runner.Migration.Kept.{migrated, migrate-migrated}
use quick_stock_bot.Tests.Fixtures.{c, morning}
use quick_stock_bot.Tests.Control.{conv, database}
use quick_stock_bot.Tests.Scanner.{setup, window, idle}

-- the configuration of the session
started :
    (cfg : ExecutionConfig Fixed) × (execution_config_of conv (get_all_settings_raw database)
      ≡ some cfg)
unfolding execution_config_of get_all_settings_raw setting_defaults raw_get coerce_int
started = (_, refl)

check_daily_limits_halts_example :
    let (s, action) = check_daily_limits morning (c 0) (c 0) started.0 in
    (s.halted ≡ true) × (action ≡ flatten_if started.0.flatten_on_max_loss)
unfolding fixed_float
check_daily_limits_halts_example =
    check_daily_limits_halts conv database started.0 morning (c 0) (c 0) refl started.1 refl refl

scan_candidates_without_news_example :
    (scan_candidates setup window ("AAPL" ∷ []) (pos 1_705_332_600_000_000) idle).0 ≡ []
scan_candidates_without_news_example =
    scan_candidates_without_news setup window ("AAPL" ∷ []) (pos 1_705_332_600_000_000) idle refl
      refl

abbrev entries : List (String × Json Fixed)
entries = ("daily_risk_pct", number (c 200)) ∷ ("stop_loss_pct", number (c 100)) ∷ []

migrate-migrated_example :
    lookup "daily_risk_pct" (load_config_json_into_db conv (some entries) database).settings
    ≡ migrated conv "daily_risk_pct" entries (some "5.0")
migrate-migrated_example = migrate-migrated conv "daily_risk_pct" entries database
