-- ===== src/Tests/Breaker.antt =====
-- A day of bot/src/bot/engine/circuit_breaker.py.
use quick_stock_bot.Prelude.{true, List, [], ◌∷◌, ◌≡◌, refl}
use mathlib.Core.List.{foldl}
use quick_stock_bot.Prelude.Int.{floor_div, ◌+ℤ◌, ◌-ℤ◌, ◌*ℤ◌}
use quick_stock_bot.Num.{max_f}
use quick_stock_bot.Num.Fixed.{Fixed, fixed_float}
use quick_stock_bot.Engine.Breaker.{DailyState, check_daily_limits, proceed, halt, flatten_and_halt}
use quick_stock_bot.Engine.Breaker.Laws.{
  IsLatched, day_state, day_actions, totals, day_actions-IsLatched, giveback_tracks_peak,
}
use quick_stock_bot.Tests.Fixtures.{c, default_config, morning}

-- up to 4 % and back to 2.5 %
abbrev figures : List (Fixed × Fixed)
figures =
    (c 100_000, c 0)
    ∷ (c 100_000, c 300_000)
    ∷ (c 400_000, c 0)
    ∷ (c 250_000, c 0)
    ∷ (c 100_000, c 0)
    ∷ []

run-day :
    day_actions morning figures default_config
    ≡ proceed ∷ proceed ∷ proceed ∷ flatten_and_halt ∷ halt ∷ []
unfolding day_actions check_daily_limits fixed_float floor_div ◌+ℤ◌ ◌-ℤ◌ ◌*ℤ◌
run-day = refl

day_actions-IsLatched_example : IsLatched (day_actions morning figures default_config)
day_actions-IsLatched_example = day_actions-IsLatched morning figures default_config

abbrev rise : List (Fixed × Fixed)
rise = (c 100_000, c 0) ∷ (c 100_000, c 300_000) ∷ (c 350_000, c 0) ∷ []

rise_proceeds : day_actions morning rise default_config ≡ proceed ∷ proceed ∷ proceed ∷ []
unfolding day_actions check_daily_limits fixed_float floor_div ◌+ℤ◌ ◌-ℤ◌ ◌*ℤ◌
rise_proceeds = refl

giveback_tracks_peak_example :
    (day_state morning rise default_config).daily_pl_high
    ≡ foldl max_f morning.daily_pl_high (totals rise)
unfolding day_actions check_daily_limits fixed_float floor_div ◌+ℤ◌ ◌-ℤ◌ ◌*ℤ◌
giveback_tracks_peak_example =
    giveback_tracks_peak morning rise default_config refl (refl, (refl, (refl, tt)))

abbrev armed : DailyState Fixed
armed = record morning { daily_pl_high = c 400_000; giveback_armed = true }
