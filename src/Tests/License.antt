-- ===== src/Tests/License.antt =====
-- A license that is valid on one day, then out of reach, then revoked.
use quick_stock_bot.Prelude.{
  ◌↔◌, true, ℕ, ◌*◌, false, String, List, [], ◌∷◌, Option, none, some, ◌==◌, ◌≡◌, refl,
  if◌then◌else◌,
}
use quick_stock_bot.Prelude.Int.{pos}
use quick_stock_bot.Num.{lit, ◌⊖◌, ◌<?◌}
use quick_stock_bot.Num.Fixed.{Fixed, fixed_float}
use quick_stock_bot.License.{Reply, failure, answer, Spelling, Moment, Validator, start, check_once}
use quick_stock_bot.License.Restart.{IsFaithful, check_once-start}
use quick_stock_bot.License.Allowed.{IsAllowed, trading_allowed_iff}
use quick_stock_bot.License.Grace.{run_checks, grace_window}
use quick_stock_bot.Tests.Fixtures.{c}

abbrev days : ℕ → Fixed
days n = c (n * 8_640_000)

-- the texts of the few values that the example has
abbrev show : Fixed → String
show (pos n) = "86400.0"
show _ = "-1.0"

abbrev read : String → Option Fixed
read s = if s == "86400.0" then some (days 1) else none

abbrev pub spelling : Spelling Fixed
spelling = record {
  show = show;
  read = read;
  lower = λ s. s;
  repr = λ o. elim o [ none ↦ "None" | some s ↦ s ];
}

abbrev pub day : ℕ → Moment Fixed
day n = record { now = days n; saved_at = pos (n * 86400); persisted_at = pos (n * 86400) }

day_1-IsFaithful : IsFaithful spelling (days 1)
day_1-IsFaithful = record {
  time_reads = refl;
  time_shows = refl;
  lower_true = refl;
  lower_false = refl;
}

abbrev pub installed : Validator Fixed
installed = record {
  settings = [];
  status = record {
    state = "unknown";
    trading_allowed = false;
    reason = "no validation performed yet";
    last_valid_ts = none;
  };
}

check_once-start_example :
    (start spelling
      (check_once spelling (answer (some "active")) (day 1) installed).settings).status
    ≡ (check_once spelling (answer (some "active")) (day 1) installed).status
check_once-start_example =
    check_once-start spelling (answer (some "active")) (day 1) installed day_1-IsFaithful

trading_allowed_iff_example :
    ((check_once spelling failure (day 2) installed).status.trading_allowed ≡ true)
    ↔ IsAllowed spelling installed.settings (day 2).now failure
trading_allowed_iff_example = trading_allowed_iff spelling failure (day 2) installed

abbrev checks : List (Reply × Moment Fixed)
checks = (failure, day 5) ∷ (answer (some "revoked"), day 12) ∷ []

grace_window_example :
    let before =
      run_checks spelling checks (check_once spelling (answer (some "active")) (day 1) installed) in
    (check_once spelling (answer (some "expired")) (day 30) before).status.trading_allowed
    ≡ ((day 30).now ⊖ (day 1).now <? lit 2_592_000 0)
grace_window_example =
    grace_window spelling (day 1) installed checks (answer (some "expired")) (day 30)
      day_1-IsFaithful (refl, (refl, tt)) refl refl
