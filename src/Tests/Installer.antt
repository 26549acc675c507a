-- ===== src/Tests/Installer.antt =====
-- Settings that the wizard takes, and some that it does not.
use quick_stock_bot.Prelude.{◌≡◌, refl, true, arith, [], ◌∷◌, ok}
use quick_stock_bot.Prelude.Int.{pos}
use quick_stock_bot.Num.Fixed.{Fixed-IsOrdered, Fixed, fixed_float}
use quick_stock_bot.Control.Values.{integer, number, text, flag, truthy, to_float, to_int}
use quick_stock_bot.Installer.Validator.{
  Entered, get, too_many, validate_scanner_settings, validate_risk_settings,
}
use quick_stock_bot.Installer.Validator.Accepted.{
  IsScannable, validate_scanner_settings-IsScannable,
}
use quick_stock_bot.Installer.Validator.Risk.{
  IsSigned, IsTradable, validate_risk_settings-IsTradable,
}
use quick_stock_bot.Installer.Writer.{ScannerSection, scanner_section}
use quick_stock_bot.Installer.Writer.Sections.{IsComplete, scanner_section_written}
use quick_stock_bot.Tests.Fixtures.{c}
use quick_stock_bot.Tests.Control.{conv}

abbrev scanner : Entered Fixed
scanner = ("active_tickers_n", integer (pos 5)) ∷ ("gap_up_min_pct", text "5.0") ∷ []

scanner_fine : validate_scanner_settings conv scanner ≡ ok []
unfolding validate_scanner_settings get to_int to_float fixed_float
scanner_fine = refl

validate_scanner_settings-IsScannable_example : IsScannable conv scanner
validate_scanner_settings-IsScannable_example =
    validate_scanner_settings-IsScannable conv scanner scanner_fine

abbrev risk : Entered Fixed
risk =
    ("daily_max_loss_pct", number (fixed_float.negate (c 200)))
    ∷ ("override_risk_per_trade", flag true)
    ∷ ("risk_per_trade_pct", number (c 100))
    ∷ ("exit_mode", text "dump")
    ∷ []

risk_fine : validate_risk_settings conv risk ≡ []
unfolding validate_risk_settings get to_float truthy fixed_float
risk_fine = refl

Fixed-IsSigned : IsSigned Fixed
unfolding fixed_float
Fixed-IsSigned = record { hundred = ground arith; abs_number = λ x h. ground arith }

validate_risk_settings-IsTradable_example : IsTradable conv Fixed-IsOrdered Fixed-IsSigned risk
validate_risk_settings-IsTradable_example =
    validate_risk_settings-IsTradable conv Fixed-IsOrdered Fixed-IsSigned risk risk_fine

scanner-IsComplete : IsComplete conv scanner
scanner-IsComplete = record {
  lead = λ e. ground (arith, e);
  duration = λ e. ground (arith, e);
  volume = λ e. ground (arith, e);
  gap = λ e. ground (arith, e);
  shares = λ e. ground (arith, e);
  active = λ e. ground (arith, e);
}

scanner_section_written_example :
    (section : ScannerSection Fixed) × (scanner_section conv (λ s. []) scanner ≡ ok section)
scanner_section_written_example =
    scanner_section_written conv (λ s. []) scanner scanner_fine scanner-IsComplete

too_many_tickers :
    validate_scanner_settings {F = Fixed} conv (("active_tickers_n", integer (pos 51)) ∷ [])
    ≡ ok (("active_tickers_n", too_many (pos 50)) ∷ [])
unfolding validate_scanner_settings get to_int
too_many_tickers = refl
