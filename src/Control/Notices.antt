-- ===== src/Control/Notices.antt =====
-- bot/src/bot/control/handlers.py: `_build_notices`. The settings are read by a function from keys to
-- values.
pub mod Reported
use Prim.Native.String.{◌++◌}
use quick_stock_bot.Prelude.{
  Bool, true, false, ◌||◌, not, String, List, [], ◌∷◌, Option, none, some, ◌==◌, if◌then◌else◌,
}
use mathlib.Core.List.{◌++◌ as ◌<+>◌}
use quick_stock_bot.Prelude.Int.{ℤ}

pub data Severity : Type 0 where
  info warning error : Severity

-- the notices; those of the account carry what the broker reported
pub data Notice : Type 0 where
  license : Severity → Bool → String → Notice
  live_mode : Severity → String → Notice
  account_equity : Severity → String → Notice
  pdt_restricted : Severity → ℤ → String → Notice

-- the snapshot of the account that is kept as JSON
pub record Account : Type 0 where
  pub is_pdt_restricted : Bool
  pub day_trade_count : ℤ

pdt_framework_notice : String
pdt_framework_notice =
    "NOTICE (June 4, 2026 framework): The $25,000 pattern-day-trader minimum "
    ++ "and day-trade counting were eliminated and replaced by a risk-based "
    ++ "intraday-margin standard. The relevant floor is now the $2,000 margin "
    ++ "minimum (min_account_equity_notice). Buying power is "
    ++ "intraday-margin-based. Because brokers may phase the change in through "
    ++ "October 20, 2027, old rules may still apply until your broker (Alpaca) "
    ++ "migrates — the bot defers to Alpaca's reported restrictions (see Section "
    ++ "6). Not financial advice."

live_mode_notice : String
live_mode_notice =
    "NOTICE: Live trading is enabled. Paper trading is recommended for new "
    ++ "users and during strategy validation. This software does not provide "
    ++ "financial advice. You trade at your own risk."

pdt_flag_notice : String
pdt_flag_notice =
    "PDT flag active on your Alpaca account — new entries blocked. This may "
    ++ "reflect old rules still in effect at your broker pending their migration "
    ++ "to the June 4, 2026 framework."

-- `d.get(key, default)`, and `s or default`
value_or : String → Option String → String
value_or default none = default
value_or default (some v) = v

filled_or : String → String → String
filled_or default s = if s == "" then default else s

module _ (lower : String → String) (read : String → Option String) where
  -- the text means true, in lower case
  says_true : String → Bool
  says_true s = (lower s == "true") || (lower s == "1")

  unfoldable pub license_notice : List Notice
  unfolding value_or filled_or says_true
  license_notice =
      let status = value_or "unknown" (read "_license_cached_status") in
      let allowed =
        says_true (filled_or "false" (value_or "false" (read "_license_trading_allowed"))) in
      let reason = value_or "" (read "_license_reason") in
      if status == "active"
      then []
      else license (if allowed then warning else error) allowed
          (filled_or ("license status: " ++ status) reason)
        ∷ []

  unfoldable pub live_notice : List Notice
  unfolding value_or filled_or says_true live_mode_notice
  live_notice =
      if says_true (filled_or "true" (value_or "true" (read "paper_trading")))
      then []
      else live_mode warning live_mode_notice ∷ []

  account_notice : Option Account → List Notice
  unfolding pdt_flag_notice
  account_notice none = []
  account_notice (some a) =
      if a.is_pdt_restricted
      then pdt_restricted warning a.day_trade_count pdt_flag_notice ∷ []
      else []

  unfoldable pub build_notices : Option Account → List Notice
  unfolding account_notice pdt_framework_notice
  build_notices account =
      license_notice
      <+> (live_notice <+> (account_equity info pdt_framework_notice ∷ account_notice account))
