-- ===== src/Tests/Control.antt =====
-- A database with a few settings and two lists, and patches that the handlers accept, refuse, or write in
-- part.
use quick_stock_bot.Prelude.{
  ◌≡◌, refl, true, false, [], ◌∷◌, none, some, ok, err, Error, mem, ◌==◌, if◌then◌else◌,
}
use quick_stock_bot.Prelude.Int.{pos}
use quick_stock_bot.Prelude.Action.{◌>>=◌, gets, lift, modify, pure}
use quick_stock_bot.Num.Fixed.{Fixed, fixed_float}
use quick_stock_bot.License.{failure, check_once, value_at}
use quick_stock_bot.Control.Values.{flag, text, Conversions, to_int, to_float}
use quick_stock_bot.Control.Database.{Database, set_setting}
use quick_stock_bot.Control.Settings.{Settings, handle_get_settings, build_settings_response}
use quick_stock_bot.Control.Update.{Patch, handle_update_settings, accepted, without, serialized}
use quick_stock_bot.Control.Update.Outcomes.{
  Updates, Failure, handle_update_settings-Updates, handle_update_settings-Failure,
}
use quick_stock_bot.Control.Lists.{get_list_symbols, handle_update_lists}
use quick_stock_bot.Control.Lists.Members.{handle_update_lists-members}
use quick_stock_bot.Control.Notices.{license_notice}
use quick_stock_bot.Control.Notices.Reported.{expected, check_once-license_notice}
use quick_stock_bot.Control.Dispatch.{Params, Tools}
use quick_stock_bot.Tests.Fixtures.{c}
use quick_stock_bot.Tests.License.{spelling, day, installed}

abbrev pub conv : Conversions Fixed
conv = record {
  show_int = λ n. "5";
  show_float = λ x. "5.0";
  show_list = λ xs. "[]";
  read_int = λ s. if s == "5" then some (pos 5) else none;
  read_float = λ s. if s == "5.0" then some (c 500) else none;
  lower = λ s. s;
  dumps = λ xs. "[]";
  loads = λ s. none;
}

abbrev pub database : Database Fixed
database = record {
  settings = ("paper_trading", "true") ∷ ("daily_risk_pct", "5.0") ∷ [];
  lists =
      record { symbol = "AAPL"; list_type = "watchlist"; active = true }
      ∷ record { symbol = "MSFT"; list_type = "blacklist"; active = true }
      ∷ [];
  run_days = [];
  trades = [];
  orders = [];
  tickers = [];
}

-- the second value is no number
abbrev broken : Patch Fixed
broken = ("auto_trade", flag true) ∷ ("max_positions", text "many") ∷ []

abbrev pub auto : Patch Fixed
auto = ("auto_trade", flag true) ∷ []

abbrev pub unconfirmed : Patch Fixed
unconfirmed = ("paper_trading", flag false) ∷ []

-- the answer to the update
updated :
    (response : Settings Fixed) × ((handle_update_settings conv auto database).0 ≡ ok response)
unfolding handle_update_settings accepted without to_float serialized handle_get_settings
    build_settings_response fixed_float ◌>>=◌ gets lift modify pure set_setting
updated = (_, refl)

handle_update_settings-Updates_example :
    Updates conv auto updated.0 database (handle_update_settings conv auto database).1
handle_update_settings-Updates_example =
    handle_update_settings-Updates conv auto database (refl, tt) updated.1

partly_written : (handle_update_settings conv broken database).0 ≡ err Error.value_error
unfolding handle_update_settings accepted without to_float serialized to_int fixed_float ◌>>=◌ gets
    lift modify set_setting
partly_written = refl

handle_update_settings-Failure_example :
    Failure conv broken database (handle_update_settings conv broken database).1
handle_update_settings-Failure_example =
    handle_update_settings-Failure conv broken database (refl, (refl, tt)) partly_written

handle_update_lists-members_example :
    let response =
      (handle_update_lists
        (λ s t. true)
        (record { watchlist = some ("NVDA" ∷ []); blacklist = none })
        database).0 in
    (mem "NVDA" response.watchlist ≡ true)
    × (mem "NVDA" response.blacklist
        ≡ mem "NVDA" (get_list_symbols (λ s t. true) database "blacklist"))
handle_update_lists-members_example =
    handle_update_lists-members (λ s t. true)
      (record { watchlist = some ("NVDA" ∷ []); blacklist = none }) database "NVDA"

check_once-license_notice_example :
    let v = check_once spelling failure (day 1) installed in
    license_notice spelling.lower (λ k. value_at k v.settings) ≡ expected v.status
check_once-license_notice_example =
    check_once-license_notice spelling failure (day 1) installed refl refl

abbrev pub tools : Tools Fixed
tools = record {
  conv = conv;
  readers = record {
    iso = λ n. "";
    read_macd = λ s. none;
    read_texts = λ s. none;
    day_start = λ s. none;
  };
  before = λ s t. true;
  read_account = λ s. none;
}

abbrev pub with_patch : Patch Fixed → Params Fixed
with_patch patch = record {
  symbol = "AAPL";
  patch = patch;
  lists = record { watchlist = none; blacklist = none };
  limit = pos 10;
  offset = pos 0;
  order_id = "";
  log_filter = record { categories = []; min_level = "info" };
  start = none;
  end_ = none;
}

-- live trading was confirmed before
abbrev pub live : Database Fixed
live = record database { settings = ("paper_trading", "false") ∷ [] }
