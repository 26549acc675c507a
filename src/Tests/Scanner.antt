-- ===== src/Tests/Scanner.antt =====
-- A scan of one symbol with the fake client, three similar and unlike symbols, and daylight saving time
-- in 2024.
use quick_stock_bot.Prelude.{
  ℕ, ◌+◌, ◌<◌, ◌≤◌, ◌≡◌, refl, ◌↔◌, true, false, String, List, [], ◌∷◌, none, some, ok, All, arith,
}
use quick_stock_bot.Prelude.Int.{pos}
use quick_stock_bot.Num.{lit}
use quick_stock_bot.Num.Fixed.{Fixed, fixed_float, Fixed-IsOrdered}
use quick_stock_bot.Ta.Config.{default_ta_config}
use quick_stock_bot.Alpaca.Fake.{FakeWorld, fake_market_client, fake_world}
use quick_stock_bot.Scanner.Config.{ScannerConfig, default_scanner_config}
use quick_stock_bot.Scanner.State.{ScanWindow, standalone, TickerState}
use quick_stock_bot.Scanner.Calendar.{
  Civil, is_leap, month_table, days_before_year, ordinal, weekday, et_offset, et_daylight,
}
use quick_stock_bot.Scanner.Calendar.Sundays.{IsSundayFrom, et_offset-daylight_iff}
use quick_stock_bot.Scanner.Fundamentals.{FundamentalsSource, Scanning, get_float_shares}
use quick_stock_bot.Scanner.Fundamentals.Caching.{look_up_all, get_float_shares-once}
use quick_stock_bot.Scanner.Leaders.{score_of, clusters_of, assign_roles}
use quick_stock_bot.Scanner.Leaders.Links.{Linked, IsPair, get_elem?}
use quick_stock_bot.Scanner.Leaders.Groups.{together, clusters_of-Linked}
use quick_stock_bot.Scanner.Leaders.Roles.{unranked}
use quick_stock_bot.Scanner.Leaders.Elections.{AllElected, assign_roles-AllElected}
use quick_stock_bot.Scanner.Candidates.{ScanSetup, scan_candidates}
use quick_stock_bot.Scanner.Candidates.Passes.{IsCandidate, scan_candidates-IsCandidate}
use quick_stock_bot.Scanner.Active.{eligible, build_active_set}
use quick_stock_bot.Scanner.Active.Selection.{IsSelection, build_active_set-IsSelection}
use quick_stock_bot.Tests.Fixtures.{c, uuid4, bullish}

abbrev ticker : String → ℕ → List Fixed → TickerState Fixed
ticker symbol change signature = record {
  symbol = symbol;
  price = c 500;
  prev_close = c 400;
  gap_pct = c 2500;
  pct_change = c change;
  rvol = c 300;
  float_shares = some (pos 5_000_000);
  unknown_float = false;
  tradable = true;
  has_news = true;
  macd_state = bullish;
  pattern_tags = [];
  pattern_signature = signature;
  role = standalone;
  score = c change;
}

abbrev tickers : List (TickerState Fixed)
tickers =
    ticker "AAPL" 300 (c 100 ∷ c 200 ∷ [])
    ∷ ticker "MSFT" 500 (c 200 ∷ c 0 ∷ [])
    ∷ ticker "NVDA" 400 (c 100 ∷ c 210 ∷ [])
    ∷ []

clusters_of-Linked_example :
    (together 0 2 (clusters_of (lit 7 1) tickers) ≡ true)
    ↔ Linked (IsPair (lit 7 1) (get_elem? tickers)) 0 2
clusters_of-Linked_example = clusters_of-Linked (lit 7 1) tickers 0 2 (ground arith) (ground arith)

assign_roles-AllElected_example :
    (unranked (assign_roles (lit 7 1) tickers) ≡ unranked tickers)
    × AllElected Fixed-IsOrdered (assign_roles (lit 7 1) tickers) (clusters_of (lit 7 1) tickers)
unfolding fixed_float score_of
assign_roles-AllElected_example =
    assign_roles-AllElected Fixed-IsOrdered (lit 7 1) tickers (refl, (refl, (refl, tt)))

-- two slots, and one whitelisted symbol that no candidate has
abbrev config : ScannerConfig Fixed
config = record default_scanner_config { active_tickers_n = 2; whitelist_symbols = "TSLA" ∷ [] }

build_active_set-IsSelection_example :
    IsSelection 2 ("TSLA" ∷ []) (eligible none tickers) (build_active_set tickers config none)
unfolding eligible fixed_float
build_active_set-IsSelection_example =
    build_active_set-IsSelection Fixed-IsOrdered tickers config none (refl, (refl, (refl, tt)))

abbrev noon : Civil
noon = record { year = 2024; month = 6; day = 3; hour = 12; minute = 0 }

march_10-IsSundayFrom : IsSundayFrom (ordinal 2024 3 1 + 7) 738_955
unfolding ordinal weekday is_leap month_table days_before_year
march_10-IsSundayFrom = record {
  sunday = refl;
  not_before = ground arith;
  within_week = ground arith;
}

november_3-IsSundayFrom : IsSundayFrom (ordinal 2024 11 1) 739_193
unfolding ordinal weekday is_leap month_table days_before_year
november_3-IsSundayFrom = record {
  sunday = refl;
  not_before = ground arith;
  within_week = ground arith;
}

et_offset-daylight_iff_example :
    (et_offset noon ≡ et_daylight) ↔ ((738_955 ≤ ordinal 2024 6 3) × (ordinal 2024 6 3 < 739_193))
et_offset-daylight_iff_example =
    et_offset-daylight_iff noon 738_955 739_193 march_10-IsSundayFrom november_3-IsSundayFrom

-- a source that has one symbol's number of shares
abbrev source : FundamentalsSource Fixed FakeWorld
source = record {
  env_key = some "key";
  today = "2024-01-15";
  profile2 = λ symbol key w. (ok (some (c 500)), w);
}

abbrev pub idle : Scanning FakeWorld
idle = record { world = fake_world; cache = [] }

get_float_shares-once_example :
    let first = get_float_shares source "AAPL" none idle in
    let later = look_up_all source ("MSFT" ∷ []) none first.1 in
    get_float_shares source "AAPL" none later ≡ (first.0, later)
get_float_shares-once_example = get_float_shares-once source "AAPL" ("MSFT" ∷ []) none idle

abbrev pub window : ScanWindow
window = record {
  window_start = pos 1_705_325_400_000_000;
  window_end = pos 1_705_339_800_000_000;
  session_open = pos 1_705_329_000_000_000;
}

abbrev pub setup : ScanSetup Fixed FakeWorld
setup = record {
  client = fake_market_client uuid4;
  fundamentals = source;
  config = config;
  ta_config = default_ta_config;
  news_by_symbol = [];
  prior_profit = λ symbol. none;
  finnhub_api_key = none;
}

scan_candidates-IsCandidate_example :
    All
      (IsCandidate setup window ("AAPL" ∷ []))
      (scan_candidates setup window ("AAPL" ∷ []) (pos 1_705_332_600_000_000) idle).0
scan_candidates-IsCandidate_example =
    scan_candidates-IsCandidate setup window ("AAPL" ∷ []) (pos 1_705_332_600_000_000) idle
