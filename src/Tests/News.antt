-- ===== src/Tests/News.antt =====
-- Two providers that report the same event, and one that fails.
use quick_stock_bot.Prelude.{
  ◌≡◌, some, String, List, [], ◌∷◌, ok, err, Error, All, ◌==◌, if◌then◌else◌,
}
use quick_stock_bot.Prelude.Int.{pos}
use quick_stock_bot.Prelude.Dict.{lookup}
use quick_stock_bot.Num.{lit}
use quick_stock_bot.Num.Fixed.{Fixed, fixed_float}
use quick_stock_bot.Alpaca.Fake.{FakeWorld, fake_world}
use quick_stock_bot.News.State.{Article}
use quick_stock_bot.News.Aggregator.{Headlines, NewsProvider, deduplicate, fetch_all, collect}
use quick_stock_bot.News.Aggregator.Distinct.{texts_of, IsFresh, IsCovered, deduplicate-IsFresh}
use quick_stock_bot.News.Aggregator.Filing.{about, collect-about}
use quick_stock_bot.Tests.Fixtures.{c}

-- equal texts are similar, and no others
abbrev headlines : Headlines Fixed
headlines = record { normalize = λ s. s; similarity = λ s t. if s == t then c 100 else c 0 }

abbrev report : String → String → Article
report symbol headline = record {
  symbol = symbol;
  headline = headline;
  summary = "";
  source = "wire";
  url = "";
  published_at = pos 0;
}

abbrev reports : List Article
reports =
    report "AAPL" "apple beats estimates"
    ∷ report "MSFT" "microsoft splits"
    ∷ report "AAPL" "apple beats estimates"
    ∷ []

deduplicate-IsFresh_example :
    let kept = deduplicate headlines (lit 85 2) reports in
    IsFresh headlines (lit 85 2) [] kept
    × All (IsCovered headlines (lit 85 2) (texts_of headlines (lit 85 2) kept)) reports
    × (deduplicate headlines (lit 85 2) kept ≡ kept)
deduplicate-IsFresh_example = deduplicate-IsFresh headlines (lit 85 2) reports

abbrev providers : List (NewsProvider FakeWorld)
providers =
    record { name = "wire"; fetch = λ symbols since w. (ok reports, w) }
    ∷ record { name = "down"; fetch = λ symbols since w. (err Error.runtime, w) }
    ∷ record { name = "second"; fetch = λ symbols since w. (ok reports, w) }
    ∷ []

collect-about_example :
    lookup "AAPL" (collect headlines providers ("AAPL" ∷ []) (pos 0) fake_world).0
    ≡ some (
        about "AAPL" (
          deduplicate headlines
            (lit 85 2)
            (fetch_all providers ("AAPL" ∷ []) (pos 0) fake_world).0))
collect-about_example = collect-about headlines providers ("AAPL" ∷ []) (pos 0) fake_world "AAPL"
