-- ===== src/Tests/Learning.antt =====
-- Two days of trades.
use quick_stock_bot.Prelude.{String, List, [], ◌∷◌, ok, ◌≡◌, ◌≢◌, refl, filter}
use quick_stock_bot.Prelude.Int.{pos, negsuc, floor_div, ◌+ℤ◌, ◌*ℤ◌}
use quick_stock_bot.Num.{lit}
use quick_stock_bot.Num.Fixed.{Fixed, fixed_float, Fixed-IsOrdered}
use quick_stock_bot.Learning.Efficiency.{
  RoundTrip, ThresholdResult, EfficiencyReport, is_eligible, trades_to_goal, simulate_threshold,
  tune, compute_goal_post,
}
use quick_stock_bot.Learning.Efficiency.Goal.{running, IsFirst, trades_to_goal-IsFirst}
use quick_stock_bot.Learning.Efficiency.Tuned.{IsBest, tune-IsBest}
use quick_stock_bot.Learning.Profits.{get_stats}
use quick_stock_bot.Learning.Profits.Totals.{pnls_of, record_all, summary, record_all-summary}
use quick_stock_bot.Tests.Fixtures.{c}

trades_to_goal-IsFirst_example :
    let (n, reached) = trades_to_goal (c 100 ∷ c 250 ∷ c 50 ∷ []) (c 300) in
    IsFirst (running (lit 0 0) (c 100 ∷ c 250 ∷ c 50 ∷ [])) (c 300) n reached
trades_to_goal-IsFirst_example = trades_to_goal-IsFirst (c 100 ∷ c 250 ∷ c 50 ∷ []) (c 300)

abbrev trips : List (RoundTrip Fixed)
trips =
    record { date = "2024-01-15"; net_pnl_pct = c 300; conviction_score = c 90 }
    ∷ record { date = "2024-01-15"; net_pnl_pct = c 50; conviction_score = c 60 }
    ∷ record { date = "2024-01-16"; net_pnl_pct = c 100; conviction_score = c 60 }
    ∷ record { date = "2024-01-16"; net_pnl_pct = c 300; conviction_score = c 90 }
    ∷ []

-- with the low threshold the second day takes two trades
abbrev low : ThresholdResult Fixed
low = record {
  threshold = c 50;
  avg_trades_to_goal = c 150;
  hit_rate = c 100;
  days_with_trades = 2;
}

abbrev high : ThresholdResult Fixed
high = record {
  threshold = c 80;
  avg_trades_to_goal = c 100;
  hit_rate = c 100;
  days_with_trades = 2;
}

abbrev report : EfficiencyReport Fixed
report = record {
  recommended_threshold = c 80;
  avg_trades_to_goal = c 100;
  hit_rate = c 100;
  goal_post = pos 4;
  threshold_results = low ∷ high ∷ [];
}

run-tune :
    tune trips (c 50 ∷ c 80 ∷ []) (c 300) (negsuc 1_999_999_999_999) (c 50) (c 50) ≡ ok report
unfolding tune compute_goal_post simulate_threshold fixed_float floor_div ◌+ℤ◌ ◌*ℤ◌
run-tune = refl

some_eligible : filter (is_eligible (c 50)) report.threshold_results ≢ []
unfolding fixed_float
some_eligible e = cc

tune-IsBest_example : IsBest (c 50) report
tune-IsBest_example =
    tune-IsBest Fixed-IsOrdered trips (c 50 ∷ c 80 ∷ []) (c 300) (negsuc 1_999_999_999_999) (c 50)
      (c 50) run-tune some_eligible

abbrev sales : List (String × Fixed)
sales = ("AAPL", c 500) ∷ ("TSLA", c 100) ∷ ("AAPL", negsuc 99) ∷ []

record_all-summary_example :
    get_stats "AAPL" (record_all sales []) ≡ summary "AAPL" (pnls_of "AAPL" sales)
record_all-summary_example = record_all-summary sales "AAPL"
