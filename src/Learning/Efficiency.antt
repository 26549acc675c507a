-- ===== src/Learning/Efficiency.antt =====
-- bot/src/bot/learning/efficiency.py.
pub mod Goal
pub mod Tuned
use mathlib.Core.List.{foldl}
use quick_stock_bot.Prelude.{
  ◌==◌, ℕ, ◌+◌, suc, zero, Bool, true, false, ◌&&◌, String, List, [], ◌∷◌, ◌++◌, Option, none, some,
  Result, ok, err, Error, and_then, or_raise, if◌then◌else◌, ltb, nat_eq, length, map, filter,
}
use quick_stock_bot.Prelude.Int.{ℤ, pos}
use quick_stock_bot.Prelude.Dict.{Dict, lookup, insert, values}
use quick_stock_bot.Num.{Float, lit, ◌⊕◌, ◌⊘◌, ◌<?◌, ◌≤?◌}

pub record DailyEfficiencyRecord (F : Type 0) : Type 0 where
  pub date : String
  pub trades_to_goal : ℕ
  pub goal_reached : Bool
  pub daily_pnl_pct : F

pub record RoundTrip (F : Type 0) : Type 0 where
  pub date : String
  pub net_pnl_pct : F
  pub conviction_score : F

pub record ThresholdResult (F : Type 0) : Type 0 where
  pub threshold : F
  pub avg_trades_to_goal : F
  pub hit_rate : F
  pub days_with_trades : ℕ

pub record EfficiencyReport (F : Type 0) : Type 0 where
  pub recommended_threshold : F
  pub avg_trades_to_goal : F
  pub hit_rate : F
  pub goal_post : ℤ
  pub threshold_results : List (ThresholdResult F)

-- the fields of `DayTracker`
pub record DayTracker (F : Type 0) : Type 0 where
  pub trades : List (F × F)
  pub current_date : Option String

-- `self._current_date or "unknown"`
abbrev date_of : Option String → String
date_of none = "unknown"
date_of (some date) = if date == "" then "unknown" else date

module _ {F : Type 0} ⦃num : Float F⦄ where
  -- the loop of `_trades_to_goal`, after `taken` trades with the sum `cumsum`
  trades_from : ℕ → F → List F → F → ℕ × Bool
  trades_from taken cumsum [] target = (taken, false)
  trades_from taken cumsum (pnl ∷ pnls) target =
      let rest = trades_from (suc taken) (cumsum ⊕ pnl) pnls target in
      if target ≤? cumsum ⊕ pnl then (suc taken, true) else rest

  pub trades_to_goal : List F → F → ℕ × Bool
  unfolding trades_from
  trades_to_goal pnls target = trades_from 0 (lit 0 0) pnls target

  unfoldable pub start_day : String → DayTracker F → DayTracker F
  start_day date t = record { trades = []; current_date = some date }

  unfoldable pub record_trade : F → F → DayTracker F → DayTracker F
  record_trade net_pnl_pct conviction_score t = record t {
    trades = t.trades ++ ((net_pnl_pct, conviction_score) ∷ []);
  }

  unfoldable pub finish_day : F → DayTracker F → DailyEfficiencyRecord F × DayTracker F
  unfolding trades_to_goal
  finish_day daily_profit_target_pct t =
      let pnls = map (λ x. x.0) t.trades in
      let (ttg, reached) = trades_to_goal pnls daily_profit_target_pct in
      (
        record {
          date = date_of t.current_date;
          trades_to_goal = ttg;
          goal_reached = reached;
          daily_pnl_pct = foldl ◌⊕◌ (lit 0 0) pnls;
        },
        record { trades = []; current_date = none },
      )

  unfoldable pub compute_goal_post : F → F → Result ℤ
  compute_goal_post daily_max_loss_pct risk_per_trade_pct =
      if risk_per_trade_pct ≤? lit 0 0
      then err Error.value_error
      else or_raise Error.not_finite (num.ceil (num.abs daily_max_loss_pct ⊘ risk_per_trade_pct))

  -- `by_date.setdefault(date, []).append(pnl)`
  abbrev append_to : String → F → Dict (List F) → Dict (List F)
  append_to date pnl d = elim (lookup date d) [
    | none ↦ insert date (pnl ∷ []) d
    | some pnls ↦ insert date (pnls ++ (pnl ∷ [])) d
  ]

  by_date : List (RoundTrip F) → F → Dict (List F)
  by_date trips threshold =
      foldl (λ d t. if threshold ≤? t.conviction_score then append_to t.date t.net_pnl_pct d else d)
        [] trips

  -- the two counters of `simulate_threshold`
  count_days : List (List F) → F → ℕ × ℕ
  unfolding trades_to_goal
  count_days days target =
      foldl
        (λ (total, goals) pnls.
          let (ttg, reached) = trades_to_goal pnls target in
          (total + ttg, if reached then suc goals else goals))
        (0, 0) days

  -- the result over the days that have trades
  result_of : F → List (List F) → F → ThresholdResult F
  unfolding count_days
  result_of threshold [] target = record {
    threshold = threshold;
    avg_trades_to_goal = num.infinity;
    hit_rate = lit 0 0;
    days_with_trades = 0;
  }
  result_of threshold (day ∷ days) target =
      let n = length (day ∷ days) in
      let (total, goals) = count_days (day ∷ days) target in
      record {
        threshold = threshold;
        avg_trades_to_goal = num.of_int (pos total) ⊘ num.of_int (pos n);
        hit_rate = num.of_int (pos goals) ⊘ num.of_int (pos n);
        days_with_trades = n;
      }

  unfoldable pub simulate_threshold : List (RoundTrip F) → F → F → ThresholdResult F
  unfolding by_date result_of
  simulate_threshold trips threshold target =
      result_of threshold (values (by_date trips threshold)) target

  -- `min` and `max` by a key: the first extreme element, from `best` on
  abbrev min_by :
      (ThresholdResult F → F) → ThresholdResult F → List (ThresholdResult F) → ThresholdResult F
  min_by key best [] = best
  min_by key best (r ∷ rs) = min_by key (if key r <? key best then r else best) rs

  abbrev max_by :
      (ThresholdResult F → F) → ThresholdResult F → List (ThresholdResult F) → ThresholdResult F
  max_by key best [] = best
  max_by key best (r ∷ rs) = max_by key (if key best <? key r then r else best) rs

  abbrev pub has_trades : ThresholdResult F → Bool
  has_trades r = ltb 0 r.days_with_trades

  abbrev pub is_eligible : F → ThresholdResult F → Bool
  is_eligible min_hit_rate r = (min_hit_rate ≤? r.hit_rate) && has_trades r

  -- no threshold has trades: the first of all, or a default
  fallback : List F → List (ThresholdResult F) → ThresholdResult F
  fallback thresholds (r ∷ rs) = r
  fallback thresholds [] = record {
    threshold = elim thresholds [ [] ↦ lit 5 1 | t ∷ ts ↦ t ];
    avg_trades_to_goal = num.infinity;
    hit_rate = lit 0 0;
    days_with_trades = 0;
  }

  -- the best of those with trades, and of the eligible ones
  relaxed : List F → List (ThresholdResult F) → List (ThresholdResult F) → ThresholdResult F
  unfolding fallback
  relaxed thresholds results [] = fallback thresholds results
  relaxed thresholds results (r ∷ rs) = max_by (λ x. x.hit_rate) r rs

  choose : List F → List (ThresholdResult F) → List (ThresholdResult F) → ThresholdResult F
  unfolding relaxed
  choose thresholds results [] = relaxed thresholds results (filter has_trades results)
  choose thresholds results (r ∷ rs) = min_by (λ x. x.avg_trades_to_goal) r rs

  best_of : List F → List (ThresholdResult F) → F → ThresholdResult F
  unfolding choose
  best_of thresholds results min_hit_rate =
      choose thresholds results (filter (is_eligible min_hit_rate) results)

  report_from : List F → List (ThresholdResult F) → F → ℤ → EfficiencyReport F
  unfolding best_of
  report_from thresholds results min_hit_rate goal_post =
      let best = best_of thresholds results min_hit_rate in
      record {
        recommended_threshold = best.threshold;
        avg_trades_to_goal = best.avg_trades_to_goal;
        hit_rate = best.hit_rate;
        goal_post = goal_post;
        threshold_results = results;
      }

  unfoldable pub tune : List (RoundTrip F) → List F → F → F → F → F → Result (EfficiencyReport F)
  unfolding simulate_threshold report_from
  tune trips thresholds target daily_max_loss_pct risk_per_trade_pct min_hit_rate =
      and_then (compute_goal_post daily_max_loss_pct risk_per_trade_pct) λ goal_post.
        let results = map (λ t. simulate_threshold trips t target) thresholds in
        ok (report_from thresholds results min_hit_rate goal_post)
