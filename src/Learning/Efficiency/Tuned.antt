-- ===== src/Learning/Efficiency/Tuned.antt =====
-- bot/src/bot/learning/efficiency.py, `tune`: the recommendation is the best of the eligible ones.
use mathlib.Core.Path.{subst}
use quick_stock_bot.Prelude.{
  Bool, true, false, List, [], ◌∷◌, Result, ok, err, and_then, ◌≡◌, ◌≢◌, ◌⊎◌, inl, inr, refl, sym,
  arith, All, filter, map, Bool-cases, if◌then◌else◌,
}
use quick_stock_bot.Prelude.Int.{ℤ}
use quick_stock_bot.Num.{Float, ◌<?◌, ◌≺◌, IsOrdered}
use quick_stock_bot.Learning.Efficiency.{
  RoundTrip, ThresholdResult, EfficiencyReport, min_by, is_eligible, choose, best_of, report_from,
  tune, simulate_threshold, compute_goal_post,
}

-- `x` is in the list
abbrev pub IsIn : {A : Type 0} → A → List A → Type 0
IsIn x [] = ⊥
IsIn x (y ∷ ys) = (x ≡ y) ⊎ IsIn x ys

module _ {F : Type 0} ⦃num : Float F⦄ where
  -- none of the list takes fewer trades on average
  abbrev pub IsLeast : ThresholdResult F → List (ThresholdResult F) → Type 0
  IsLeast best = All (λ r. (r.avg_trades_to_goal <? best.avg_trades_to_goal) ≡ false)

  module _ (laws : IsOrdered F) where
    -- what is not below `x` is not below a smaller `y`
    below_smaller : (r x y : F) → y ≺ x → (r <? x) ≡ false → (r <? y) ≡ false
    below_smaller r x y h miss = elim (Bool-cases (r <? y)) [
      | inl less ↦ absurd (
          ground (
            arith,
            laws.le_of_lt r y less,
            laws.le_of_lt y x h,
            laws.number_of_le r y,
            laws.number_of_le y x,
            laws.not_le_of_lt y x h,
            laws.le_trans x r y,
            laws.lt_of_not_le x r,
          ))
      | inr not_less ↦ not_less
    ]

    irreflexive : (x : F) → (x <? x) ≡ false
    irreflexive x = ground (arith, laws.le_of_lt x x, laws.not_le_of_lt x x)

    abbrev average : ThresholdResult F → F
    average r = r.avg_trades_to_goal

    min_by-below :
        (z : F) (best : ThresholdResult F) (rs : List (ThresholdResult F))
        → (z <? average best) ≡ false
        → (z <? average (min_by average best rs)) ≡ false
    min_by-below z best [] h = h
    min_by-below z best (r ∷ rs) h = elim (Bool-cases (average r <? average best)) [
      | inl less ↦ rw less (min_by-below z r rs (below_smaller z (average best) (average r) less h))
      | inr not_less ↦ rw not_less (min_by-below z best rs h)
    ]

    -- one step of the minimum, by the answer of its test
    IsLeast-step :
        (b : Bool) (best r : ThresholdResult F) (rs : List (ThresholdResult F))
        → (average r <? average best) ≡ b
        → IsLeast (min_by average r rs) rs
        → IsLeast (min_by average best rs) rs
        → IsLeast (min_by average (if b then r else best) rs) (r ∷ rs)
    IsLeast-step true best r rs e from_r from_best =
        (min_by-below (average r) r rs (irreflexive (average r)), from_r)
    IsLeast-step false best r rs e from_r from_best =
        (min_by-below (average r) best rs e, from_best)

    min_by-IsLeast :
        (best : ThresholdResult F) (rs : List (ThresholdResult F))
        → IsLeast (min_by average best rs) rs
    min_by-IsLeast best [] = tt
    min_by-IsLeast best (r ∷ rs) =
        IsLeast-step (average r <? average best) best r rs refl (min_by-IsLeast r rs)
          (min_by-IsLeast best rs)

  IsIn-step :
      (b : Bool) (m best r : ThresholdResult F) (rs : List (ThresholdResult F))
      → IsIn m ((if b then r else best) ∷ rs)
      → IsIn m (best ∷ r ∷ rs)
  IsIn-step true m best r rs h = inr h
  IsIn-step false m best r rs (inl e) = inl e
  IsIn-step false m best r rs (inr h) = inr (inr h)

  min_by-IsIn :
      (key : ThresholdResult F → F) (rs : List (ThresholdResult F)) (best : ThresholdResult F)
      → IsIn (min_by key best rs) (best ∷ rs)
  min_by-IsIn key [] best = inl refl
  min_by-IsIn key (r ∷ rs) best =
      let b = key r <? key best in
      IsIn-step b (min_by key best (r ∷ rs)) best r rs (min_by-IsIn key rs (if b then r else best))

  -- What the report of a tuning with eligible thresholds shows.
  pub record IsBest (min_hit_rate : F) (report : EfficiencyReport F) : Type 0 where
    pub best : ThresholdResult F
    pub threshold_eq : report.recommended_threshold ≡ best.threshold
    pub average_eq : report.avg_trades_to_goal ≡ best.avg_trades_to_goal
    pub hit_rate_eq : report.hit_rate ≡ best.hit_rate
    pub is_in : IsIn best (filter (is_eligible min_hit_rate) report.threshold_results)
    pub is_least : IsLeast best (filter (is_eligible min_hit_rate) report.threshold_results)

  choose-Best :
      (laws : IsOrdered F) (thresholds : List F) (results eligible : List (ThresholdResult F))
      → eligible ≢ []
      → IsIn (choose thresholds results eligible) eligible
        × IsLeast (choose thresholds results eligible) eligible
  unfolding choose
  choose-Best laws thresholds results [] h = absurd (h refl)
  choose-Best laws thresholds results (r ∷ rs) h = (
    min_by-IsIn (λ x. x.avg_trades_to_goal) rs r,
    (
      min_by-below laws r.avg_trades_to_goal r rs (irreflexive laws r.avg_trades_to_goal),
      min_by-IsLeast laws r rs,
    ),
  )

  report_from-IsBest :
      (laws : IsOrdered F) (thresholds : List F) (results : List (ThresholdResult F))
      (min_hit_rate : F) (goal_post : ℤ)
      → filter (is_eligible min_hit_rate) results ≢ []
      → IsBest min_hit_rate (report_from thresholds results min_hit_rate goal_post)
  unfolding report_from best_of
  report_from-IsBest laws thresholds results min_hit_rate goal_post h =
      let eligible = filter (is_eligible min_hit_rate) results in
      let (found, least) = choose-Best laws thresholds results eligible h in
      record {
        best = choose thresholds results eligible;
        threshold_eq = refl;
        average_eq = refl;
        hit_rate_eq = refl;
        is_in = found;
        is_least = least;
      }

  -- from any report that the tuning can return to the one that it returns
  IsBest-and_then :
      (min_hit_rate : F) (m : Result ℤ) (make : ℤ → EfficiencyReport F)
      {report : EfficiencyReport F}
      → ((g : ℤ)
          → filter (is_eligible min_hit_rate) (make g).threshold_results ≢ []
          → IsBest min_hit_rate (make g))
      → and_then m (λ g. ok (make g)) ≡ ok report
      → filter (is_eligible min_hit_rate) report.threshold_results ≢ []
      → IsBest min_hit_rate report
  IsBest-and_then min_hit_rate (err e) make best h some_eligible = absurd (ground arith)
  IsBest-and_then min_hit_rate (ok g) make {report} best h some_eligible =
      let same : make g ≡ report = cc in
      subst (IsBest min_hit_rate) same (
        best g (
          subst (λ r. filter (is_eligible min_hit_rate) r.threshold_results ≢ []) (sym same)
            some_eligible))

  -- When the tuning succeeds and some threshold has trades and a high enough hit rate, the
  -- recommended one has both, and no other such threshold takes fewer trades to the goal on average.
  pub tune-IsBest :
      (laws : IsOrdered F) (trips : List (RoundTrip F)) (thresholds : List F)
      (target daily_max_loss_pct risk_per_trade_pct min_hit_rate : F) {report : EfficiencyReport F}
      → tune trips thresholds target daily_max_loss_pct risk_per_trade_pct min_hit_rate ≡ ok report
      → filter (is_eligible min_hit_rate) report.threshold_results ≢ []
      → IsBest min_hit_rate report
  unfolding tune
  tune-IsBest laws trips thresholds target daily_max_loss_pct risk_per_trade_pct min_hit_rate h
        some_eligible =
      IsBest-and_then min_hit_rate (compute_goal_post daily_max_loss_pct risk_per_trade_pct) _
        (report_from-IsBest laws thresholds
          (map (λ t. simulate_threshold trips t target) thresholds) min_hit_rate)
        h some_eligible
