-- ===== src/Engine/Breaker/Laws.antt =====
-- The daily limits latch, and giveback mode trails the peak of the day.
use mathlib.Core.List.{foldl}
use quick_stock_bot.Prelude.{
  true, false, ◌||◌, List, [], ◌∷◌, map, ◌≡◌, ◌≢◌, ◌⊎◌, ◌↔◌, ◌∙◌, ap, refl, arith, All,
}
use quick_stock_bot.Num.{Float, ◌⊕◌, ◌≤?◌, max_f}
use quick_stock_bot.Engine.Config.{ExecutionConfig, TargetMode}
use quick_stock_bot.Engine.Breaker.{
  DailyAction, DailyState, total_pnl, total_pnl_pct, giveback_trigger, check_daily_limits, proceed,
  halt, flatten_and_halt,
}

-- `proceed` up to the first other action, and from then on `halt` alone
abbrev pub IsLatched : List DailyAction → Type 0
IsLatched [] = Unit
IsLatched (proceed ∷ actions) = IsLatched actions
IsLatched (halt ∷ actions) = All (λ a. a ≡ halt) actions
IsLatched (flatten_and_halt ∷ actions) = All (λ a. a ≡ halt) actions

latch :
    (action : DailyAction) (actions : List DailyAction)
    → (action ≢ proceed → All (λ a. a ≡ halt) actions)
    → IsLatched actions
    → IsLatched (action ∷ actions)
latch proceed actions stays rest = rest
latch halt actions stays rest = stays (λ e. cc)
latch flatten_and_halt actions stays rest = stays (λ e. cc)

module _ {F : Type 0} ⦃num : Float F⦄ where
  -- The checks of a day: the state after them and the actions, in order.
  unfoldable pub day_state : DailyState F → List (F × F) → ExecutionConfig F → DailyState F
  day_state s [] cfg = s
  day_state s ((r, u) ∷ figures) cfg = day_state (check_daily_limits s r u cfg).0 figures cfg

  unfoldable pub day_actions : DailyState F → List (F × F) → ExecutionConfig F → List DailyAction
  day_actions s [] cfg = []
  day_actions s ((r, u) ∷ figures) cfg =
      let (s', action) = check_daily_limits s r u cfg in action ∷ day_actions s' figures cfg

  -- The action is `proceed` exactly when the state is not halted afterwards.
  pub proceed_iff :
      (s : DailyState F) (r u : F) (cfg : ExecutionConfig F)
      → let (s', action) = check_daily_limits s r u cfg in (action ≡ proceed) ↔ (s'.halted ≡ false)
  unfolding check_daily_limits
  proceed_iff s r u cfg = (ground arith, ground arith)

  pub halted_halts :
      (s : DailyState F) (r u : F) (cfg : ExecutionConfig F)
      → s.halted ≡ true
      → let (s', action) = check_daily_limits s r u cfg in (action ≡ halt) × (s'.halted ≡ true)
  unfolding check_daily_limits
  halted_halts s r u cfg h = ground arith

  All-halt :
      (s : DailyState F) (figures : List (F × F)) (cfg : ExecutionConfig F)
      → s.halted ≡ true
      → All (λ a. a ≡ halt) (day_actions s figures cfg)
  unfolding day_actions
  All-halt s [] cfg h = tt
  All-halt s ((r, u) ∷ figures) cfg h =
      let (first, still) = halted_halts s r u cfg h in
      (first, All-halt (check_daily_limits s r u cfg).0 figures cfg still)

  -- Whatever figures a day brings and from whatever state, its actions are `proceed` up to the
  -- first halt, and every action after that is `halt`: at most one check asks to flatten.
  pub day_actions-IsLatched :
      (s : DailyState F) (figures : List (F × F)) (cfg : ExecutionConfig F)
      → IsLatched (day_actions s figures cfg)
  unfolding day_actions
  day_actions-IsLatched s [] cfg = tt
  day_actions-IsLatched s ((r, u) ∷ figures) cfg =
      let (s', action) = check_daily_limits s r u cfg in
      latch action (day_actions s' figures cfg)
        (λ h. All-halt s' figures cfg (ground (arith, proceed_iff s r u cfg, h)))
        (day_actions-IsLatched s' figures cfg)

  abbrev pub totals : List (F × F) → List F
  totals = map (λ f. f.0 ⊕ f.1)

  proceed_tracks :
      (s : DailyState F) (r u : F) (cfg : ExecutionConfig F)
      → cfg.daily_target_mode ≡ TargetMode.giveback
      → let (s', action) = check_daily_limits s r u cfg in
        action ≡ proceed → s'.daily_pl_high ≡ max_f s.daily_pl_high (r ⊕ u)
  unfolding check_daily_limits
  proceed_tracks s r u cfg mode e = ground arith

  -- In giveback mode, as long as every check says `proceed`, the running high is the maximum of
  -- the high at the start and of every total profit seen.
  pub giveback_tracks_peak :
      (s : DailyState F) (figures : List (F × F)) (cfg : ExecutionConfig F)
      → cfg.daily_target_mode ≡ TargetMode.giveback
      → All (λ a. a ≡ proceed) (day_actions s figures cfg)
      → (day_state s figures cfg).daily_pl_high ≡ foldl max_f s.daily_pl_high (totals figures)
  unfolding day_actions day_state
  giveback_tracks_peak s [] cfg mode h = refl
  giveback_tracks_peak s ((r, u) ∷ figures) cfg mode (first, rest) =
      giveback_tracks_peak (check_daily_limits s r u cfg).0 figures cfg mode rest
      ∙ ap (λ h. foldl max_f h (totals figures)) (proceed_tracks s r u cfg mode first)

  -- A check of a state that is not halted, in giveback mode, asks to flatten exactly when the loss
  -- limit is reached and set to flatten, or the loss limit is not reached, the mode is armed (now
  -- or before) and the total has fallen to the trigger below the updated high.
  pub flatten_iff :
      (s : DailyState F) (r u : F) (cfg : ExecutionConfig F)
      → s.halted ≡ false
      → cfg.daily_target_mode ≡ TargetMode.giveback
      → let now = record s { realized_pnl = r; unrealized_pnl = u } in
        let peak = record now { daily_pl_high = max_f s.daily_pl_high (r ⊕ u) } in
        ((check_daily_limits s r u cfg).1 ≡ flatten_and_halt) ↔ (
          ((total_pnl_pct now ≤? cfg.daily_max_loss_pct) ≡ true) × (cfg.flatten_on_max_loss ≡ true)
          ⊎ ((total_pnl_pct now ≤? cfg.daily_max_loss_pct) ≡ false)
            × ((s.giveback_armed || (cfg.daily_profit_target_pct ≤? total_pnl_pct now)) ≡ true)
            × ((total_pnl now ≤? giveback_trigger peak cfg) ≡ true))
  unfolding check_daily_limits
  flatten_iff s r u cfg running mode = (ground arith, ground arith)
