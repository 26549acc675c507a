-- ===== src/Ta/Macd/Answers.antt =====
-- bot/src/bot/ta/macd.py, `classify_macd`: it raises nothing, and what it answers below the minimum.
use mathlib.Core.Path.{subst}
use quick_stock_bot.Prelude.{
  ℕ, zero, suc, ◌+◌, ◌≤◌, List, [], ◌∷◌, none, some, ok, ◌≡◌, refl, arith, length, last?,
}
use quick_stock_bot.Num.{Float}
use quick_stock_bot.Models.{Bar}
use quick_stock_bot.Ta.Config.{TaConfig}
use quick_stock_bot.Ta.State.{MacdState}
use quick_stock_bot.Ta.Helpers.{closes}
use quick_stock_bot.Ta.Macd.{
  Lines, null_state, classify_values, classify_lines, classify_macd, compute_slope,
}
use quick_stock_bot.Ta.Macd.Lengths.{IsAligned, compute_macd-IsAligned}

-- the periods that `compute_macd` is meant for
pub record IsPeriods (config : TaConfig) : Type 0 where
  pub some_fast : 1 ≤ config.macd_fast
  pub fast_first : config.macd_fast ≤ config.macd_slow
  pub some_signal : 1 ≤ config.macd_signal

module _ {ℓ} {A : Type ℓ} where
  last?-some : (x : A) (xs : List A) → (y : A) × (last? (x ∷ xs) ≡ some y)
  last?-some x [] = (x, refl)
  last?-some x (y ∷ xs) = last?-some y xs

  last?-length : (xs : List A) → 1 ≤ length xs → (y : A) × (last? xs ≡ some y)
  last?-length [] h = absurd (ground arith)
  last?-length (x ∷ xs) h = last?-some x xs

  last?-none : (xs : List A) → length xs ≡ 0 → last? xs ≡ none
  last?-none [] h = refl
  last?-none (x ∷ xs) h = absurd (ground arith)

module _ (F : Type 0) ⦃num : Float F⦄ where
  length-closes : (bars : List Bar) → length (closes {F = F} bars) ≡ length bars
  length-closes [] = refl
  length-closes (b ∷ bars) = ground (arith, length-closes bars)

module _ {F : Type 0} ⦃num : Float F⦄ where
  -- `some` state, and the one without a verdict exactly when there are no lines
  classify_lines_few :
      (lines : Lines F) (config : TaConfig)
      → IsAligned lines 0
      → classify_lines lines config ≡ ok (null_state {F = F})
  unfolding classify_lines
  classify_lines_few lines config aligned =
      rw (last?-none lines.macd_line aligned.macd_length, classify_lines) refl

  classify_lines_some :
      (lines : Lines F) (config : TaConfig) {n : ℕ}
      → IsAligned lines (suc n)
      → (state : MacdState F) × (classify_lines lines config ≡ ok state)
  unfolding classify_lines
  classify_lines_some lines config aligned =
      let (value, value_eq) = last?-length lines.macd_line (ground (arith, aligned.macd_length)) in
      let (hist, hist_eq) =
        last?-length lines.histogram (ground (arith, aligned.histogram_length)) in
      (
        classify_values config.macd_enforce_above_zero value hist
            (compute_slope lines.macd_line config.macd_slope_lookback),
        rw (value_eq, classify_lines) (rw hist_eq refl),
      )

  classify_at :
      (lines : Lines F) (config : TaConfig) (n : ℕ)
      → IsAligned lines n
      → (state : MacdState F) × (classify_lines lines config ≡ ok state)
  classify_at lines config zero aligned = (null_state, classify_lines_few lines config aligned)
  classify_at lines config (suc n) aligned = classify_lines_some lines config aligned

  -- For periods with 1 <= fast <= slow and 1 <= signal, `classify_macd` raises nothing, whatever the
  -- candles.
  pub classify_macd_answers :
      (bars : List Bar) (config : TaConfig)
      → IsPeriods config
      → (state : MacdState F) × (classify_macd bars config ≡ ok state)
  unfolding classify_macd
  classify_macd_answers bars config periods =
      let (lines, lines_eq, aligned) =
        compute_macd-IsAligned (closes bars) config.macd_fast config.macd_slow config.macd_signal
          periods.some_fast periods.fast_first periods.some_signal in
      let (state, state_eq) = classify_at lines config _ aligned in (state, rw lines_eq state_eq)

  -- With fewer candles than slow + signal - 1, the state is the one of favorability -1 that is not
  -- eligible.
  pub classify_macd_too_few :
      (bars : List Bar) (config : TaConfig)
      → IsPeriods config
      → length bars + 2 ≤ config.macd_slow + config.macd_signal
      → classify_macd bars config ≡ ok (null_state {F = F})
  unfolding classify_macd
  classify_macd_too_few bars config periods few =
      let (lines, lines_eq, aligned) =
        compute_macd-IsAligned (closes {F = F} bars) config.macd_fast config.macd_slow
          config.macd_signal periods.some_fast periods.fast_first periods.some_signal in
      rw lines_eq (
        classify_lines_few lines config
          (subst (IsAligned lines) (ground (arith, length-closes F bars)) aligned))
