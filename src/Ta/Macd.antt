-- ===== src/Ta/Macd.antt =====
-- bot/src/bot/ta/macd.py: moving averages, their difference, its slope and the favorability.
pub mod Lengths
pub mod Ranges
pub mod Answers
use mathlib.Core.List.{foldl, zip}
use quick_stock_bot.Prelude.{
  ℕ, zero, suc, ◌+◌, ◌-◌, Bool, true, false, ◌&&◌, ◌||◌, not, List, [], ◌∷◌, Option, none, some,
  Result, ok, err, Error, and_then, or_raise, ltb, nat_eq, if◌then◌else◌, length, take, drop, map,
  last_n, last?,
}
use quick_stock_bot.Prelude.Int.{ℤ, pos, negsuc, sub_ℕ, ◌+ℤ◌}
use quick_stock_bot.Num.{Float, lit, ◌⊕◌, ◌⊖◌, ◌⊗◌, ◌⊘◌, ◌<?◌, ◌≤?◌, min_f, max_f}
use quick_stock_bot.Models.{Bar}
use quick_stock_bot.Ta.Config.{TaConfig}
use quick_stock_bot.Ta.State.{MacdState}
use quick_stock_bot.Ta.Helpers.{sum, closes}

abbrev get_elem? {ℓ} : {A : Type ℓ} → List A → ℕ → Option A
get_elem? [] i = none
get_elem? (x ∷ xs) zero = some x
get_elem? (x ∷ xs) (suc i) = get_elem? xs i

-- `xs[i]`: a negative index counts from the end
index {ℓ} : {A : Type ℓ} → List A → ℤ → Result A
index xs (pos i) = or_raise Error.index_error (get_elem? xs i)
index xs (negsuc i) =
    if ltb i (length xs)
    then or_raise Error.index_error (get_elem? xs (length xs - suc i))
    else err Error.index_error

-- what `compute_macd` returns
pub record Lines (F : Type 0) : Type 0 where
  pub macd_line : List F
  pub signal_line : List F
  pub histogram : List F

module _ {F : Type 0} ⦃num : Float F⦄ where
  -- the loop of `_ema`, from the last value on
  ema_from : F → F → List F → List F
  ema_from alpha prev [] = prev ∷ []
  ema_from alpha prev (v ∷ vs) = prev ∷ ema_from alpha (alpha ⊗ v ⊕ (lit 1 0 ⊖ alpha) ⊗ prev) vs

  -- `_ema`
  ema : List F → ℕ → Result (List F)
  unfolding ema_from
  ema values period =
      if ltb (length values) period
      then ok []
      else if nat_eq period 0
      then err Error.zero_division
      else ok (
          ema_from (lit 2 0 ⊘ num.of_int (pos (period + 1)))
            (sum (take period values) ⊘ num.of_int (pos period)) (drop period values))

  -- `[ema_fast[k + offset] - ema_slow[k] for k in range(len(ema_slow))]`, from `k` on
  macd_line_from : List F → ℤ → ℕ → List F → Result (List F)
  unfolding index
  macd_line_from fast_ema offset k [] = ok []
  macd_line_from fast_ema offset k (s ∷ slow_ema) =
      and_then (index fast_ema (pos k +ℤ offset))
        λ f. and_then (macd_line_from fast_ema offset (suc k) slow_ema) λ rest. ok ((f ⊖ s) ∷ rest)

  abbrev no_lines : Lines F
  no_lines = record { macd_line = []; signal_line = []; histogram = [] }

  -- the signal line and the histogram of a MACD line
  with_signal : List F → List F → Lines F
  with_signal macd_line [] = no_lines
  with_signal macd_line (g ∷ sig_line) =
      let aligned = drop (length macd_line - length (g ∷ sig_line)) macd_line in
      record {
        macd_line = aligned;
        signal_line = g ∷ sig_line;
        histogram = map (λ p. p.0 ⊖ p.1) (zip aligned (g ∷ sig_line));
      }

  -- the part of `compute_macd` past its guard, for two averages that are not empty
  macd_of_emas : List F → List F → ℤ → ℕ → Result (Lines F)
  unfolding ema with_signal macd_line_from
  macd_of_emas [] slow_ema offset signal = ok no_lines
  macd_of_emas (f ∷ fast_ema) [] offset signal = ok no_lines
  macd_of_emas (f ∷ fast_ema) (s ∷ slow_ema) offset signal =
      and_then (macd_line_from (f ∷ fast_ema) offset 0 (s ∷ slow_ema))
        λ macd_line. and_then (ema macd_line signal) λ sig_line. ok (with_signal macd_line sig_line)

  pub compute_macd : List F → ℕ → ℕ → ℕ → Result (Lines F)
  unfolding ema macd_of_emas
  compute_macd prices fast slow signal = and_then (ema prices fast) λ ema_fast.
      and_then (ema prices slow) λ ema_slow. macd_of_emas ema_fast ema_slow (sub_ℕ slow fast) signal

  -- the two sums of `compute_slope`, over `enumerate(y)` from `i` on
  slope_num : F → F → ℕ → F → List F → F
  slope_num x_mean y_mean i acc [] = acc
  slope_num x_mean y_mean i acc (y ∷ ys) =
      slope_num x_mean y_mean (suc i) (acc ⊕ (num.of_int (pos i) ⊖ x_mean) ⊗ (y ⊖ y_mean)) ys

  slope_den : F → ℕ → F → List F → F
  slope_den x_mean i acc [] = acc
  slope_den x_mean i acc (y ∷ ys) =
      let d = num.of_int (pos i) ⊖ x_mean in slope_den x_mean (suc i) (acc ⊕ d ⊗ d) ys

  pub compute_slope : List F → ℕ → F
  unfolding slope_num slope_den
  compute_slope values lookback =
      if ltb lookback 2 || ltb (length values) lookback
      then lit 0 0
      else let y = last_n lookback values in
        let n = length y in
        let x_mean = num.of_int (pos (n - 1)) ⊘ lit 2 0 in
        let y_mean = sum y ⊘ num.of_int (pos n) in
        let den = slope_den x_mean 0 (lit 0 0) y in
        if num.eq den (lit 0 0) then lit 0 0 else slope_num x_mean y_mean 0 (lit 0 0) y ⊘ den

  -- `abs(value) if abs(value) > 1e-10 else 1e-10`
  reference : F → F
  reference value = if lit 1 10 <? num.abs value then num.abs value else lit 1 10

  -- `_favorability_enforce_on`
  pub favorability_enforce_on : F → F → F → F
  unfolding reference
  favorability_enforce_on slope hist value =
      if (value ≤? lit 0 0) || (slope <? lit 0 0)
      then num.negate (lit 1 0)
      else let slope_rate = num.tanh ((slope ⊘ reference value) ⊗ lit 5 0) in
        let hist_adj =
          if lit 0 0 <? hist
          then lit 2 1
          else if hist <? lit 0 0
          then num.negate (lit 1 1)
          else lit 0 0 in
        max_f (lit 0 0) (min_f (lit 1 0) (lit 4 1 ⊕ lit 4 1 ⊗ slope_rate ⊕ hist_adj))

  -- `_favorability_full`
  pub favorability_full : F → F → F → F
  unfolding reference
  favorability_full slope hist value =
      let ref = reference value in
      let norm_slope = num.tanh ((num.abs slope ⊘ ref) ⊗ lit 5 0) in
      let hist_adj = num.tanh ((hist ⊘ ref) ⊗ lit 3 0) ⊗ lit 1 1 in
      let above = lit 0 0 <? value in
      let rising = lit 1 10 <? slope in
      if above && rising
      then min_f (lit 1 0) (lit 5 1 ⊕ lit 4 1 ⊗ norm_slope ⊕ hist_adj)
      else if above && not rising
      then max_f (num.negate (lit 1 0)) (num.negate (lit 2 1) ⊖ lit 6 1 ⊗ norm_slope ⊕ hist_adj)
      else if not above && rising
      then min_f (lit 4 1) (lit 1 1 ⊕ lit 3 1 ⊗ norm_slope ⊕ hist_adj)
      else max_f (num.negate (lit 1 0)) (num.negate (lit 4 1) ⊖ lit 5 1 ⊗ norm_slope ⊕ hist_adj)

  pub null_state : MacdState F
  null_state = record {
    value = lit 0 0;
    slope = lit 0 0;
    hist = lit 0 0;
    favorability = num.negate (lit 1 0);
    eligible = false;
  }

  -- the end of `classify_macd`, from the last values of the lines and the slope
  classify_values : Bool → F → F → F → MacdState F
  unfolding favorability_enforce_on favorability_full
  classify_values enforce_above_zero value hist_val slope =
      let favor =
        if enforce_above_zero
        then favorability_enforce_on slope hist_val value
        else favorability_full slope hist_val value in
      let eligible =
        if enforce_above_zero then (lit 0 0 <? value) && (lit 0 0 ≤? slope) else lit 0 0 <? favor in
      record {
        value = value;
        slope = slope;
        hist = hist_val;
        favorability = num.round favor 6;
        eligible = eligible;
      }

  classify_lines : Lines F → TaConfig → Result (MacdState F)
  unfolding classify_values null_state compute_slope
  classify_lines lines config = elim (last? lines.macd_line) [
    | none ↦ ok null_state
    | some value ↦ and_then (or_raise Error.index_error (last? lines.histogram)) λ hist_val. ok (
        classify_values config.macd_enforce_above_zero value hist_val
          (compute_slope lines.macd_line config.macd_slope_lookback))
  ]

  unfoldable pub classify_macd : List Bar → TaConfig → Result (MacdState F)
  unfolding classify_lines compute_macd
  classify_macd bars config =
      and_then (compute_macd (closes bars) config.macd_fast config.macd_slow config.macd_signal)
        λ lines. classify_lines lines config
