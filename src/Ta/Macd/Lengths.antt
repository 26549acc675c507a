-- ===== src/Ta/Macd/Lengths.antt =====
-- bot/src/bot/ta/macd.py, `compute_macd`: how long its lines are, and that its indices are in range.
use mathlib.Core.List.{zip}
use mathlib.Core.Path.{subst}
use quick_stock_bot.Prelude.{
  ℕ, zero, suc, ◌+◌, ◌-◌, ◌≤◌, ◌<◌, List, [], ◌∷◌, some, ok, ◌≡◌, ◌∙◌, refl, sym, arith, Bool-cases,
  inl, inr, ltb, length, map, take, drop,
}
use quick_stock_bot.Prelude.Int.{pos, sub_ℕ, ◌+ℤ◌}
use quick_stock_bot.Num.{Float, ◌⊖◌, ◌⊗◌, ◌⊕◌, lit, ◌⊘◌}
use quick_stock_bot.Ta.Helpers.{sum}
use quick_stock_bot.Ta.Macd.{
  get_elem?, index, ema_from, ema, macd_line_from, Lines, with_signal, macd_of_emas, compute_macd,
}

module _ {ℓ} {A : Type ℓ} where
  length-drop : (n : ℕ) (xs : List A) → length (drop n xs) ≡ length xs - n
  length-drop zero xs = ground arith
  length-drop (suc n) [] = ground arith
  length-drop (suc n) (x ∷ xs) = ground (arith, length-drop n xs)

  get_elem?-some : (xs : List A) (i : ℕ) → i < length xs → (x : A) × (get_elem? xs i ≡ some x)
  get_elem?-some [] i h = absurd (ground arith)
  get_elem?-some (x ∷ xs) zero h = (x, refl)
  get_elem?-some (x ∷ xs) (suc i) h = get_elem?-some xs i (ground arith)

module _ {ℓ κ} {A : Type ℓ} {B : Type κ} where
  length-map : (f : A → B) (xs : List A) → length (map f xs) ≡ length xs
  length-map f [] = refl
  length-map f (x ∷ xs) = ground (arith, length-map f xs)

  length-zip : (xs : List A) (ys : List B) → length xs ≡ length ys → length (zip xs ys) ≡ length ys
  unfolding zip
  length-zip [] [] h = refl
  length-zip [] (y ∷ ys) h = absurd (ground arith)
  length-zip (x ∷ xs) [] h = refl
  length-zip (x ∷ xs) (y ∷ ys) h = ground (arith, length-zip xs ys)

module _ {F : Type 0} ⦃num : Float F⦄ where
  length-ema_from :
      (alpha prev : F) (vs : List F) → length (ema_from alpha prev vs) ≡ suc (length vs)
  unfolding ema_from
  length-ema_from alpha prev [] = refl
  length-ema_from alpha prev (v ∷ vs) =
      ground (arith, length-ema_from alpha (alpha ⊗ v ⊕ (lit 1 0 ⊖ alpha) ⊗ prev) vs)

  -- The average over a positive period exists, with one value for each full window.
  record IsAverage (values : List F) (period : ℕ) : Type 0 where
    average : List F
    average_eq : ema values period ≡ ok average
    length_eq : length average ≡ suc (length values) - period

  ema-IsAverage : (values : List F) (period : ℕ) → 1 ≤ period → IsAverage values period
  unfolding ema
  ema-IsAverage values period h = elim (Bool-cases (ltb (length values) period)) [
    | inl few ↦ record { average = []; average_eq = rw few refl; length_eq = ground arith }
    | inr many ↦
        let alpha = lit 2 0 ⊘ num.of_int (pos (period + 1)) in
        let seed = sum (take period values) ⊘ num.of_int (pos period) in
        record {
          average = ema_from alpha seed (drop period values);
          average_eq = ground arith;
          length_eq =
              ground
                (arith, length-ema_from alpha seed (drop period values), length-drop period values);
        }
  ]

  -- The indices of the subtraction are in range when `fast_ema` is long enough.
  macd_line_some :
      (fast_ema : List F) (offset k : ℕ) (slow_ema : List F)
      → k + offset + length slow_ema ≤ length fast_ema
      → (line : List F) × (macd_line_from fast_ema (pos offset) k slow_ema ≡ ok line)
        × (length line ≡ length slow_ema)
  unfolding macd_line_from index ◌+ℤ◌
  macd_line_some fast_ema offset k [] h = ([], refl, refl)
  macd_line_some fast_ema offset k (s ∷ slow_ema) h =
      let (f, found) = get_elem?-some fast_ema (k + offset) (ground arith) in
      let (rest, rest_eq, rest_length) =
        macd_line_some fast_ema offset (suc k) slow_ema (ground arith) in
      ((f ⊖ s) ∷ rest, ground arith, ground arith)

  -- the three lists have `n` entries each
  pub record IsAligned (lines : Lines F) (n : ℕ) : Type 0 where
    pub macd_length : length lines.macd_line ≡ n
    pub signal_length : length lines.signal_line ≡ n
    pub histogram_length : length lines.histogram ≡ n

  with_signal-IsAligned :
      (macd_line sig_line : List F)
      → length sig_line ≤ length macd_line
      → IsAligned (with_signal macd_line sig_line) (length sig_line)
  unfolding with_signal
  with_signal-IsAligned macd_line [] h = record {
    macd_length = refl;
    signal_length = refl;
    histogram_length = refl;
  }
  with_signal-IsAligned macd_line (g ∷ sig_line) h =
      let aligned = drop (length macd_line - length (g ∷ sig_line)) macd_line in
      let same : length aligned ≡ length (g ∷ sig_line) =
        ground (arith, length-drop (length macd_line - length (g ∷ sig_line)) macd_line) in
      record {
        macd_length = same;
        signal_length = refl;
        histogram_length =
            length-map (λ p. p.0 ⊖ p.1) (zip aligned (g ∷ sig_line))
            ∙ length-zip aligned (g ∷ sig_line) same;
      }

  IsAligned-at : {lines : Lines F} {m n : ℕ} → m ≡ n → IsAligned lines m → IsAligned lines n
  IsAligned-at {lines} e h = subst (IsAligned lines) e h

  nothing-IsAligned : {n : ℕ} → n ≡ 0 → IsAligned (with_signal [] []) n
  nothing-IsAligned e = IsAligned-at (sym e) (with_signal-IsAligned [] [] (ground arith))

  macd_of_emas-IsAligned :
      (fast_ema slow_ema : List F) (offset signal : ℕ)
      → 1 ≤ signal
      → (1 ≤ length slow_ema → offset + length slow_ema ≤ length fast_ema)
      → (lines : Lines F) × (macd_of_emas fast_ema slow_ema (pos offset) signal ≡ ok lines)
        × IsAligned lines (suc (length slow_ema) - signal)
  unfolding macd_of_emas with_signal
  macd_of_emas-IsAligned [] slow_ema offset signal h long =
      (with_signal [] [], refl, nothing-IsAligned (ground arith))
  macd_of_emas-IsAligned (f ∷ fast_ema) [] offset signal h long =
      (with_signal [] [], refl, nothing-IsAligned (ground arith))
  macd_of_emas-IsAligned (f ∷ fast_ema) (s ∷ slow_ema) offset signal h long =
      let (line, line_eq, line_length) =
        macd_line_some (f ∷ fast_ema) offset 0 (s ∷ slow_ema) (ground arith) in
      let a = ema-IsAverage line signal h in
      (
        with_signal line a.average,
        rw line_eq (rw a.average_eq refl),
        IsAligned-at (ground (arith, a.length_eq))
            (with_signal-IsAligned line a.average (ground (arith, a.length_eq))),
      )

  -- For periods with 1 <= fast <= slow and 1 <= signal, `compute_macd` raises nothing and returns
  -- three lists of one length: the number of prices beyond slow + signal - 2. So they are empty
  -- exactly below the minimum of slow + signal - 1 prices.
  pub compute_macd-IsAligned :
      (prices : List F) (fast slow signal : ℕ)
      → 1 ≤ fast
      → fast ≤ slow
      → 1 ≤ signal
      → (lines : Lines F) × (compute_macd prices fast slow signal ≡ ok lines)
        × IsAligned lines (length prices + 2 - (slow + signal))
  unfolding compute_macd
  compute_macd-IsAligned prices fast slow signal hf hs hg =
      let f = ema-IsAverage prices fast hf in
      let s = ema-IsAverage prices slow (ground arith) in
      let (lines, lines_eq, aligned) =
        macd_of_emas-IsAligned f.average s.average (slow - fast) signal hg
          (ground (arith, f.length_eq, s.length_eq)) in
      let offset_eq : sub_ℕ slow fast ≡ pos (slow - fast) = ground arith in
      (
        lines,
        rw f.average_eq (rw s.average_eq (rw offset_eq lines_eq)),
        IsAligned-at (ground (arith, s.length_eq)) aligned,
      )
