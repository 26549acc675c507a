-- ===== src/Ta/Similarity.antt =====
-- bot/src/bot/ta/similarity.py: feature vectors of candle windows and their cosine.
pub mod Range
use mathlib.Core.List.{zip}
use quick_stock_bot.Prelude.{◌||◌, not, List, [], ◌∷◌, ◌++◌, if◌then◌else◌, map, length, nat_eq}
use quick_stock_bot.Prelude.Int.{pos}
use quick_stock_bot.Num.{Float, lit, ◌⊕◌, ◌⊖◌, ◌⊗◌, ◌⊘◌, ◌<?◌, min_f, max_f}
use quick_stock_bot.Models.{Bar}
use quick_stock_bot.Ta.Helpers.{sum, sum_ℤ, volumes}

module _ {F : Type 0} ⦃num : Float F⦄ where
  -- the five features of one candle
  features : F → Bar → List F
  features mean_vol b =
      let o = num.of_decimal b.open_price in
      let h = num.of_decimal b.high in
      let lo = num.of_decimal b.low in
      let c = num.of_decimal b.close in
      let rng = h ⊖ lo in
      let eps = lit 1 10 in
      (c ⊖ o) ⊘ (o ⊕ eps)
      ∷ num.abs (c ⊖ o) ⊘ (rng ⊕ eps)
      ∷ (h ⊖ max_f o c) ⊘ (rng ⊕ eps)
      ∷ (min_f o c ⊖ lo) ⊘ (rng ⊕ eps)
      ∷ num.of_int b.volume ⊘ (mean_vol ⊕ eps)
      ∷ []

  vector : F → List Bar → List F
  unfolding features
  vector mean_vol [] = []
  vector mean_vol (b ∷ bars) = features mean_vol b ++ vector mean_vol bars

  unfoldable pub pattern_signature : List Bar → List F
  unfolding vector
  pattern_signature [] = []
  pattern_signature (b ∷ bars) =
      vector (num.of_int (sum_ℤ (volumes (b ∷ bars))) ⊘ num.of_int (pos (length (b ∷ bars))))
        (b ∷ bars)

  dot : List F → List F → F
  dot a b = sum (map (λ p. p.0 ⊗ p.1) (zip a b))

  norm : List F → F
  norm a = num.sqrt (sum (map (λ x. x ⊗ x) a))

  unfoldable pub pattern_similarity : List F → List F → F
  unfolding dot norm
  pattern_similarity a b =
      if nat_eq (length a) 0 || nat_eq (length b) 0 || not (nat_eq (length a) (length b))
      then lit 0 0
      else if (norm a <? lit 1 10) || (norm b <? lit 1 10)
      then lit 0 0
      else max_f (lit 0 0) (min_f (lit 1 0) (dot a b ⊘ (norm a ⊗ norm b)))
