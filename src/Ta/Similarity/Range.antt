-- ===== src/Ta/Similarity/Range.antt =====
-- bot/src/bot/ta/similarity.py: the range of the similarity.
use quick_stock_bot.Prelude.{List, Bool-cases, inl, inr, arith, ◌||◌, not, length, nat_eq}
use quick_stock_bot.Num.{Float, lit, ◌≼◌, ◌<?◌, IsOrdered, clamp_bounds}
use quick_stock_bot.Ta.Similarity.{norm, pattern_similarity}

module _ {F : Type 0} ⦃num : Float F⦄ (laws : IsOrdered F) where
  -- The similarity of any two vectors, of whatever lengths and with whatever entries, is between 0
  -- and 1.
  pub pattern_similarity_range :
      (a b : List F) → (lit 0 0 ≼ pattern_similarity a b) × (pattern_similarity a b ≼ lit 1 0)
  unfolding pattern_similarity
  pattern_similarity_range a b =
      let zero_lower = laws.lit_mono 0 0 0 (ground arith) in
      let zero_upper = laws.lit_mono 0 1 0 (ground arith) in
      let mismatch =
        nat_eq (length a) 0 || nat_eq (length b) 0 || not (nat_eq (length a) (length b)) in
      elim (Bool-cases mismatch) [
        | inl differ ↦ rw differ (zero_lower, zero_upper)
        | inr same ↦ rw same (elim (Bool-cases ((norm a <? lit 1 10) || (norm b <? lit 1 10))) [
          | inl short ↦ rw short (zero_lower, zero_upper)
          | inr long ↦ rw long (clamp_bounds laws (lit 0 0) (lit 1 0) _ zero_upper)
        ])
      ]
