-- ===== src/Num/Order.antt =====
-- What IEEE 754 promises of comparisons, NaN included.
use quick_stock_bot.Prelude.{ℕ, ◌≤◌, ◌≡◌, true, false, arith, if◌then◌else◌}
use quick_stock_bot.Num.Floats.{Float, lit, max_f, min_f}

module _ {F : Type 0} ⦃num : Float F⦄ where
  infix 4 ◌≼◌ ◌≺◌
  abbrev pub ◌≼◌ : F → F → Type 0
  x ≼ y = num.le x y ≡ true

  abbrev pub ◌≺◌ : F → F → Type 0
  x ≺ y = num.lt x y ≡ true

  -- not NaN
  abbrev pub IsNumber : F → Type 0
  IsNumber x = x ≼ x

-- NaN is the value that is not `<=` itself; away from it the order is total.
pub record IsOrdered (F : Type 0) ⦃num : Float F⦄ : Type 0 where
  pub number_of_le : (x y : F) → x ≼ y → IsNumber x × IsNumber y
  pub le_trans : (x y z : F) → x ≼ y → y ≼ z → x ≼ z
  pub le_of_lt : (x y : F) → x ≺ y → x ≼ y
  pub lt_of_not_le : (x y : F) → IsNumber x → IsNumber y → num.le x y ≡ false → y ≺ x
  pub not_le_of_lt : (x y : F) → x ≺ y → num.le y x ≡ false
  pub lit_mono : (m n k : ℕ) → m ≤ n → lit {F = F} m k ≼ lit n k

module _ {F : Type 0} ⦃num : Float F⦄ (laws : IsOrdered F) where
  open laws use {number_of_le, le_trans, le_of_lt, lt_of_not_le, not_le_of_lt}

  -- `max(lo, min(hi, x))` lies in the range for every `x`, NaN included.
  pub clamp_bounds :
      (lo hi x : F) → lo ≼ hi → (lo ≼ max_f lo (min_f hi x)) × (max_f lo (min_f hi x) ≼ hi)
  clamp_bounds lo hi x h =
      ground (arith, number_of_le lo hi h, le_of_lt x hi, le_of_lt lo x, le_of_lt lo hi)

  pub max_f_upper : (x y : F) → IsNumber x → IsNumber y → (x ≼ max_f x y) × (y ≼ max_f x y)
  max_f_upper x y nx ny = ground (arith, le_of_lt x y, lt_of_not_le y x ny nx)

  pub max_f_mono : (x y z : F) → IsNumber x → IsNumber y → x ≼ z → y ≼ z → max_f x y ≼ z
  max_f_mono x y z nx ny p q = ground arith

  -- Among numbers `<` is the negation of the reversed `<=`.
  pub lt-eq-not-le :
      (x y : F) → IsNumber x → IsNumber y → num.lt x y ≡ (if num.le y x then false else true)
  lt-eq-not-le x y nx ny = ground (arith, lt_of_not_le y x ny nx, not_le_of_lt x y)
