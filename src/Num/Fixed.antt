-- ===== src/Num/Fixed.antt =====
-- Fixed-point numbers in units of 10 ^ -12, on which tests and examples run. They have no NaN and
-- no infinity; `tanh` and `log1p` are rough.
use quick_stock_bot.Prelude.{
  ℕ, zero, suc, ◌+◌, ◌*◌, ◌/◌, ◌^◌, ◌≤◌, Bool, false, some, arith, nat_eq,
}
use quick_stock_bot.Prelude.Int.{
  ℤ, pos, negsuc, ◌+ℤ◌, ◌-ℤ◌, ◌*ℤ◌, floor_div, ltb_ℤ, leb_ℤ, neg_ℤ, min_ℤ, max_ℤ,
}
use quick_stock_bot.Num.Decimals.{Decimal}
use quick_stock_bot.Num.Floats.{Float}
use quick_stock_bot.Num.Order.{IsOrdered}

abbrev pub Fixed : Type 0
Fixed = ℤ

abbrev unit : ℕ
unit = 10 ^ 12

abbrev of_decimal : Decimal → Fixed
of_decimal d = floor_div (d.mantissa *ℤ pos unit) (10 ^ d.exponent)

-- rounded down, and 0 for a zero divisor
abbrev quo : Fixed → Fixed → Fixed
quo a (pos zero) = pos 0
quo a (pos (suc n)) = floor_div (a *ℤ pos unit) (suc n)
quo a (negsuc n) = floor_div (neg_ℤ a *ℤ pos unit) (suc n)

abbrev eq_ℤ : ℤ → ℤ → Bool
eq_ℤ (pos a) (pos b) = nat_eq a b
eq_ℤ (negsuc a) (negsuc b) = nat_eq a b
eq_ℤ _ _ = false

-- Newton's steps for the square root of a natural number
unfoldable pub isqrt_from : ℕ → ℕ → ℕ → ℕ
isqrt_from zero n x = x
isqrt_from (suc k) n x = isqrt_from k n ((x + n / x) / 2)

abbrev sqrt : Fixed → Fixed
sqrt (pos n) = pos (isqrt_from 100 (n * unit) (n * unit + 1))
sqrt (negsuc n) = pos 0

instance unfoldable pub fixed_float : Float Fixed
unfolding floor_div ◌+ℤ◌ ◌-ℤ◌ ◌*ℤ◌ isqrt_from
fixed_float = record {
  of_decimal = of_decimal;
  of_int = λ n. n *ℤ pos unit;
  add = ◌+ℤ◌;
  sub = ◌-ℤ◌;
  mul = λ a b. floor_div (a *ℤ b) unit;
  quo = quo;
  negate = neg_ℤ;
  abs = λ a. max_ℤ a (neg_ℤ a);
  lt = ltb_ℤ;
  le = leb_ℤ;
  eq = eq_ℤ;
  floor = λ a. some (floor_div a unit);
  ceil = λ a. some (neg_ℤ (floor_div (neg_ℤ a) unit));
  round = λ a k. a;
  sqrt = sqrt;
  tanh = λ a. max_ℤ (neg_ℤ (pos unit)) (min_ℤ (pos unit) a);
  log1p = λ a. a;
  infinity = pos (10 ^ 30);
  repr = λ a. record { mantissa = a; exponent = 12 };
}

div_mono : (a b d : ℕ) → a ≤ b → a / d ≤ b / d
div_mono a b d h = grind arith

pub Fixed-IsOrdered : IsOrdered Fixed
unfolding fixed_float floor_div ◌*ℤ◌
Fixed-IsOrdered = record {
  number_of_le = λ x y h. ground arith;
  le_trans = λ x y z p q. ground arith;
  le_of_lt = λ x y h. ground arith;
  lt_of_not_le = λ x y nx ny h. ground arith;
  not_le_of_lt = λ x y h. ground arith;
  lit_mono = λ m n k h. ground (arith, div_mono (m * unit) (n * unit) (10 ^ k));
}
