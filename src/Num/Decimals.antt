-- ===== src/Num/Decimals.antt =====
-- `decimal.Decimal`, finite values only (pydantic refuses the others): `mantissa / 10 ^ exponent`.
use quick_stock_bot.Prelude.{ℕ, ◌^◌, Bool, if◌then◌else◌}
use quick_stock_bot.Prelude.Int.{ℤ, pos, ◌+ℤ◌, ◌*ℤ◌, ltb_ℤ}

pub record Decimal : Type 0 where
  pub mantissa : ℤ
  pub exponent : ℕ

-- the mantissa of `d` over the denominator of `d` and `e` together
abbrev aligned : Decimal → Decimal → ℤ
aligned d e = d.mantissa *ℤ pos (10 ^ e.exponent)

-- `d < e`
unfoldable pub lt_decimal : Decimal → Decimal → Bool
lt_decimal d e = ltb_ℤ (aligned d e) (aligned e d)

-- `bool(d)`
abbrev pub is_zero : ℤ → Bool
is_zero m =
    if ltb_ℤ m (pos 0) then Bool.false else if ltb_ℤ (pos 0) m then Bool.false else Bool.true

unfoldable pub add_decimal : Decimal → Decimal → Decimal
add_decimal d e =
    let total = aligned d e +ℤ aligned e d in
    record { mantissa = total; exponent = Prim.Native.Nat.◌+◌ d.exponent e.exponent }

-- `Decimal(str(n))` of an integer
abbrev pub decimal_of_int : ℤ → Decimal
decimal_of_int n = record { mantissa = n; exponent = 0 }
