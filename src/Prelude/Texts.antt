-- ===== src/Prelude/Texts.antt =====
-- Python's slices of texts.
use Prim.Native.Nat.{ℕ, zero, suc}
use Prim.Native.String.{String}

-- `s[:n]`
unfoldable pub text_take : ℕ → String → String
text_take zero s = ""
text_take (suc n) String.[] = ""
text_take (suc n) (String.◌∷◌ c s) = String.◌∷◌ c (text_take n s)
