-- ===== src/Control/Values.antt =====
-- What bot/src/bot/control/db.py makes of texts and of JSON values. The values of a patch are JSON
-- scalars and lists of texts.
use quick_stock_bot.Prelude.{
  Bool, true, false, ◌||◌, not, String, List, [], ◌∷◌, Option, none, some, Result, ok, err, Error,
  ◌==◌, if◌then◌else◌,
}
use quick_stock_bot.Prelude.Int.{ℤ, pos}
use quick_stock_bot.Num.{Float, lit, ◌<?◌, is_zero}

pub data Json (F : Type 0) : Type 0 where
  null : Json F
  flag : Bool → Json F
  integer : ℤ → Json F
  number : F → Json F
  text : String → Json F
  texts : List String → Json F

-- Python's conversions of numbers, lists and texts: `str`, `int`, `float`, `lower`, and `json`'s of
-- lists of texts
pub record Conversions (F : Type 0) : Type 0 where
  pub show_int : ℤ → String
  pub show_float : F → String
  pub show_list : List String → String
  pub read_int : String → Option ℤ
  pub read_float : String → Option F
  pub lower : String → String
  pub dumps : List String → String
  pub loads : String → Option (List String)

-- the texts that mean true
unfoldable pub is_true_text : String → Bool
is_true_text s = (s == "true") || ((s == "1") || (s == "yes"))

module _ {F : Type 0} ⦃num : Float F⦄ where
  -- `bool(v)`
  unfoldable pub truthy : Json F → Bool
  truthy null = false
  truthy (flag b) = b
  truthy (integer n) = not (is_zero n)
  truthy (number x) = not (num.eq x (lit 0 0))
  truthy (text s) = not (s == "")
  truthy (texts []) = false
  truthy (texts (_ ∷ _)) = true

module _ {F : Type 0} ⦃num : Float F⦄ (conv : Conversions F) where
  open conv use {show_int, show_float, show_list, read_int, read_float, lower, dumps, loads}

  unfoldable pub coerce_bool : Option String → Bool → Bool
  unfolding is_true_text
  coerce_bool none default = default
  coerce_bool (some v) default = is_true_text (lower v)

  unfoldable pub coerce_int : Option String → ℤ → ℤ
  coerce_int none default = default
  coerce_int (some v) default = elim (read_int v) [ none ↦ default | some n ↦ n ]

  unfoldable pub coerce_float : Option String → F → F
  coerce_float none default = default
  coerce_float (some v) default = elim (read_float v) [ none ↦ default | some x ↦ x ]

  unfoldable pub coerce_list : Option String → List String
  coerce_list none = []
  coerce_list (some v) = if v == "" then [] else elim (loads v) [ none ↦ [] | some items ↦ items ]

  -- `str(v)`
  unfoldable pub str : Json F → String
  str null = "None"
  str (flag b) = if b then "True" else "False"
  str (integer n) = show_int n
  str (number x) = show_float x
  str (text s) = s
  str (texts items) = show_list items

  unfoldable pub serialize_value : Json F → String
  unfolding str
  serialize_value (flag b) = if b then "true" else "false"
  serialize_value (texts items) = dumps items
  serialize_value null = str null
  serialize_value (integer n) = str (integer n)
  serialize_value (number x) = str (number x)
  serialize_value (text s) = str (text s)

  -- `int(v)`; a float is cut off towards zero
  unfoldable pub to_int : Json F → Result ℤ
  to_int null = err Error.type_error
  to_int (flag b) = ok (if b then pos 1 else pos 0)
  to_int (integer n) = ok n
  to_int (number x) = elim (if x <? lit 0 0 then num.ceil x else num.floor x) [
    | none ↦ err Error.not_finite
    | some n ↦ ok n
  ]
  to_int (text s) = elim (read_int s) [ none ↦ err Error.value_error | some n ↦ ok n ]
  to_int (texts items) = err Error.type_error

  -- `float(v)`
  unfoldable pub to_float : Json F → Result F
  to_float null = err Error.type_error
  to_float (flag b) = ok (if b then lit 1 0 else lit 0 0)
  to_float (integer n) = ok (num.of_int n)
  to_float (number x) = ok x
  to_float (text s) = elim (read_float s) [ none ↦ err Error.value_error | some x ↦ ok x ]
  to_float (texts items) = err Error.type_error
