-- ===== src/Prelude/Dict.antt =====
-- A Python dict keyed by text, in insertion order.
use Prim.Native.String.{String}
use mathlib.Core.Path.{◌≡◌, refl}
use mathlib.Core.Bool.{Bool}
use mathlib.Core.Option.{Option, none, some, some-injective}
use mathlib.Core.List.{List, [], ◌∷◌}
use native.Mathlib.Omega.{arith}
use text.Mathlib.Text.{◌==◌}
use text.Mathlib.TextEquality.{eq_iff}
use quick_stock_bot.Prelude.Tests.{if◌then◌else◌, is_some, Bool-cases}
use mathlib.Core.Logic.{inl, inr}

abbrev pub Dict {ℓ} : Type ℓ → Type ℓ
Dict V = List (String × V)

module _ {ℓ} {V : Type ℓ} where
  -- `d.get(k)`
  abbrev pub lookup : String → Dict V → Option V
  lookup k [] = none
  lookup k ((j, v) ∷ d) = if j == k then some v else lookup k d

  -- `k in d`
  abbrev pub contains : String → Dict V → Bool
  contains k d = is_some (lookup k d)

  -- `d[k] = v`
  abbrev pub insert : String → V → Dict V → Dict V
  insert k v [] = (k, v) ∷ []
  insert k v ((j, w) ∷ d) = if j == k then (j, v) ∷ d else (j, w) ∷ insert k v d

  -- `del d[k]`
  abbrev pub erase : String → Dict V → Dict V
  erase k [] = []
  erase k ((j, w) ∷ d) = if j == k then d else (j, w) ∷ erase k d

  -- `list(d)`
  abbrev pub keys : Dict V → List String
  keys [] = []
  keys ((j, _) ∷ d) = j ∷ keys d

  -- `d.values()`
  abbrev pub values : Dict V → List V
  values [] = []
  values ((_, v) ∷ d) = v ∷ values d

  pub lookup-insert :
      (k j : String) (v : V) (d : Dict V)
      → lookup j (insert k v d) ≡ (if k == j then some v else lookup j d)
  lookup-insert k j v [] = refl
  lookup-insert k j v ((i, w) ∷ d) =
      ground (arith, eq_iff k j, eq_iff i k, eq_iff i j, lookup-insert k j v d)

  -- every entry satisfies `P`, and no key is listed twice
  abbrev pub Each {κ} : (String → V → Type κ) → Dict V → Type κ
  Each P [] = Unit
  Each P ((k, v) ∷ d) = P k v × Each P d

module _ {ℓ κ} {V : Type ℓ} (P : String → V → Type κ) where
  pub Each-insert : (k : String) (v : V) (d : Dict V) → P k v → Each P d → Each P (insert k v d)
  Each-insert k v [] p h = (p, tt)
  Each-insert k v ((j, w) ∷ d) p (q, h) = elim (Bool-cases (j == k)) [
    | inl same ↦ rw same (rw ((eq_iff j k).0 same) (p, h))
    | inr other ↦ rw other (q, Each-insert k v d p h)
  ]

  pub Each-erase : (k : String) (d : Dict V) → Each P d → Each P (erase k d)
  Each-erase k [] h = tt
  Each-erase k ((j, w) ∷ d) (q, h) = elim (Bool-cases (j == k)) [
    | inl same ↦ rw same h
    | inr other ↦ rw other (q, Each-erase k d h)
  ]

  pub Each-lookup : (k : String) (v : V) (d : Dict V) → lookup k d ≡ some v → Each P d → P k v
  Each-lookup k v [] e h = absurd (ground arith)
  Each-lookup k v ((j, w) ∷ d) e (q, h) = elim (Bool-cases (j == k)) [
    | inl same ↦
        let e' : w ≡ v = some-injective _ _ (rw same at e) in rw (← (eq_iff j k).0 same, ← e') q
    | inr other ↦ Each-lookup k v d (rw other at e) h
  ]
