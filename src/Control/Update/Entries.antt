-- ===== src/Control/Update/Entries.antt =====
-- bot/src/bot/control/handlers.py: the entries of a patch, and of a patch without a key.
use quick_stock_bot.Prelude.{
  true, false, String, [], ◌∷◌, some, ◌≡◌, ◌⊎◌, inl, inr, arith, ◌==◌, eq_iff, Bool-cases,
  if◌then◌else◌,
}
use quick_stock_bot.Prelude.Dict.{lookup, contains}
use quick_stock_bot.Control.Values.{Json}
use quick_stock_bot.Control.Update.{Patch, without}

-- no key twice, as in every Python dict
abbrev pub IsDict : {F : Type 0} → Patch F → Type 0
IsDict [] = Unit
IsDict ((key, _) ∷ patch) = (contains key patch ≡ false) × IsDict patch

-- the entry stands in the patch
abbrev pub Listed : {F : Type 0} → String → Json F → Patch F → Type 0
Listed j v [] = ⊥
Listed j v ((key, val) ∷ patch) = ((key ≡ j) × (val ≡ v)) ⊎ Listed j v patch

module _ {F : Type 0} where
  pub contains-without :
      (k key : String) (patch : Patch F)
      → contains k (without key patch) ≡ (if key == k then false else contains k patch)
  unfolding without
  contains-without k key [] = ground arith
  contains-without k key ((j, v) ∷ patch) =
      ground (arith, eq_iff j key, eq_iff j k, eq_iff key k, contains-without k key patch)

  pub without-IsDict : (key : String) (patch : Patch F) → IsDict patch → IsDict (without key patch)
  unfolding without
  without-IsDict key [] h = tt
  without-IsDict key ((j, v) ∷ patch) (new, h) = elim (Bool-cases (j == key)) [
    | inl same ↦ rw same (without-IsDict key patch h)
    | inr other ↦
        rw other (ground (arith, contains-without j key patch, new), without-IsDict key patch h)
  ]

  -- an entry of what is left stood in the patch, under another key
  pub Listed-without :
      (j key : String) (v : Json F) (patch : Patch F)
      → Listed j v (without key patch)
      → (key == j) ≡ false
  unfolding without
  Listed-without j key v [] l = absurd l
  Listed-without j key v ((k, w) ∷ patch) l = elim (Bool-cases (k == key)) [
    | inl same ↦ Listed-without j key v patch (rw same at l)
    | inr other ↦ elim (rw other at l) [
      | inl (e, _) ↦ ground (arith, e, other, eq_iff k key, eq_iff key j)
      | inr l' ↦ Listed-without j key v patch l'
    ]
  ]

  Listed-contains :
      (j : String) (v : Json F) (patch : Patch F) → Listed j v patch → contains j patch ≡ true
  Listed-contains j v [] l = absurd l
  Listed-contains j v ((k, w) ∷ patch) (inl (e, _)) = ground (arith, e, eq_iff k j)
  Listed-contains j v ((k, w) ∷ patch) (inr l) = ground (arith, Listed-contains j v patch l)

  pub lookup-Listed :
      (j : String) (v : Json F) (patch : Patch F)
      → IsDict patch
      → Listed j v patch
      → lookup j patch ≡ some v
  lookup-Listed j v [] h l = absurd l
  lookup-Listed j v ((k, w) ∷ patch) (new, h) (inl (e, f)) = ground (arith, e, f, eq_iff k j)
  lookup-Listed j v ((k, w) ∷ patch) (new, h) (inr l) =
      ground (arith, lookup-Listed j v patch h l, Listed-contains j v patch l, new, eq_iff k j)

  pub Listed-of-without :
      (j key : String) (v : Json F) (patch : Patch F)
      → Listed j v (without key patch)
      → Listed j v patch
  unfolding without
  Listed-of-without j key v [] l = l
  Listed-of-without j key v ((k, w) ∷ patch) l = elim (Bool-cases (k == key)) [
    | inl same ↦ inr (Listed-of-without j key v patch (rw same at l))
    | inr other ↦ elim (rw other at l) [
      | inl e ↦ inl e
      | inr l' ↦ inr (Listed-of-without j key v patch l')
    ]
  ]
