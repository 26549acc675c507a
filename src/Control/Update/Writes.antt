-- ===== src/Control/Update/Writes.antt =====
-- bot/src/bot/control/handlers.py: what the loop of writes of `update_settings` leaves.
use quick_stock_bot.Prelude.{
  Bool, false, String, [], ◌∷◌, ◌++◌, Option, none, some, Result, ok, err, Error, ◌≡◌, refl, sym,
  ap, ◌∙◌, ◌⊎◌, inl, inr, arith, ◌==◌, eq_iff, Bool-cases, if◌then◌else◌,
}
use quick_stock_bot.Prelude.Dict.{lookup, lookup-insert, contains}
use quick_stock_bot.Prelude.Action.{pure, lift, modify, ◌>>=◌}
use quick_stock_bot.Num.{Float}
use quick_stock_bot.Control.Values.{Json, Conversions}
use quick_stock_bot.Control.Database.{Database, set_setting}
use quick_stock_bot.Control.Update.Entries.{IsDict, Listed}
use quick_stock_bot.Control.Update.{Patch, serialized, write_if, write_all}

module _ {F : Type 0} ⦃num : Float F⦄ (conv : Conversions F) where
  pub write_all-nil : (db : Database F) → write_all conv [] db ≡ (ok tt, db)
  unfolding write_all pure
  write_all-nil db = refl

  -- a step of the loop that returned
  write_all-ok :
      (key : String) (val : Json F) (patch : Patch F) (db : Database F) {value : Option String}
      → serialized conv key val ≡ ok value
      → write_all conv ((key, val) ∷ patch) db ≡ write_all conv patch (write_if conv key value db)
  unfolding write_all ◌>>=◌ lift modify
  write_all-ok key val patch db {value} e =
      ap
        (λ (r : Result (Option String)). elim r [
          | ok v ↦ write_all conv patch (write_if conv key v db)
          | err x ↦ (err x, db)
        ])
        e

  -- a value that cannot be converted ends it
  write_all-err :
      (key : String) (val : Json F) (patch : Patch F) (db : Database F) {e : Error}
      → serialized conv key val ≡ err e
      → write_all conv ((key, val) ∷ patch) db ≡ (err e, db)
  unfolding write_all ◌>>=◌ lift modify
  write_all-err key val patch db e =
      ap
        (λ (r : Result (Option String)). elim r [
          | ok v ↦ write_all conv patch (write_if conv key v db)
          | err x ↦ (err x, db)
        ])
        e

  -- the value of `j` after one write
  abbrev pub put_text : String → Option String → String → Option String → Option String
  put_text key none j old = old
  put_text key (some t) j old = if key == j then some t else old

  lookup-write_if :
      (key j : String) (value : Option String) (db : Database F)
      → lookup j (write_if conv key value db).settings ≡ put_text key value j (lookup j db.settings)
  unfolding write_if set_setting
  lookup-write_if key j none db = refl
  lookup-write_if key j (some t) db = lookup-insert key j t db.settings

  pub Result-cases :
      {A : Type 0} (r : Result A) → ((a : A) × (r ≡ ok a)) ⊎ ((e : Error) × (r ≡ err e))
  Result-cases (ok a) = inl (a, refl)
  Result-cases (err e) = inr (e, refl)

  -- where a setting comes from
  abbrev pub Comes : String → Patch F → Option String → Option String → Type 0
  Comes j patch old new =
      (new ≡ old)
      ⊎ ((v : Json F) × (t : String) × Listed j v patch
          × (serialized conv j v ≡ ok (some t))
          × (new ≡ some t))

  Comes-cons :
      (j key : String) (val : Json F) (patch : Patch F) (value : Option String)
      (old new : Option String)
      → serialized conv key val ≡ ok value
      → Comes j patch (put_text key value j old) new
      → Comes j ((key, val) ∷ patch) old new
  Comes-cons j key val patch value old new e (inr (v, t, l, s, n)) = inr (v, t, inr l, s, n)
  Comes-cons j key val patch none old new e (inl n) = inl n
  Comes-cons j key val patch (some t) old new e (inl n) = elim (Bool-cases (key == j)) [
    | inl same ↦
        let same_key : key ≡ j = (eq_iff key j).0 same in
        inr (val, t, inl (same_key, refl), rw (← same_key) e, ground (arith, n, same))
    | inr other ↦ inl (ground (arith, n, other))
  ]

  pub write_all-Comes :
      (j : String) (patch : Patch F) (db : Database F)
      → Comes j patch (lookup j db.settings) (lookup j (write_all conv patch db).1.settings)
  write_all-Comes j [] db = rw (write_all-nil db) (inl refl)
  write_all-Comes j ((key, val) ∷ patch) db = elim (Result-cases (serialized conv key val)) [
    | inr (e, failed) ↦ rw (write_all-err key val patch db failed) (inl refl)
    | inl (value, done) ↦ rw (write_all-ok key val patch db done) (
        Comes-cons j key val patch value (lookup j db.settings) _ done (
          rw (← (lookup-write_if key j value db))
            (write_all-Comes j patch (write_if conv key value db))))
  ]

  -- what a value writes
  abbrev pub value_of : Result (Option String) → Option String
  value_of (ok value) = value
  value_of (err e) = none

  -- the setting `j` after its value in the patch, if there is one, is written over `old`
  pub written_as : String → Option (Json F) → Option String → Option String
  written_as j none old = old
  written_as j (some v) old = put_text j (value_of (serialized conv j v)) j old

  abbrev pub written : String → Patch F → Option String → Option String
  written j patch old = written_as j (lookup j patch) old

  lookup_missing : (j : String) (patch : Patch F) → contains j patch ≡ false → lookup j patch ≡ none
  lookup_missing j patch h = ground (arith, h)

  put_text_self :
      (key j : String) (value old : Option String)
      → key ≡ j
      → put_text key value j old ≡ put_text j value j old
  put_text_self key j none old k = refl
  put_text_self key j (some t) old k = ground (arith, k, eq_iff key j, eq_iff j j)

  put_text_other :
      (key j : String) (value old : Option String)
      → (key == j) ≡ false
      → put_text key value j old ≡ old
  put_text_other key j none old h = refl
  put_text_other key j (some t) old h = ground (arith, h)

  written-cons :
      (j key : String) (val : Json F) (patch : Patch F) (value old : Option String)
      → contains key patch ≡ false
      → serialized conv key val ≡ ok value
      → written j patch (put_text key value j old) ≡ written j ((key, val) ∷ patch) old
  unfolding written_as
  written-cons j key val patch value old new e = elim (Bool-cases (key == j)) [
    | inl same ↦
        let k : key ≡ j = (eq_iff key j).0 same in
        let e' : serialized conv j val ≡ ok value = rw (← k) e in
        ap (λ (o : Option (Json F)). written_as j o (put_text key value j old))
          (lookup_missing j patch (rw (← k) new))
        ∙ put_text_self key j value old k
        ∙ ap (λ (r : Result (Option String)). put_text j (value_of r) j old) (sym e')
        ∙ ap (λ (b : Bool). written_as j (if b then some val else lookup j patch) old) (sym same)
    | inr other ↦
        ap (written_as j (lookup j patch)) (put_text_other key j value old other)
        ∙ ap (λ (b : Bool). written_as j (if b then some val else lookup j patch) old) (sym other)
  ]

  pub write_all-written :
      (j : String) (patch : Patch F) (db : Database F)
      → IsDict patch
      → (write_all conv patch db).0 ≡ ok tt
      → lookup j (write_all conv patch db).1.settings ≡ written j patch (lookup j db.settings)
  write_all-written j [] db h r = nothing
    where
      nothing : lookup j (write_all conv [] db).1.settings ≡ written j [] (lookup j db.settings)
      nothing = unfold written_as in rw (write_all-nil db)
  write_all-written j ((key, val) ∷ patch) db (new, h) r =
      elim (Result-cases (serialized conv key val)) [
        | inr (e, failed) ↦ absurd (ground (arith, write_all-err key val patch db failed, r))
        | inl (value, done) ↦
            let step = write_all-ok key val patch db done in
            rw step (
              write_all-written j patch (write_if conv key value db) h (rw step at r)
              ∙ ap (written j patch) (lookup-write_if key j value db)
              ∙ written-cons j key val patch value (lookup j db.settings) new done)
      ]

  -- A loop that raised wrote the entries before the first value that cannot be converted.
  pub write_all-partial :
      (patch : Patch F) (db : Database F) {e : Error}
      → (write_all conv patch db).0 ≡ err e
      → (done : Patch F) × (key : String) × (val : Json F) × (rest : Patch F) × (patch
          ≡ done ++ ((key, val) ∷ rest))
        × (serialized conv key val ≡ err e)
        × (write_all conv done db ≡ (ok tt, (write_all conv patch db).1))
  write_all-partial [] db r = absurd (ground (arith, write_all-nil db, r))
  write_all-partial ((key, val) ∷ patch) db {e} r = elim (Result-cases (serialized conv key val)) [
    | inr (x, failed) ↦
        let stop = write_all-err key val patch db failed in
        ([], key, val, patch, refl, ground (arith, stop, r, failed), rw stop (write_all-nil db))
    | inl (value, ok_value) ↦
        let step = write_all-ok key val patch db ok_value in
        let (done, k, v, rest, split, failed, before) =
          write_all-partial patch (write_if conv key value db) (rw step at r) in
        (
          (key, val) ∷ done,
          k,
          v,
          rest,
          ap (λ (ps : Patch F). (key, val) ∷ ps) split,
          failed,
          write_all-ok key val done db ok_value ∙ rw step before,
        )
  ]
