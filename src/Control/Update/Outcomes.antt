-- ===== src/Control/Update/Outcomes.antt =====
-- bot/src/bot/control/handlers.py: how an update of settings ends.
use quick_stock_bot.Prelude.{
  false, eq_iff, String, [], ◌∷◌, ◌++◌, Result, ok, err, Error, ◌≡◌, refl, sym, ap, ◌∙◌, inl, inr,
  arith,
}
use quick_stock_bot.Prelude.Dict.{lookup, contains}
use quick_stock_bot.Prelude.Action.{lift, gets, ◌>>=◌}
use quick_stock_bot.Num.{Float}
use quick_stock_bot.Control.Values.{Json, Conversions}
use quick_stock_bot.Control.Database.{Database, get_all_settings_raw}
use quick_stock_bot.Control.Settings.{Settings, handle_get_settings}
use quick_stock_bot.Control.Update.{
  Patch, accepted, serialized, write_all, get_settings, update_nonempty, handle_update_settings,
}
use quick_stock_bot.Control.Update.Entries.{IsDict, without-IsDict}
use quick_stock_bot.Control.Update.Writes.{
  written, write_all-written, write_all-nil, write_all-partial,
}
use quick_stock_bot.Control.Update.Guards.{accepted-cases, accepted-nil}

prefix-IsDict : {F : Type 0} (done rest : Patch F) → IsDict (done ++ rest) → IsDict done
prefix-IsDict [] rest h = tt
prefix-IsDict ((key, val) ∷ done) rest (new, h) =
    (prefix-new key done rest new, prefix-IsDict done rest h)
  where
    prefix-new :
        {F : Type 0} (key : String) (done rest : Patch F)
        → contains key (done ++ rest) ≡ false
        → contains key done ≡ false
    prefix-new key [] rest h = refl
    prefix-new key ((k, v) ∷ done) rest h =
        ground (arith, eq_iff k key, prefix-new key done rest, h)

module _ {F : Type 0} ⦃num : Float F⦄ (conv : Conversions F) where
  -- the end of an update, after its writes and after its checks
  answered : Result (Unit {0}) → Database F → Result (Settings F) × Database F
  answered (ok _) db = (handle_get_settings conv db, db)
  answered (err e) db = (err e, db)

  checked : Result (Patch F) → Database F → Result (Settings F) × Database F
  checked (err e) db = (err e, db)
  checked (ok patch) db = answered (write_all conv patch db).0 (write_all conv patch db).1

  handle_update_settings-checked :
      (patch : Patch F) (db : Database F)
      → handle_update_settings conv patch db
        ≡ checked (accepted conv (get_all_settings_raw db) patch) db
  unfolding checked answered handle_update_settings update_nonempty ◌>>=◌ gets lift get_settings
  handle_update_settings-checked [] db = sym (
      ap (λ (r : Result (Patch F)). checked r db) (accepted-nil conv (get_all_settings_raw db))
      ∙ ap (λ (p : Result (Unit {0}) × Database F). answered p.0 p.1) (write_all-nil conv db))
  handle_update_settings-checked ((k, v) ∷ patch) db = ground arith

  -- each setting is the text of its value in the patch, or as before
  abbrev pub Written : Patch F → Database F → Database F → Type 0
  Written patch db after =
      (j : String) → lookup j after.settings ≡ written conv j patch (lookup j db.settings)

  -- how an update that raised ended
  pub data Failure (patch : Patch F) (db after : Database F) : Type 0 where
    refused :
        (e : Error)
        → accepted conv (get_all_settings_raw db) patch ≡ err e
        → after ≡ db
        → Failure patch db after
    stopped :
        (done : Patch F) (key : String) (val : Json F) (rest : Patch F) (e : Error)
        → accepted conv (get_all_settings_raw db) patch ≡ ok (done ++ ((key, val) ∷ rest))
        → serialized conv key val ≡ err e
        → write_all conv done db ≡ (ok tt, after)
        → Written done db after
        → Failure patch db after
    unanswered :
        (patch' : Patch F) (e : Error)
        → accepted conv (get_all_settings_raw db) patch ≡ ok patch'
        → write_all conv patch' db ≡ (ok tt, after)
        → Written patch' db after
        → handle_get_settings conv after ≡ err e
        → Failure patch db after

  answered-ok :
      (r : Result (Unit {0})) (db : Database F) {response : Settings F}
      → (answered r db).0 ≡ ok response
      → (r ≡ ok tt)
        × (answered r db ≡ (ok response, db))
        × (handle_get_settings conv db ≡ ok response)
  unfolding answered
  answered-ok (ok u) db h = (refl, ap (λ (x : Result (Settings F)). (x, db)) h, h)
  answered-ok (err e) db h = absurd (ground (arith, h))

  -- the last database is what the accepted patch makes of the first
  pub Updates : Patch F → Settings F → Database F → Database F → Type 0
  Updates patch response db after =
      (patch' : Patch F) × (accepted conv (get_all_settings_raw db) patch ≡ ok patch')
      × ((j : String) → lookup j after.settings ≡ written conv j patch' (lookup j db.settings))
      × (handle_get_settings conv after ≡ ok response)

  without-kept :
      (patch patch' : Patch F) (db : Database F)
      → IsDict patch
      → accepted conv (get_all_settings_raw db) patch ≡ ok patch'
      → IsDict patch'
  without-kept patch patch' db d e =
      elim (accepted-cases conv (get_all_settings_raw db) patch e).0 [
        | inl same ↦ rw same (without-IsDict _ patch d)
        | inr less ↦ rw less (without-IsDict _ _ (without-IsDict _ patch d))
      ]

  checked-ok :
      (patch : Patch F) (db : Database F) (r : Result (Patch F)) {response : Settings F}
      → accepted conv (get_all_settings_raw db) patch ≡ r
      → IsDict patch
      → (checked r db).0 ≡ ok response
      → Updates patch response db (checked r db).1
  unfolding checked Updates
  checked-ok patch db (err x) e d h = absurd (ground (arith, h))
  checked-ok patch db (ok patch') {response} e d h =
      let (all_done, ends, answer) =
        answered-ok (write_all conv patch' db).0 (write_all conv patch' db).1 h in
      rw ends (
        patch',
        e,
        λ j. write_all-written conv j patch' db (without-kept patch patch' db d e) all_done,
        answer,
      )

  -- An update that succeeds has written exactly the accepted part of the patch: afterwards each setting
  -- is the text of its value there, or as before if it has none or is read-only; and the answer is
  -- built from the settings afterwards. A patch has no key twice.
  pub handle_update_settings-Updates :
      (patch : Patch F) (db : Database F) {response : Settings F}
      → IsDict patch
      → (handle_update_settings conv patch db).0 ≡ ok response
      → Updates patch response db (handle_update_settings conv patch db).1
  handle_update_settings-Updates patch db d h =
      let same = handle_update_settings-checked patch db in
      rw same (checked-ok patch db _ refl d (rw same at h))

  answered-Failure :
      (patch patch' : Patch F) (db : Database F) (r : Result (Unit {0})) {e : Error}
      → IsDict patch'
      → accepted conv (get_all_settings_raw db) patch ≡ ok patch'
      → (write_all conv patch' db).0 ≡ r
      → (answered r (write_all conv patch' db).1).0 ≡ err e
      → Failure patch db (answered r (write_all conv patch' db).1).1
  unfolding answered
  answered-Failure patch patch' db (ok u) {e} d a s h =
      unanswered patch' e a (ap (λ x. (x, (write_all conv patch' db).1)) s)
        (λ j. write_all-written conv j patch' db d s) h
  answered-Failure patch patch' db (err x) d a s h =
      let (done, key, val, rest, split, failed, before) = write_all-partial conv patch' db s in
      stopped done key val rest x (a ∙ ap ok split) failed before λ j.
        ap (λ (p : Result (Unit {0}) × Database F). lookup j p.1.settings) (sym before)
        ∙ write_all-written conv j done db (prefix-IsDict done ((key, val) ∷ rest) (rw split at d))
            (ap (λ (p : Result (Unit {0}) × Database F). p.0) before)

  checked-Failure :
      (patch : Patch F) (db : Database F) (r : Result (Patch F)) {e : Error}
      → IsDict patch
      → accepted conv (get_all_settings_raw db) patch ≡ r
      → (checked r db).0 ≡ err e
      → Failure patch db (checked r db).1
  unfolding checked
  checked-Failure patch db (err x) d a h = refused x a refl
  checked-Failure patch db (ok patch') d a h =
      answered-Failure patch patch' db (write_all conv patch' db).0
        (without-kept patch patch' db d a) a refl h

  -- An update that raises was refused by the checks and changed nothing; or the checks accepted a
  -- patch, and its writes stopped at the first value that cannot be converted, with those before it
  -- done; or the whole accepted patch is written, and the answer cannot be built from the settings.
  -- What is done stays: each setting is the text of its value there, or as before if it has none or is
  -- read-only. A patch has no key twice.
  pub handle_update_settings-Failure :
      (patch : Patch F) (db : Database F) {e : Error}
      → IsDict patch
      → (handle_update_settings conv patch db).0 ≡ err e
      → Failure patch db (handle_update_settings conv patch db).1
  handle_update_settings-Failure patch db d h =
      let same = handle_update_settings-checked patch db in
      rw same (checked-Failure patch db _ d refl (rw same at h))
