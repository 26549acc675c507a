-- ===== src/Runner/Migration/Kept.antt =====
-- bot/run.py: what the migration of config.json leaves in the settings.
use quick_stock_bot.Prelude.{
  String, List, [], ◌∷◌, Option, none, some, ◌≡◌, refl, sym, ap, ◌∙◌, arith, eq_iff, ◌==◌,
  if◌then◌else◌,
}
use quick_stock_bot.Prelude.Dict.{lookup, lookup-insert}
use quick_stock_bot.Num.{Float}
use quick_stock_bot.Control.Values.{Json, Conversions, serialize_value}
use quick_stock_bot.Control.Database.{Database, set_setting}
use quick_stock_bot.Runner.Migration.{migrate_entry, migrate, load_config_json_into_db}

module _ {F : Type 0} ⦃num : Float F⦄ (conv : Conversions F) where
  -- the setting after the migration: as before, or else the first entry's text
  abbrev pub migrated : String → List (String × Json F) → Option String → Option String
  migrated j entries (some old) = some old
  migrated j [] none = none
  migrated j ((key, val) ∷ entries) none =
      if key == j then some (serialize_value conv val) else migrated j entries none

  entry-lookup :
      (j key : String) (val : Json F) (db : Database F)
      → lookup j (migrate_entry conv key val db).settings
        ≡ migrated j ((key, val) ∷ []) (lookup j db.settings)
  unfolding migrate_entry set_setting
  entry-lookup j key val db =
      ground (arith, eq_iff key j, lookup-insert key j (serialize_value conv val) db.settings)

  migrated-nil : (j : String) (o : Option String) → migrated j [] o ≡ o
  migrated-nil j none = refl
  migrated-nil j (some v) = refl

  migrated-cons :
      (j key : String) (val : Json F) (entries : List (String × Json F)) (o : Option String)
      → migrated j entries (migrated j ((key, val) ∷ []) o) ≡ migrated j ((key, val) ∷ entries) o
  migrated-cons j key val entries (some v) = refl
  migrated-cons j key val entries none = ground arith

  -- Each setting is afterwards as it was, and one that was not there is the text of the first entry of
  -- config.json for it, if there is one.
  pub migrate-migrated :
      (j : String) (entries : List (String × Json F)) (db : Database F)
      → lookup j (load_config_json_into_db conv (some entries) db).settings
        ≡ migrated j entries (lookup j db.settings)
  unfolding load_config_json_into_db migrate
  migrate-migrated j [] db = sym (migrated-nil j (lookup j db.settings))
  migrate-migrated j ((key, val) ∷ entries) db =
      migrate-migrated j entries (migrate_entry conv key val db)
      ∙ ap (migrated j entries) (entry-lookup j key val db)
      ∙ migrated-cons j key val entries (lookup j db.settings)
