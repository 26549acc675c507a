-- ===== src/Runner/Migration.antt =====
-- bot/run.py: `_load_config_json_into_db`, on the entries of the sections of config.json in their order. A
-- file that is missing or cannot be read is none. `json.dumps` and `str` are those of the conversions.
pub mod Kept
use quick_stock_bot.Prelude.{
  Bool, true, false, String, List, [], ◌∷◌, Option, none, some, if◌then◌else◌,
}
use quick_stock_bot.Prelude.Dict.{contains}
use quick_stock_bot.Num.{Float}
use quick_stock_bot.Control.Values.{Json, Conversions, serialize_value}
use quick_stock_bot.Control.Database.{Database, set_setting}

module _ {F : Type 0} ⦃num : Float F⦄ (conv : Conversions F) where
  -- one round of the inner loop, whose cases are those of `serialize_value`
  pub migrate_entry : String → Json F → Database F → Database F
  migrate_entry key val db =
      if contains key db.settings then db else set_setting key (serialize_value conv val) db

  pub migrate : List (String × Json F) → Database F → Database F
  unfolding migrate_entry
  migrate [] db = db
  migrate ((key, val) ∷ entries) db = migrate entries (migrate_entry key val db)

  unfoldable pub load_config_json_into_db :
      Option (List (String × Json F)) → Database F → Database F
  unfolding migrate
  load_config_json_into_db none db = db
  load_config_json_into_db (some entries) db = migrate entries db
