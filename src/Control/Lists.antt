-- ===== src/Control/Lists.antt =====
-- bot/src/bot/control/db.py and handlers.py: the watch list and the black list. The order of texts is
-- SQLite's, a parameter.
pub mod Members
use quick_stock_bot.Prelude.{
  Bool, true, false, ◌&&◌, String, List, [], ◌∷◌, ◌++◌, Option, none, some, ◌==◌, if◌then◌else◌,
}
use quick_stock_bot.Control.Database.{Database, ListRow}

-- `UPDATE lists SET active = 0 WHERE list_type = ?`
pub deactivate : String → List ListRow → List ListRow
deactivate kind [] = []
deactivate kind (r ∷ rows) =
    (if r.list_type == kind then record r { active = false } else r) ∷ deactivate kind rows

-- `INSERT ... ON CONFLICT(symbol, list_type) DO UPDATE SET active = 1`
pub activate : String → String → List ListRow → List ListRow
activate kind sym [] = record { symbol = sym; list_type = kind; active = true } ∷ []
activate kind sym (r ∷ rows) =
    if (r.symbol == sym) && (r.list_type == kind)
    then record r { active = true } ∷ rows
    else r ∷ activate kind sym rows

pub activate_all : String → List String → List ListRow → List ListRow
unfolding activate
activate_all kind [] rows = rows
activate_all kind (sym ∷ symbols) rows = activate_all kind symbols (activate kind sym rows)

unfoldable pub replace_list : {F : Type 0} → String → List String → Database F → Database F
unfolding deactivate activate_all
replace_list kind symbols db = record db {
  lists = activate_all kind symbols (deactivate kind db.lists);
}

-- the symbols of the active rows
pub active_symbols : String → List ListRow → List String
active_symbols kind [] = []
active_symbols kind (r ∷ rows) =
    if (r.list_type == kind) && r.active
    then r.symbol ∷ active_symbols kind rows
    else active_symbols kind rows

pub record ListsResponse : Type 0 where
  pub watchlist : List String
  pub blacklist : List String

-- the parameters of `update_lists`, either of which may be missing
pub record ListsPatch : Type 0 where
  pub watchlist : Option (List String)
  pub blacklist : Option (List String)

unfoldable pub replace_if : {F : Type 0} → String → Option (List String) → Database F → Database F
unfolding replace_list
replace_if kind none db = db
replace_if kind (some symbols) db = replace_list kind symbols db

module _ (before : String → String → Bool) where
  -- `ORDER BY symbol`
  pub insert_ordered : String → List String → List String
  insert_ordered s [] = s ∷ []
  insert_ordered s (t ∷ ts) = if before t s then t ∷ insert_ordered s ts else s ∷ t ∷ ts

  pub order_by : List String → List String
  unfolding insert_ordered
  order_by [] = []
  order_by (s ∷ ss) = insert_ordered s (order_by ss)

  unfoldable pub get_list_symbols : {F : Type 0} → Database F → String → List String
  unfolding order_by active_symbols
  get_list_symbols db kind = order_by (active_symbols kind db.lists)

  unfoldable pub handle_get_lists : {F : Type 0} → Database F → ListsResponse
  unfolding get_list_symbols
  handle_get_lists db = record {
    watchlist = get_list_symbols db "watchlist";
    blacklist = get_list_symbols db "blacklist";
  }

  unfoldable pub handle_update_lists :
      {F : Type 0} → ListsPatch → Database F → ListsResponse × Database F
  unfolding replace_if handle_get_lists
  handle_update_lists params db =
      let db' =
        replace_if "blacklist" params.blacklist (replace_if "watchlist" params.watchlist db) in
      (handle_get_lists db', db')
