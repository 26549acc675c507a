-- ===== src/Control/Lists/Members.antt =====
-- bot/src/bot/control/handlers.py: a list that was set reads back.
use quick_stock_bot.Prelude.{
  Bool, false, ◌||◌, String, List, [], ◌∷◌, Option, none, some, ◌≡◌, refl, ◌∙◌, ap, sym, arith,
  ◌==◌, eq_iff, mem,
}
use quick_stock_bot.Control.Database.{Database, ListRow}
use quick_stock_bot.Control.Lists.{
  deactivate, activate, activate_all, active_symbols, insert_ordered, order_by, get_list_symbols,
  ListsPatch, handle_update_lists, replace_if,
}

active_symbols-deactivate :
    (kind : String) (rows : List ListRow) → active_symbols kind (deactivate kind rows) ≡ []
unfolding active_symbols deactivate
active_symbols-deactivate kind [] = refl
active_symbols-deactivate kind (r ∷ rows) = ground (arith, active_symbols-deactivate kind rows)

active_symbols-deactivate_other :
    (kind other : String) (rows : List ListRow)
    → (kind == other) ≡ false
    → active_symbols other (deactivate kind rows) ≡ active_symbols other rows
unfolding active_symbols deactivate
active_symbols-deactivate_other kind other [] h = refl
active_symbols-deactivate_other kind other (r ∷ rows) h = ground (
  arith,
  eq_iff r.list_type kind,
  eq_iff r.list_type other,
  eq_iff kind other,
  active_symbols-deactivate_other kind other rows,
)

mem-activate :
    (s kind sym : String) (rows : List ListRow)
    → mem s (active_symbols kind (activate kind sym rows))
      ≡ (mem s (active_symbols kind rows) || (sym == s))
unfolding active_symbols activate
mem-activate s kind sym [] = ground (arith, eq_iff kind kind)
mem-activate s kind sym (r ∷ rows) =
    ground
      (arith, eq_iff r.symbol sym, eq_iff r.symbol s, eq_iff sym s, mem-activate s kind sym rows)

mem-activate_other :
    (s kind other sym : String) (rows : List ListRow)
    → (kind == other) ≡ false
    → mem s (active_symbols other (activate kind sym rows)) ≡ mem s (active_symbols other rows)
unfolding active_symbols activate
mem-activate_other s kind other sym [] h = ground arith
mem-activate_other s kind other sym (r ∷ rows) h = ground (
  arith,
  eq_iff r.list_type kind,
  eq_iff r.list_type other,
  eq_iff kind other,
  mem-activate_other s kind other sym rows,
)

mem-activate_all :
    (s kind : String) (symbols : List String) (rows : List ListRow)
    → mem s (active_symbols kind (activate_all kind symbols rows))
      ≡ (mem s (active_symbols kind rows) || mem s symbols)
unfolding activate_all
mem-activate_all s kind [] rows = ground arith
mem-activate_all s kind (sym ∷ symbols) rows =
    ground (
      arith,
      mem-activate_all s kind symbols (activate kind sym rows),
      mem-activate s kind sym rows,
    )

mem-activate_all_other :
    (s kind other : String) (symbols : List String) (rows : List ListRow)
    → (kind == other) ≡ false
    → mem s (active_symbols other (activate_all kind symbols rows))
      ≡ mem s (active_symbols other rows)
unfolding activate_all
mem-activate_all_other s kind other [] rows h = refl
mem-activate_all_other s kind other (sym ∷ symbols) rows h =
    mem-activate_all_other s kind other symbols (activate kind sym rows) h
    ∙ mem-activate_other s kind other sym rows h

module _ (before : String → String → Bool) where
  mem-insert_ordered :
      (s x : String) (xs : List String)
      → mem s (insert_ordered before x xs) ≡ ((x == s) || mem s xs)
  unfolding insert_ordered
  mem-insert_ordered s x [] = refl
  mem-insert_ordered s x (y ∷ ys) = ground (arith, mem-insert_ordered s x ys)

  mem-order_by : (s : String) (xs : List String) → mem s (order_by before xs) ≡ mem s xs
  unfolding order_by
  mem-order_by s [] = refl
  mem-order_by s (x ∷ xs) =
      mem-insert_ordered s x (order_by before xs) ∙ ap (λ b. (x == s) || b) (mem-order_by s xs)

  -- what a list has after an update: the new symbols, if there are any, or the old
  abbrev pub wanted : String → Option (List String) → List String → Bool
  wanted s none old = mem s old
  wanted s (some symbols) old = mem s symbols

  mem-replace_if :
      {F : Type 0} (s kind : String) (p : Option (List String)) (db : Database F)
      → mem s (get_list_symbols before (replace_if kind p db) kind)
        ≡ wanted s p (get_list_symbols before db kind)
  unfolding replace_if get_list_symbols
  mem-replace_if s kind none db = refl
  mem-replace_if s kind (some symbols) db = ground (
    arith,
    mem-order_by s (active_symbols kind (activate_all kind symbols (deactivate kind db.lists))),
    mem-activate_all s kind symbols (deactivate kind db.lists),
    active_symbols-deactivate kind db.lists,
  )

  mem-replace_if_other :
      {F : Type 0} (s kind other : String) (p : Option (List String)) (db : Database F)
      → (kind == other) ≡ false
      → mem s (get_list_symbols before (replace_if kind p db) other)
        ≡ mem s (get_list_symbols before db other)
  unfolding replace_if get_list_symbols
  mem-replace_if_other s kind other none db h = refl
  mem-replace_if_other s kind other (some symbols) db h = ground (
    arith,
    mem-order_by s (active_symbols other (activate_all kind symbols (deactivate kind db.lists))),
    mem-order_by s (active_symbols other db.lists),
    mem-activate_all_other s kind other symbols (deactivate kind db.lists) h,
    active_symbols-deactivate_other kind other db.lists h,
  )

  wanted_same :
      (s : String) (p : Option (List String)) (old old' : List String)
      → mem s old ≡ mem s old'
      → wanted s p old ≡ wanted s p old'
  wanted_same s none old old' h = h
  wanted_same s (some symbols) old old' h = refl

  -- The answer to `update_lists` has in each list that was given exactly the symbols given, and in
  -- each other list exactly those that it had before.
  pub handle_update_lists-members :
      {F : Type 0} (params : ListsPatch) (db : Database F) (s : String)
      → let response = (handle_update_lists before params db).0 in
        (mem s response.watchlist
          ≡ wanted s params.watchlist (get_list_symbols before db "watchlist"))
        × (mem s response.blacklist
            ≡ wanted s params.blacklist (get_list_symbols before db "blacklist"))
  unfolding handle_update_lists
  handle_update_lists-members params db s =
      let db' = replace_if "watchlist" params.watchlist db in
      (
        mem-replace_if_other s "blacklist" "watchlist" params.blacklist db' refl
            ∙ mem-replace_if s "watchlist" params.watchlist db,
        mem-replace_if s "blacklist" params.blacklist db'
            ∙ wanted_same s params.blacklist (get_list_symbols before db' "blacklist")
                (get_list_symbols before db "blacklist")
                (mem-replace_if_other s "watchlist" "blacklist" params.watchlist db refl),
      )
