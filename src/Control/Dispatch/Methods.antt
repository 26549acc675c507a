-- ===== src/Control/Dispatch/Methods.antt =====
-- bot/src/bot/control/handlers.py: what requests can change.
use quick_stock_bot.Prelude.{
  Bool, true, false, ◌||◌, String, List, [], ◌∷◌, Option, none, some, Result, Error, ◌≡◌, refl, sym,
  ◌∙◌, arith, ◌==◌, All, if◌then◌else◌,
}
use quick_stock_bot.Prelude.Dict.{lookup, lookup-insert}
use quick_stock_bot.Prelude.Action.{Action, raise}
use quick_stock_bot.Num.{Float}
use quick_stock_bot.Control.Database.{Database, set_setting}
use quick_stock_bot.Control.Update.{truthy_at}
use quick_stock_bot.Control.Update.Entries.{IsDict}
use quick_stock_bot.Control.Update.Guards.{handle_update_settings-stays_paper}
use quick_stock_bot.Control.Lists.{ListsPatch, handle_update_lists, replace_if}
use quick_stock_bot.Control.Dispatch.{
  Tools, Params, Response, handler, dispatch, update_settings, update_lists, handle_trigger_scan,
  reading,
}

-- the three methods that write
abbrev pub writes : String → Bool
writes method =
    (method == "update_settings") || ((method == "update_lists") || (method == "trigger_scan"))

module _ {F : Type 0} ⦃num : Float F⦄ (tools : Tools F) where
  abbrev Handler : Type 0
  Handler = Action (Database F) (Response F)

  -- the handler, if the method has one, satisfies `P`
  data Handles (P : Handler → Type 0) : Option Handler → Type 0 where
    unknown : Handles P none
    known : {m : Handler} → P m → Handles P (some m)

  Handles-if :
      (P : Handler → Type 0) (b : Bool) (m : Handler) (rest : Option Handler)
      → (b ≡ true → P m)
      → Handles P rest
      → Handles P (if b then some m else rest)
  Handles-if P true m rest h k = known (h refl)
  Handles-if P false m rest h k = k

  -- a property of all handlers, from one of those that read and one of each that writes
  handler-Handles :
      (P : Handler → Type 0) (method : String) (params : Params F)
      → ((f : Database F → Result (Response F)) → P (reading tools f))
      → ((method == "update_settings") ≡ true → P (update_settings tools params.patch))
      → ((method == "update_lists") ≡ true → P (update_lists tools params.lists))
      → ((method == "trigger_scan") ≡ true → P (handle_trigger_scan tools))
      → Handles P (handler tools method params)
  unfolding handler
  handler-Handles P method params r s l t =
      Handles-if P (method == "get_state") _ _ (λ e. r _)
        (Handles-if P (method == "get_active_tickers") _ _ (λ e. r _)
          (Handles-if P (method == "get_ticker_detail") _ _ (λ e. r _)
            (Handles-if P (method == "get_settings") _ _ (λ e. r _)
              (Handles-if P (method == "update_settings") _ _ s (
                Handles-if P (method == "get_lists") _ _ (λ e. r _)
                  (Handles-if P (method == "update_lists") _ _ l (
                    Handles-if P (method == "get_trade_history") _ _ (λ e. r _)
                      (Handles-if P (method == "get_order_detail") _ _ (λ e. r _)
                        (Handles-if P (method == "subscribe_logs") _ _ (λ e. r _)
                          (Handles-if P (method == "get_daily_pl") _ _ (λ e. r _)
                            (Handles-if P (method == "trigger_scan") _ _ t unknown)))))))))))

  LeavesAt : Database F → Handler → Type 0
  LeavesAt db m = (m db).1 ≡ db

  dispatched-Leaves :
      (db : Database F) (h : Option Handler)
      → Handles (LeavesAt db) h
      → let m : Handler = elim h [ none ↦ raise Error.key_error | some handle ↦ handle ] in
        (m db).1 ≡ db
  unfolding raise LeavesAt
  dispatched-Leaves db none unknown = refl
  dispatched-Leaves db (some m) (known h) = h

  -- A request of a method that does not write, or of none that is known, leaves the database as it is,
  -- also when it raises.
  pub dispatch-reads :
      (method : String) (params : Params F) (db : Database F)
      → writes method ≡ false
      → (dispatch tools method params db).1 ≡ db
  unfolding dispatch LeavesAt reading
  dispatch-reads method params db h = dispatched-Leaves db (handler tools method params) (
      handler-Handles (LeavesAt db) method params (λ f. refl) (λ e. absurd (ground (arith, h, e)))
        (λ e. absurd (ground (arith, h, e))) (λ e. absurd (ground (arith, h, e))))

  KeepsPaper : Database F → Handler → Type 0
  KeepsPaper db m =
      lookup "paper_trading" (m db).1.settings ≡ some "false"
      → lookup "paper_trading" db.settings ≡ some "false"

  dispatched-KeepsPaper :
      (db : Database F) (h : Option Handler)
      → Handles (KeepsPaper db) h
      → let m : Handler = elim h [ none ↦ raise Error.key_error | some handle ↦ handle ] in
        KeepsPaper db m
  unfolding raise KeepsPaper
  dispatched-KeepsPaper db none unknown = λ e. e
  dispatched-KeepsPaper db (some m) (known h) = h

  replace_if-settings :
      (kind : String) (p : Option (List String)) (db : Database F)
      → (replace_if kind p db).settings ≡ db.settings
  unfolding replace_if
  replace_if-settings kind none db = refl
  replace_if-settings kind (some symbols) db = refl

  update_lists-settings :
      (params : ListsPatch) (db : Database F)
      → (update_lists tools params db).1.settings ≡ db.settings
  unfolding update_lists handle_update_lists
  update_lists-settings params db =
      replace_if-settings "blacklist" params.blacklist (replace_if "watchlist" params.watchlist db)
      ∙ replace_if-settings "watchlist" params.watchlist db

  dispatch-KeepsPaper :
      (method : String) (params : Params F) (db : Database F)
      → IsDict params.patch
      → truthy_at "live_mode_confirmed" params.patch ≡ false
      → KeepsPaper db (dispatch tools method params)
  unfolding dispatch KeepsPaper reading update_settings handle_trigger_scan set_setting
  dispatch-KeepsPaper method params db d unconfirmed =
      dispatched-KeepsPaper db (handler tools method params) (
        handler-Handles (KeepsPaper db) method params (λ f e. e)
          (λ _. handle_update_settings-stays_paper tools.conv params.patch db d unconfirmed)
          (λ _ e. rw (← (update_lists-settings params.lists db)) e)
          (λ _ e. sym (lookup-insert "_scan_requested" "paper_trading" "1" db.settings) ∙ e))

  -- the requests one after the other
  abbrev pub request_all : List (String × Params F) → Database F → Database F
  request_all [] db = db
  request_all ((method, params) ∷ requests) db =
      request_all requests (dispatch tools method params db).1

  abbrev pub IsUnconfirmed : String × Params F → Type 0
  IsUnconfirmed (_, params) =
      IsDict params.patch × (truthy_at "live_mode_confirmed" params.patch ≡ false)

  -- No sequence of requests, of any methods and whether they raise or not, turns paper trading off if
  -- none of their patches confirms it: where it is stored as "false" at the end, it was at the start.
  pub request_all-stays_paper :
      (requests : List (String × Params F)) (db : Database F)
      → All IsUnconfirmed requests
      → lookup "paper_trading" (request_all requests db).settings ≡ some "false"
      → lookup "paper_trading" db.settings ≡ some "false"
  unfolding KeepsPaper
  request_all-stays_paper [] db h e = e
  request_all-stays_paper ((method, params) ∷ requests) db ((d, u), h) e =
      dispatch-KeepsPaper method params db d u
        (request_all-stays_paper requests (dispatch tools method params db).1 h e)
