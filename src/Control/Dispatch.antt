-- ===== src/Control/Dispatch.antt =====
-- bot/src/bot/control/handlers.py: the handlers that read, and the dispatch of methods.
pub mod Methods
use quick_stock_bot.Prelude.{
  ℕ, Bool, true, false, ◌||◌, String, List, [], ◌∷◌, Option, none, some, Result, ok, err, Error,
  ◌==◌, map, if◌then◌else◌,
}
use quick_stock_bot.Prelude.Int.{ℤ, pos, min_ℤ}
use quick_stock_bot.Prelude.Dict.{lookup}
use quick_stock_bot.Prelude.Action.{Action, pure, raise, lift, gets, modify, ◌>>=◌, ◌>>◌}
use quick_stock_bot.Num.{Float}
use quick_stock_bot.Control.Values.{Conversions}
use quick_stock_bot.Control.Database.{Database, set_setting}
use quick_stock_bot.Control.Settings.{Settings, handle_get_settings}
use quick_stock_bot.Control.Update.{Patch, handle_update_settings}
use quick_stock_bot.Control.Lists.{
  ListsPatch, ListsResponse, handle_get_lists, handle_update_lists, order_by,
}
use quick_stock_bot.Control.Views.{
  Readers, TickerView, OrderView, TradeView, DayView, row_to_ticker, get_ticker, get_order,
  get_trade_history,
}
use quick_stock_bot.Control.Days.{get_daily_pl}
use quick_stock_bot.Control.Notices.{Notice, Account, build_notices}

pub record LogFilter : Type 0 where
  pub categories : List String
  pub min_level : String

-- the parameters of all methods, with the defaults that the handlers put for missing ones
pub record Params (F : Type 0) : Type 0 where
  pub symbol : String
  pub patch : Patch F
  pub lists : ListsPatch
  pub limit : ℤ
  pub offset : ℤ
  pub order_id : String
  pub log_filter : LogFilter
  pub start : Option String
  pub end_ : Option String

pub data Response (F : Type 0) : Type 0 where
  state : List (TickerView F) → Option Account → List Notice → Response F
  symbols : List String → Response F
  ticker : TickerView F → Response F
  settings : Settings F → Response F
  lists : ListsResponse → Response F
  trades : List (TradeView F) → ℕ → Response F
  order : OrderView F → Response F
  subscribed : LogFilter → Response F
  days : List (DayView F) → Response F
  queued : Response F

-- what the handlers are given besides the database: the conversions of values, the readers of rows,
-- SQLite's order of texts, and `json.loads` of the snapshot of the account
pub record Tools (F : Type 0) : Type 0 where
  pub conv : Conversions F
  pub readers : Readers F
  pub before : String → String → Bool
  pub read_account : String → Option Account

module _ {F : Type 0} ⦃num : Float F⦄ (tools : Tools F) where
  open tools use {conv, readers, before, read_account}

  -- the snapshot of the account; a text that cannot be read is none
  account_of : Option String → Option Account
  account_of none = none
  account_of (some s) = if s == "" then none else read_account s

  tickers_of : Database F → List String → List (TickerView F)
  tickers_of db [] = []
  tickers_of db (s ∷ ss) =
      let rest = tickers_of db ss in
      elim (get_ticker readers db s) [ none ↦ rest | some v ↦ v ∷ rest ]

  -- `get_all_tickers`
  ordered_tickers : Database F → List (TickerView F)
  unfolding tickers_of
  ordered_tickers db = tickers_of db (order_by before (map (λ r. r.symbol) db.tickers))

  handle_get_state : Database F → Response F
  unfolding account_of ordered_tickers
  handle_get_state db =
      let account = account_of (lookup "_account_snapshot" db.settings) in
      state (ordered_tickers db) account
        (build_notices conv.lower (λ key. lookup key db.settings) account)

  handle_get_active_tickers : Database F → Response F
  handle_get_active_tickers db = symbols (order_by before (map (λ r. r.symbol) db.tickers))

  ticker_or_raise : Option (TickerView F) → Result (Response F)
  ticker_or_raise none = err Error.value_error
  ticker_or_raise (some v) = ok (ticker v)

  handle_get_ticker_detail : String → Database F → Result (Response F)
  unfolding ticker_or_raise
  handle_get_ticker_detail symbol db =
      if symbol == "" then err Error.value_error else ticker_or_raise (get_ticker readers db symbol)

  order_or_raise : Option (OrderView F) → Result (Response F)
  order_or_raise none = err Error.value_error
  order_or_raise (some v) = ok (order v)

  handle_get_order_detail : String → Database F → Result (Response F)
  unfolding order_or_raise
  handle_get_order_detail order_id db =
      if order_id == ""
      then err Error.value_error
      else order_or_raise (get_order readers db order_id)

  pub handle_get_trade_history : ℤ → ℤ → Database F → Response F
  handle_get_trade_history limit offset db =
      let (rows, total) = get_trade_history readers db (min_ℤ limit (pos 500)) offset in
      trades rows total

  handle_get_daily_pl : Option String → Option String → Database F → Result (Response F)
  handle_get_daily_pl none end_ db = err Error.value_error
  handle_get_daily_pl (some start) none db = err Error.value_error
  handle_get_daily_pl (some start) (some end_) db =
      if (start == "") || (end_ == "")
      then err Error.value_error
      else ok (days (get_daily_pl before readers db start end_))

  settings_of : Result (Settings F) → Result (Response F)
  settings_of (err e) = err e
  settings_of (ok s) = ok (settings s)

  pub update_settings : Patch F → Action (Database F) (Response F)
  unfolding settings_of
  update_settings patch db =
      let (r, db') = handle_update_settings conv patch db in (settings_of r, db')

  pub update_lists : ListsPatch → Action (Database F) (Response F)
  update_lists params db =
      let (r, db') = handle_update_lists before params db in (ok (lists r), db')

  pub handle_trigger_scan : Action (Database F) (Response F)
  handle_trigger_scan db = (ok queued, set_setting "_scan_requested" "1" db)

  -- a handler that only reads
  pub reading : (Database F → Result (Response F)) → Action (Database F) (Response F)
  reading f db = (f db, db)

  -- `_HANDLERS[method]`
  pub handler : String → Params F → Option (Action (Database F) (Response F))
  unfolding handle_get_state handle_get_active_tickers handle_get_ticker_detail
      handle_get_order_detail handle_get_trade_history handle_get_daily_pl settings_of
      update_settings update_lists handle_trigger_scan reading
  handler method params =
      if method == "get_state"
      then some (reading (λ db. ok (handle_get_state db)))
      else if method == "get_active_tickers"
      then some (reading (λ db. ok (handle_get_active_tickers db)))
      else if method == "get_ticker_detail"
      then some (reading (handle_get_ticker_detail params.symbol))
      else if method == "get_settings"
      then some (reading (λ db. settings_of (handle_get_settings conv db)))
      else if method == "update_settings"
      then some (update_settings params.patch)
      else if method == "get_lists"
      then some (reading (λ db. ok (lists (handle_get_lists before db))))
      else if method == "update_lists"
      then some (update_lists params.lists)
      else if method == "get_trade_history"
      then some (reading (λ db. ok (handle_get_trade_history params.limit params.offset db)))
      else if method == "get_order_detail"
      then some (reading (handle_get_order_detail params.order_id))
      else if method == "subscribe_logs"
      then some (reading (λ db. ok (subscribed params.log_filter)))
      else if method == "get_daily_pl"
      then some (reading (handle_get_daily_pl params.start params.end_))
      else if method == "trigger_scan"
      then some handle_trigger_scan
      else none

  unfoldable pub dispatch : String → Params F → Action (Database F) (Response F)
  unfolding handler
  dispatch method params = elim (handler method params) [
    | none ↦ raise Error.key_error
    | some handle ↦ handle
  ]
