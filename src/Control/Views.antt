-- ===== src/Control/Views.antt =====
-- bot/src/bot/control/db.py: rows as the dashboard sees them. Texts of times and JSON texts are parameters.
use quick_stock_bot.Prelude.{
  ℕ, Bool, true, false, ◌&&◌, ◌||◌, String, List, [], ◌∷◌, Option, none, some, ◌==◌, length, take,
  drop, filter, nat_eq, if◌then◌else◌,
}
use quick_stock_bot.Prelude.Int.{ℤ, pos, negsuc, ◌+ℤ◌, ltb_ℤ, leb_ℤ}
use quick_stock_bot.Num.{Float, lit, ◌⊕◌, ◌⊖◌, ◌<?◌}
use quick_stock_bot.Control.Database.{Database, TickerRow, OrderRow, TradeRow}

-- `macd_state_json`, when it is an object that is not empty
pub record MacdView (F : Type 0) : Type 0 where
  pub favorability : Option F
  pub eligible : Option Bool

-- `ts_to_iso` of a time, `json.loads` of the two kinds of text, and the start of a day, in seconds, of
-- an ISO date
pub record Readers (F : Type 0) : Type 0 where
  pub iso : ℤ → String
  pub read_macd : String → Option (MacdView F)
  pub read_texts : String → Option (List String)
  pub day_start : String → Option ℤ

pub record TickerView (F : Type 0) : Type 0 where
  pub symbol : String
  pub last_price : F
  pub high_of_day : F
  pub low_of_day : F
  pub macd_line : F
  pub macd_signal : F
  pub macd_hist : F
  pub pattern_tags : List String
  pub score : F
  pub updated_at : String
  pub float_shares : Option ℤ
  pub unknown_float : Bool
  pub tradable : Bool
  pub rvol : Option F
  pub pct_change : Option F
  pub role : Option String
  pub macd_favorability : Option F
  pub macd_eligible : Option Bool

pub record OrderView (F : Type 0) : Type 0 where
  pub id : String
  pub kind : String
  pub symbol : String
  pub qty : F
  pub submitted_price : F
  pub status : String
  pub filled_qty : Option F
  pub filled_price : Option F
  pub submitted_at : Option String
  pub updated_at : Option String

pub record TradeView (F : Type 0) : Type 0 where
  pub id : String
  pub symbol : String
  pub entry_order : Option (OrderView F)
  pub exit_order : Option (OrderView F)
  pub net_pl : F
  pub label : String
  pub opened_at : Option String
  pub closed_at : Option String

pub data Color : Type 0 where
  blue green red : Color

pub record DayView (F : Type 0) : Type 0 where
  pub date : String
  pub ran : Bool
  pub net_pl : F
  pub trade_count : ℕ
  pub color : Color

bind_option {ℓ κ} : {A : Type ℓ} {B : Type κ} → (A → Option B) → Option A → Option B
bind_option f none = none
bind_option f (some a) = f a

map_option {ℓ κ} : {A : Type ℓ} {B : Type κ} → (A → B) → Option A → Option B
map_option f none = none
map_option f (some a) = some (f a)

get_or {ℓ} : {A : Type ℓ} → A → Option A → A
get_or d none = d
get_or d (some a) = a

-- a text that is there and not empty
given : Option String → Option String
given none = none
given (some s) = if s == "" then none else some s

-- a time in the day that starts at `start`
is_within : ℤ → Option ℤ → Bool
is_within start none = false
is_within start (some at) = leb_ℤ start at && ltb_ℤ at (start +ℤ pos 86400)

-- `LIMIT ?`, of which a negative one is none, and `OFFSET ?`
pub limited {ℓ} : {A : Type ℓ} → ℤ → List A → List A
limited (pos n) xs = take n xs
limited (negsuc n) xs = xs

skipped {ℓ} : {A : Type ℓ} → ℤ → List A → List A
skipped (pos n) xs = drop n xs
skipped (negsuc n) xs = xs

module _ {F : Type 0} ⦃num : Float F⦄ (readers : Readers F) where
  open readers use {iso, read_macd, read_texts, day_start}

  -- `x or 0.0`
  or_zero : Option F → F
  or_zero none = lit 0 0
  or_zero (some x) = if num.eq x (lit 0 0) then lit 0 0 else x

  -- `a or b or 0.0`
  first_price : Option F → Option F → F
  unfolding or_zero
  first_price none b = or_zero b
  first_price (some a) b = if num.eq a (lit 0 0) then or_zero b else a

  unfoldable pub row_to_ticker : TickerRow F → TickerView F
  unfolding or_zero bind_option map_option get_or given
  row_to_ticker r =
      let macd_state = bind_option read_macd (given r.macd_state_json) in
      let macd_val = or_zero r.macd in
      let sig_val = or_zero r.signal in
      record {
        symbol = r.symbol;
        last_price = or_zero r.price;
        high_of_day = or_zero r.price;
        low_of_day = or_zero r.price;
        macd_line = macd_val;
        macd_signal = sig_val;
        macd_hist = macd_val ⊖ sig_val;
        pattern_tags = get_or [] (bind_option read_texts (given r.pattern_tags_json));
        score = or_zero r.score;
        updated_at = get_or "1970-01-01T00:00:00Z" (map_option iso r.updated_at);
        float_shares = r.float_shares;
        unknown_float = r.unknown_float;
        tradable = r.scanner_tradable;
        rvol = r.rvol;
        pct_change = r.pct_change;
        role = r.role;
        macd_favorability = bind_option (λ (m : MacdView F). m.favorability) macd_state;
        macd_eligible = bind_option (λ (m : MacdView F). m.eligible) macd_state;
      }

  find_ticker : String → List (TickerRow F) → Option (TickerView F)
  find_ticker symbol [] = none
  find_ticker symbol (r ∷ rows) =
      if r.symbol == symbol then some (row_to_ticker r) else find_ticker symbol rows

  unfoldable pub get_ticker : Database F → String → Option (TickerView F)
  unfolding find_ticker
  get_ticker db symbol = find_ticker symbol db.tickers

  unfoldable pub row_to_order : OrderRow F → OrderView F
  unfolding first_price or_zero map_option
  row_to_order r = record {
    id = r.id;
    kind = if (r.order_type == "limit") || (r.order_type == "stop") then "limit" else r.side;
    symbol = r.symbol;
    qty = or_zero r.quantity;
    submitted_price = first_price r.limit_price r.stop_price;
    status = r.status;
    filled_qty = r.filled_quantity;
    filled_price = r.filled_price;
    submitted_at = map_option iso r.created_at;
    updated_at = map_option iso r.updated_at;
  }

  find_order : String → List (OrderRow F) → Option (OrderView F)
  find_order id [] = none
  find_order id (r ∷ rows) = if r.id == id then some (row_to_order r) else find_order id rows

  unfoldable pub get_order : Database F → String → Option (OrderView F)
  unfolding find_order
  get_order db id = find_order id db.orders

  -- `ORDER BY opened_at DESC`, with missing times last
  later : Option ℤ → Option ℤ → Bool
  later none b = false
  later (some a) none = true
  later (some a) (some b) = ltb_ℤ b a

  insert_latest : TradeRow F → List (TradeRow F) → List (TradeRow F)
  unfolding later
  insert_latest t [] = t ∷ []
  insert_latest t (u ∷ us) =
      if later u.opened_at t.opened_at then u ∷ insert_latest t us else t ∷ u ∷ us

  latest_first : List (TradeRow F) → List (TradeRow F)
  unfolding insert_latest
  latest_first [] = []
  latest_first (t ∷ ts) = insert_latest t (latest_first ts)

  trade_view : Database F → TradeRow F → TradeView F
  unfolding or_zero bind_option map_option get_or given
  trade_view db r = record {
    id = r.id;
    symbol = r.symbol;
    entry_order = get_order db r.entry_order_id;
    exit_order = bind_option (get_order db) (given r.exit_order_id);
    net_pl = or_zero r.net_pnl;
    label = get_or "bad" (given r.label);
    opened_at = map_option iso r.opened_at;
    closed_at = map_option iso r.closed_at;
  }

  trade_views : Database F → List (TradeRow F) → List (TradeView F)
  unfolding trade_view
  trade_views db [] = []
  trade_views db (r ∷ rows) = trade_view db r ∷ trade_views db rows

  unfoldable pub get_trade_history : Database F → ℤ → ℤ → List (TradeView F) × ℕ
  unfolding latest_first limited skipped trade_views
  get_trade_history db limit offset =
      (trade_views db (limited limit (skipped offset (latest_first db.trades))), length db.trades)

  -- closed in the day that starts at `start`
  closed_in : ℤ → TradeRow F → Bool
  unfolding is_within
  closed_in start r = (r.status == "closed") && is_within start r.closed_at

  total_pl : F → List (TradeRow F) → F
  unfolding or_zero
  total_pl total [] = total
  total_pl total (r ∷ rows) = total_pl (total ⊕ or_zero r.net_pnl) rows

  color_of : ℕ → F → Color
  color_of trade_count net_pl =
      if nat_eq trade_count 0 || num.eq net_pl (lit 0 0)
      then blue
      else if lit 0 0 <? net_pl
      then green
      else red

  unfoldable pub day_view : Database F → String → ℤ → DayView F
  unfolding closed_in total_pl color_of
  day_view db date start =
      let rows = filter (closed_in start) db.trades in
      let net_pl = total_pl (lit 0 0) rows in
      record {
        date = date;
        ran = true;
        net_pl = net_pl;
        trade_count = length rows;
        color = color_of (length rows) net_pl;
      }

  pub day_views : Database F → List String → List (DayView F)
  day_views db [] = []
  day_views db (date ∷ dates) = elim (day_start date) [
    | none ↦ day_views db dates
    | some start ↦ day_view db date start ∷ day_views db dates
  ]
