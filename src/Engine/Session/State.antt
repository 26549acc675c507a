-- ===== src/Engine/Session/State.antt =====
-- bot/src/bot/engine/session.py: the session's records, its state and the small actions on it.
use quick_stock_bot.Prelude.{ℕ, Bool, String, List, [], ◌∷◌, ◌++◌, Option, none, some, Result}
use quick_stock_bot.Prelude.Int.{ℤ}
use quick_stock_bot.Prelude.Dict.{Dict, insert, lookup}
use quick_stock_bot.Prelude.Action.{Action}
use quick_stock_bot.Models.{Bar, Order}
use quick_stock_bot.Ta.Config.{TaConfig}
use quick_stock_bot.Alpaca.Client.{MarketClient}
use quick_stock_bot.Engine.Config.{ExecutionConfig}
use quick_stock_bot.Engine.Messages.{Reason, LogLine}
use quick_stock_bot.Engine.Breaker.{DailyState}
use quick_stock_bot.Engine.Exits.{OpenPosition}

pub record TradeRecord (F : Type 0) : Type 0 where
  pub symbol : String
  pub entry_order : Order
  pub entry_price : F
  pub shares : ℤ
  pub position : OpenPosition F
  pub exit_orders : List Order
  pub realized_pnl : F
  pub prev_pattern_tags : List String

pub record SessionResult (F : Type 0) : Type 0 where
  pub trades_entered : ℕ
  pub trades_exited : ℕ
  pub realized_pnl : F
  pub halted : Bool
  pub halt_reason : Reason F
  pub orders_submitted : List Order
  pub log_messages : List (LogLine F)
  pub goalpost_trade_count : ℤ

-- what `__init__` is given
pub record Setup (F W : Type 0) : Type 0 where
  pub client : MarketClient W
  pub cfg : ExecutionConfig F
  pub ta_cfg : TaConfig
  pub score_setup_fn : String → List Bar → F

-- The fields of `ExecutionSession` that change, and the client's world. A trade is an object that
-- only the dict refers to, so a change of it is a change of its entry.
pub record Session (F W : Type 0) : Type 0 where
  pub world : W
  pub daily_state : Option (DailyState F)
  pub open_trades : Dict (TradeRecord F)
  pub result : SessionResult F
  pub z_cutoff_passed : Bool

module _ {F W : Type 0} where
  -- a call of the client
  unfoldable pub call : {A : Type 0} → (W → Result A × W) → Action (Session F W) A
  call f s = let (r, w) = f s.world in (r, record s { world = w })

  unfoldable pub log : LogLine F → Session F W → Session F W
  log line s = record s {
    result = record s.result { log_messages = s.result.log_messages ++ (line ∷ []) };
  }

  unfoldable pub log_all : List (LogLine F) → Session F W → Session F W
  log_all lines s = record s {
    result = record s.result { log_messages = s.result.log_messages ++ lines };
  }

  unfoldable pub record_order : Order → Session F W → Session F W
  record_order order s = record s {
    result = record s.result { orders_submitted = s.result.orders_submitted ++ (order ∷ []) };
  }

  unfoldable pub put_trade : String → TradeRecord F → Session F W → Session F W
  put_trade symbol trade s = record s { open_trades = insert symbol trade s.open_trades }

  unfoldable pub put_daily : DailyState F → Session F W → Session F W
  put_daily daily s = record s { daily_state = some daily }

-- `bars_by_symbol.get(symbol, [])`
abbrev pub bars_of : String → Dict (List Bar) → List Bar
bars_of symbol bars = elim (lookup symbol bars) [ none ↦ [] | some bs ↦ bs ]
