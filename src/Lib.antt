-- ===== src/Lib.antt =====
-- QuickStockBot: the bot, under bot, and the validation of its installer, under installer.
--
-- The program scans for momentum stocks, scores them, and trades them for one day at a time. Once
-- per candle `ExecutionSession.run_cycle` (bot/src/bot/engine/session.py) consults its clock, the
-- daily circuit breakers (engine/circuit_breaker.py), the exits of each open position
-- (engine/exits.py), and then the entries: technical analysis (bot/src/bot/ta), the gate
-- (engine/gate.py), the margin check, sizing (engine/sizing.py), and an order at the broker
-- (bot/src/bot/alpaca).
--
-- Files:
--   Prelude      Booleans, lists, results, integers, dicts, and actions on a state;
--                `Keeps` and `Succeeds` are rules for actions that keep an invariant or return
--   Num          decimals and floats: a `Decimal` is concrete, a `float` is any type with the
--                operations of `Num.Floats`; `Num.Order` states what IEEE 754 promises of
--                comparisons, and `Num.Fixed` is a type of fixed-point numbers for the examples
--   Models       bot/src/bot/models.py
--   Ta           bot/src/bot/ta: Config, State (models.py), Helpers, Macd, Patterns, Scoring,
--                Similarity
--   Alpaca       bot/src/bot/alpaca: Client (the interface of client.py), Fake (fake_client.py)
--   Engine       bot/src/bot/engine: Config, Sizing, Breaker (circuit_breaker.py), Exits, Gate, and
--                Session (session.py) with State, Exits, Entries and Cycle
--   Scanner      bot/src/bot/scanner: Config, State (models.py), Filters, Calendar and Window
--                (window.py), Fundamentals, Leaders, and of scanner.py Candidates
--                (`scan_candidates`), Active (`build_active_set`) and Scan (`run_scan`)
--   News         bot/src/bot/news: State (models.py, config.py), Aggregator, Sentiment, Service
--   Control      bot/src/bot/control: of db.py Values (the conversions), Database (the tables and the
--                settings), Views (rows as answers) and Days; of handlers.py Settings, Update
--                (`handle_update_settings`), Lists, Notices and Dispatch (the other
--                handlers); and Relay (relay_client.py), whose session is a list of arrivals
--   Runner       bot/run.py: Config (the configurations that `_scan_loop` and `_trading_loop` build)
--                and Migration (`_load_config_json_into_db`)
--   Installer    installer/wizard: Validator (validator.py) and Writer (config_writer.py's
--                config.json)
--   License      bot/src/bot/license/validator.py; `LicenseValidator.check_once` is `check_once`
--   Learning     bot/src/bot/learning: Efficiency (efficiency.py, whose TradeRecord is RoundTrip here),
--                Profits (prior_profit.py and labeling.py), Features (features.py)
--   Tests        the same functions on concrete inputs
--
-- A method that changes its object is an action, a function from the state to a result and the
-- next state; one that raises keeps what it wrote before. A session's state holds the world of its
-- client, which every call may change, so that theorems about a session hold for any broker.
-- `Engine.Session.Requests` wraps a client so that it notes the orders asked of it. A loop over a
-- dict is a loop over its keys. All recursion is on lists and counts, except the loop `find` of the
-- clusters in scanner/leaders.py and the square root of the fixed-point numbers of the tests. The fuel of `find` is
-- the square of the number of symbols and one more; no more pairs are joined, and every join adds at
-- most one step to a path, so the loop ends before (`Scanner.Leaders.Groups`).
--
-- Modelling choices: `sum` adds from the left; `x ** 2` is `x * x`; periods and look-backs are
-- naturals; a `datetime` is a count of microseconds; what the clock answers during a cycle is a
-- `Tick`; a text that is logged or given as a reason is data, with the numbers that it formats; a
-- dict keyed by symbols is an association list in insertion order; `score_setup_fn` is any total
-- function.
--
-- The texts of floats that the license check stores, and `str.lower`, are a parameter, `Spelling`; its
-- theorems name what they need of it. The settings table is a dict.
--
-- A scan is an action on the world of its client and the cache of share counts. The forest of clusters is
-- a function from indices to parents. The parameters of a scan are the request to Finnhub, after its
-- retries, the news by symbol, and the profits made before; those of the news are the providers, the
-- normalization and the similarity of headlines, and the classifier; `strptime` is one of the window.
--
-- The control channel's database is a record of its tables. The values of a patch are JSON scalars and
-- lists of texts; the conversions between texts and numbers, `json` on lists, and SQLite's order of
-- texts are parameters. The license check and the control channel meet in the settings table:
-- `Control.Notices.Reported` is about both.
--
-- Not modelled: pydantic's checks of field ranges; the HTTP side of the broker client and of the news
-- providers; the learning model, which wraps a third-party classifier; the local API's
-- routes; the rest of run.py, which starts the threads; of the
-- installer what is neither validation nor the contents of config.json.
pub mod Prelude
pub mod Num
pub mod Models
pub mod Ta
pub mod Alpaca
pub mod Engine
pub mod License
pub mod Learning
pub mod News
pub mod Scanner
pub mod Control
pub mod Runner
pub mod Installer
pub mod Tests
