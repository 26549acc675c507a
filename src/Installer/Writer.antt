-- ===== src/Installer/Writer.antt =====
-- installer/wizard/config_writer.py: the contents of config.json. `list` of a text, its characters, is a
-- parameter.
pub mod Sections
use quick_stock_bot.Prelude.{
  Bool, true, false, String, List, [], ◌∷◌, Option, none, some, Result, ok, err, Error, and_then,
}
use quick_stock_bot.Prelude.Int.{ℤ, pos}
use quick_stock_bot.Prelude.Dict.{lookup}
use quick_stock_bot.Num.{Float, lit}
use quick_stock_bot.Control.Values.{
  Json, null, flag, integer, number, text, texts, Conversions, truthy, str, to_int, to_float,
}
use quick_stock_bot.Installer.Validator.{Entered}

pub record ScannerSection (F : Type 0) : Type 0 where
  pub pre_open_lead_hours : F
  pub scan_duration_hours : F
  pub relative_volume_min : F
  pub gap_up_min_pct : F
  pub max_float_shares : ℤ
  pub include_unknown_float : Bool
  pub active_tickers_n : ℤ

pub record PatternsSection : Type 0 where
  pub enabled_patterns : List String
  pub pattern_candle_lookback : ℤ
  pub macd_fast : ℤ
  pub macd_slow : ℤ
  pub macd_signal : ℤ
  pub macd_enforce_above_zero : Bool

pub record RiskSection (F : Type 0) : Type 0 where
  pub daily_max_loss_pct : F
  pub daily_profit_target_pct : F
  pub override_risk_per_trade : Bool
  pub risk_per_trade_pct : F
  pub exit_mode : String
  pub trail_off_trigger : String
  pub trail_off_fraction_per_candle : F

pub record ConfigJson (F : Type 0) : Type 0 where
  pub scanner : ScannerSection F
  pub patterns : PatternsSection
  pub risk : RiskSection F

-- `s.get(key, default)`
unfoldable pub get_or : {F : Type 0} → String → Json F → Entered F → Json F
get_or key default s = elim (lookup key s) [ none ↦ default | some v ↦ v ]

module _ {F : Type 0} ⦃num : Float F⦄ (conv : Conversions F)
    (characters : String → List String) where
  -- `float`, `int`, `bool`, `str` and `list` of an entry
  float_of : String → F → Entered F → Result F
  unfolding get_or
  float_of key default s = to_float conv (get_or key (number default) s)

  int_of : String → ℤ → Entered F → Result ℤ
  unfolding get_or
  int_of key default s = to_int conv (get_or key (integer default) s)

  bool_of : String → Bool → Entered F → Bool
  unfolding get_or
  bool_of key default s = truthy (get_or key (flag default) s)

  str_of : String → String → Entered F → String
  unfolding get_or
  str_of key default s = str conv (get_or key (text default) s)

  list_of : Json F → Result (List String)
  list_of null = err Error.type_error
  list_of (flag b) = err Error.type_error
  list_of (integer n) = err Error.type_error
  list_of (number x) = err Error.type_error
  list_of (text s) = ok (characters s)
  list_of (texts items) = ok items

  unfoldable pub scanner_section : Entered F → Result (ScannerSection F)
  unfolding float_of int_of bool_of
  scanner_section s = and_then (float_of "pre_open_lead_hours" (lit 1 0) s) (λ lead.
      and_then (float_of "scan_duration_hours" (lit 3 0) s) (λ duration.
        and_then (float_of "relative_volume_min" (lit 2 0) s) (λ volume.
          and_then (float_of "gap_up_min_pct" (lit 5 0) s) (λ gap.
            and_then (int_of "max_float_shares" (pos 20_000_000) s) (λ shares.
              and_then (int_of "active_tickers_n" (pos 3) s) (λ active. ok (record {
                pre_open_lead_hours = lead;
                scan_duration_hours = duration;
                relative_volume_min = volume;
                gap_up_min_pct = gap;
                max_float_shares = shares;
                include_unknown_float = bool_of "include_unknown_float" true s;
                active_tickers_n = active;
              })))))))

  patterns_section : Entered F → Result PatternsSection
  unfolding list_of int_of bool_of
  patterns_section s =
      and_then
        (list_of (
          get_or "enabled_patterns"
            (texts ("bullish_engulfing" ∷ "hammer" ∷ "morning_star" ∷ "bullish_continuation" ∷ []))
            s))
        (λ patterns. and_then (int_of "pattern_candle_lookback" (pos 5) s) (λ lookback.
          and_then (int_of "macd_fast" (pos 12) s) (λ fast.
            and_then (int_of "macd_slow" (pos 26) s) (λ slow.
              and_then (int_of "macd_signal" (pos 9) s) (λ signal. ok (record {
                enabled_patterns = patterns;
                pattern_candle_lookback = lookback;
                macd_fast = fast;
                macd_slow = slow;
                macd_signal = signal;
                macd_enforce_above_zero = bool_of "macd_enforce_above_zero" true s;
              }))))))

  risk_section : Entered F → Result (RiskSection F)
  unfolding float_of bool_of str_of
  risk_section s = and_then (float_of "daily_max_loss_pct" (num.negate (lit 2 0)) s) (λ loss.
      and_then (float_of "daily_profit_target_pct" (lit 3 0) s) (λ target.
        and_then (float_of "risk_per_trade_pct" (lit 1 0) s) (λ per_trade.
          and_then (float_of "trail_off_fraction_per_candle" (lit 25 2) s) (λ fraction. ok (record {
            daily_max_loss_pct = loss;
            daily_profit_target_pct = target;
            override_risk_per_trade = bool_of "override_risk_per_trade" false s;
            risk_per_trade_pct = per_trade;
            exit_mode = str_of "exit_mode" "dump" s;
            trail_off_trigger = str_of "trail_off_trigger" "per_candle" s;
            trail_off_fraction_per_candle = fraction;
          })))))

  -- `_write_config_json`: what is written
  unfoldable pub config_json : Entered F → Result (ConfigJson F)
  unfolding scanner_section patterns_section risk_section
  config_json s = and_then (scanner_section s) (λ scanner.
      and_then (patterns_section s) (λ patterns.
        and_then (risk_section s)
          (λ risk. ok (record { scanner = scanner; patterns = patterns; risk = risk }))))
