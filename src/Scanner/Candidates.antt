-- ===== src/Scanner/Candidates.antt =====
-- bot/src/bot/scanner/scanner.py: the evaluation of one symbol, and of all.
pub mod Passes
use quick_stock_bot.Prelude.{
  ◌*◌, Bool, true, false, String, List, [], ◌∷◌, Option, none, some, Result, ok, err, ◌&&◌, not,
  last_n, last_or, is_some, if◌then◌else◌,
}
use quick_stock_bot.Prelude.Int.{ℤ, pos, ◌-ℤ◌}
use quick_stock_bot.Prelude.Dict.{Dict, lookup}
use quick_stock_bot.Prelude.Action.{Action, pure, ◌>>=◌}
use quick_stock_bot.Num.{Float, lit, ◌⊕◌, ◌⊗◌, ◌⊘◌, ◌<?◌, ◌≤?◌, min_f, max_f}
use quick_stock_bot.Models.{Bar}
use quick_stock_bot.Alpaca.Client.{MarketClient}
use quick_stock_bot.Ta.Config.{TaConfig}
use quick_stock_bot.Ta.State.{MacdState, PatternMatch}
use quick_stock_bot.Ta.Helpers.{sum_ℤ, volumes}
use quick_stock_bot.Ta.Macd.{classify_macd}
use quick_stock_bot.Ta.Patterns.{run_enabled_patterns, matched_tags}
use quick_stock_bot.Ta.Scoring.{compute_score}
use quick_stock_bot.Ta.Similarity.{pattern_signature}
use quick_stock_bot.News.State.{TickerSentiment}
use quick_stock_bot.Scanner.Config.{ScannerConfig}
use quick_stock_bot.Scanner.State.{ScanWindow, TickerState, standalone}
use quick_stock_bot.Scanner.Fundamentals.{FundamentalsSource, Scanning, get_float_shares}
use quick_stock_bot.Scanner.Filters.{
  passes_price_filter, passes_gap_up_filter, compute_gap_pct, compute_rvol, passes_rvol_filter,
  passes_float_filter, passes_news_filter,
}

-- what a scan is given
pub record ScanSetup (F W : Type 0) : Type 0 where
  pub client : MarketClient W
  pub fundamentals : FundamentalsSource F W
  pub config : ScannerConfig F
  pub ta_config : TaConfig
  pub news_by_symbol : Dict (TickerSentiment F)
  pub prior_profit : String → Option F
  pub finnhub_api_key : Option String

-- a call of the client
pub call : {W A : Type 0} → Action W A → Action (Scanning W) A
call f s = let (r, w) = f s.world in (r, record s { world = w })

module _ {F : Type 0} ⦃num : Float F⦄ where
  -- `_NULL_MACD`
  null_macd : MacdState F
  null_macd = record {
    value = lit 0 0;
    slope = lit 0 0;
    hist = lit 0 0;
    favorability = lit 0 0;
    eligible = false;
  }

  -- `_session_elapsed_fraction`
  unfoldable pub session_elapsed_fraction : ℤ → ℤ → F
  session_elapsed_fraction now session_open =
      let elapsed_h = num.of_int (now -ℤ session_open) ⊘ lit 1_000_000 0 ⊘ lit 3600 0 in
      if elapsed_h ≤? lit 0 0 then lit 0 0 else min_f (lit 1 0) (elapsed_h ⊘ lit 65 1)

  -- `_estimate_avg_daily_volume`
  unfoldable pub estimate_avg_daily_volume : List Bar → F → F
  estimate_avg_daily_volume bars elapsed_frac =
      let today_volume = num.of_int (sum_ℤ (volumes bars)) in
      if elapsed_frac <? lit 1 10 then today_volume else today_volume ⊘ elapsed_frac

  -- `_compute_macd`
  compute_macd_or_null : List Bar → TaConfig → MacdState F
  unfolding null_macd
  compute_macd_or_null bars ta_config = elim (classify_macd bars ta_config) [
    | ok macd ↦ macd
    | err e ↦ null_macd
  ]

  -- `_has_positive_news`
  pub has_positive_news : Option (TickerSentiment F) → Bool
  has_positive_news none = false
  has_positive_news (some ts) = elim ts.articles [
    | [] ↦ false
    | a ∷ rest ↦ lit 0 0 <? ts.aggregate.score
  ]

  -- `_sentiment_score`
  sentiment_score : Option (TickerSentiment F) → F
  sentiment_score none = lit 0 0
  sentiment_score (some ts) = ts.aggregate.score

  -- `max(float(b.high) for b in bars)` and `min(float(b.low) for b in bars)`
  highest : F → List Bar → F
  highest high [] = high
  highest high (b ∷ bars) = highest (max_f high (num.of_decimal b.high)) bars

  lowest : F → List Bar → F
  lowest low [] = low
  lowest low (b ∷ bars) = lowest (min_f low (num.of_decimal b.low)) bars

  -- the bias of earlier profits
  with_bias : F → F → Option F → F
  with_bias weight base_score none = base_score
  with_bias weight base_score (some prior_pnl) =
      if lit 0 0 <? prior_pnl
      then min_f (lit 100 0) (base_score ⊕ prior_pnl ⊗ weight)
      else base_score

module _ {F W : Type 0} ⦃num : Float F⦄ (setup : ScanSetup F W) (window : ScanWindow) where
  open setup use {
    client, fundamentals, config, ta_config, news_by_symbol, prior_profit, finnhub_api_key,
  }

  five_days : ℤ
  five_days = pos (5 * 24 * 3_600_000_000)

  last_close : List Bar → F
  last_close [] = lit 0 0
  last_close (b ∷ bars) = num.of_decimal (last_or b bars).close

  -- `_get_prev_close`
  get_prev_close : String → Action (Scanning W) F
  unfolding call five_days last_close
  get_prev_close symbol = do
    bars ←
        call
          (client.get_bars symbol (window.window_start -ℤ five_days) window.window_start "1Day" 5)
    pure (last_close bars)

  -- the candidate, after all filters
  state_of : String → Bar → List Bar → F → F → F → Option ℤ → Bool → Bool → F → TickerState F
  unfolding compute_macd_or_null sentiment_score highest lowest with_bias
  state_of symbol b rest price prev_close gap_pct float_shares unknown_float has_news rvol =
      let bars = b ∷ rest in
      let macd_state = compute_macd_or_null bars ta_config in
      let matches =
        run_enabled_patterns bars ta_config.enabled_patterns ta_config.pattern_candle_lookback in
      let (base_score, _) =
        compute_score symbol has_news (sentiment_score (lookup symbol news_by_symbol)) macd_state
          matches price (highest (num.of_decimal b.high) rest)
          (lowest (num.of_decimal b.low) rest) in
      record {
        symbol = symbol;
        price = price;
        prev_close = prev_close;
        gap_pct = gap_pct;
        pct_change = gap_pct;
        rvol = rvol;
        float_shares = float_shares;
        unknown_float = unknown_float;
        tradable = not (unknown_float && not config.include_unknown_float);
        has_news = has_news;
        macd_state = macd_state;
        pattern_tags = matched_tags matches;
        pattern_signature = pattern_signature (last_n ta_config.pattern_candle_lookback bars);
        role = standalone;
        score = with_bias config.prior_profit_bias_weight base_score (prior_profit symbol);
      }

  -- from the float on
  after_float : String → F → Bar → List Bar → F → F → F → Option ℤ → Option (TickerState F)
  unfolding state_of has_positive_news
  after_float symbol elapsed_frac b rest price prev_close gap_pct float_shares =
      let bars = b ∷ rest in
      let unknown_float = not (is_some float_shares) in
      let has_news = has_positive_news (lookup symbol news_by_symbol) in
      let rvol =
        compute_rvol (sum_ℤ (volumes bars)) (estimate_avg_daily_volume bars elapsed_frac)
          elapsed_frac in
      if not (passes_float_filter float_shares unknown_float config.max_float_shares)
      then none
      else if not (passes_news_filter has_news config.require_news)
      then none
      else if not (passes_rvol_filter rvol config.relative_volume_min)
      then none
      else some
          (state_of symbol b rest price prev_close gap_pct float_shares unknown_float has_news rvol)

  get_float : String → Action (Scanning W) (Option ℤ)
  get_float symbol s =
      let (shares, s') = get_float_shares fundamentals symbol finnhub_api_key s in (ok shares, s')

  after_close : String → F → Bar → List Bar → F → F → Action (Scanning W) (Option (TickerState F))
  unfolding after_float get_float
  after_close symbol elapsed_frac b rest price prev_close =
      let gap_pct = compute_gap_pct price prev_close in
      if not (passes_gap_up_filter price prev_close config.gap_up_min_pct) then pure none else do
        float_shares ← get_float symbol
        pure (after_float symbol elapsed_frac b rest price prev_close gap_pct float_shares)

  with_bars : String → F → List Bar → Action (Scanning W) (Option (TickerState F))
  unfolding after_close get_prev_close
  with_bars symbol elapsed_frac [] = pure none
  with_bars symbol elapsed_frac (b ∷ rest) =
      let price = num.of_decimal (last_or b rest).close in
      if not (passes_price_filter price config.min_price config.max_price) then pure none else do
        prev_close ← get_prev_close symbol
        after_close symbol elapsed_frac b rest price prev_close

  unfoldable pub evaluate_symbol : String → F → ℤ → Action (Scanning W) (Option (TickerState F))
  unfolding with_bars
  evaluate_symbol symbol elapsed_frac now = do
    bars ← call (client.get_bars symbol window.window_start now "1Min" 1000)
    with_bars symbol elapsed_frac bars

  -- the answer of one round; an exception is logged
  noted_state : Result (Option (TickerState F)) → List (TickerState F) → List (TickerState F)
  noted_state (ok (some state)) states = state ∷ states
  noted_state (ok none) states = states
  noted_state (err e) states = states

  scan_loop : List String → F → ℤ → Scanning W → List (TickerState F) × Scanning W
  unfolding noted_state
  scan_loop [] elapsed_frac now s = ([], s)
  scan_loop (symbol ∷ symbols) elapsed_frac now s =
      let (reply, s') = evaluate_symbol symbol elapsed_frac now s in
      let (states, s'') = scan_loop symbols elapsed_frac now s' in (noted_state reply states, s'')

  unfoldable pub scan_candidates : List String → ℤ → Scanning W → List (TickerState F) × Scanning W
  unfolding scan_loop
  scan_candidates symbols now s =
      scan_loop symbols (session_elapsed_fraction now window.session_open) now s
