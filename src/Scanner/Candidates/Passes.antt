-- ===== src/Scanner/Candidates/Passes.antt =====
-- bot/src/bot/scanner/scanner.py: what every candidate of a scan satisfies.
use quick_stock_bot.Prelude.{
  true, String, List, [], ◌∷◌, Option, none, some, Result, ok, err, ◌≡◌, refl, arith, Bool-cases,
  inl, inr, All, mem, last_or, eq_iff,
}
use quick_stock_bot.Prelude.Int.{ℤ, ◌≤ℤ◌}
use quick_stock_bot.Prelude.Dict.{lookup}
use quick_stock_bot.Prelude.Action.{Action, pure, ◌>>=◌}
use quick_stock_bot.Num.{Float, ◌≼◌}
use quick_stock_bot.Models.{Bar}
use quick_stock_bot.Scanner.State.{ScanWindow, TickerState, standalone}
use quick_stock_bot.Scanner.Fundamentals.{Scanning}
use quick_stock_bot.Scanner.Filters.{
  passes_price_filter, passes_gap_up_filter, compute_gap_pct, passes_rvol_filter,
  passes_float_filter, passes_news_filter,
}
use quick_stock_bot.Scanner.Candidates.{
  ScanSetup, has_positive_news, state_of, after_float, after_close, get_float, with_bars,
  get_prev_close, noted_state, evaluate_symbol, scan_loop, scan_candidates,
}

-- A float within the limit, or none that is known.
abbrev pub IsSmall : ℤ → Option ℤ → Type 0
IsSmall max_float none = Unit
IsSmall max_float (some n) = n ≤ℤ max_float

module _ {F W : Type 0} ⦃num : Float F⦄ (setup : ScanSetup F W) where
  pub record Passes (s : TickerState F) : Type 0 where
    pub above_min : setup.config.min_price ≼ s.price
    pub below_max : s.price ≼ setup.config.max_price
    pub gapped : setup.config.gap_up_min_pct ≼ s.gap_pct
    pub traded : setup.config.relative_volume_min ≼ s.rvol
    pub small : IsSmall setup.config.max_float_shares s.float_shares
    pub newsworthy : setup.config.require_news ≡ true → s.has_news ≡ true
    pub unranked : s.role ≡ standalone
    pub informed : s.has_news ≡ has_positive_news (lookup s.symbol setup.news_by_symbol)

  module _ (window : ScanWindow) where
    -- what one evaluation may answer
    Answers : String → Result (Option (TickerState F)) → Type 0
    Answers symbol (ok (some s)) = (s.symbol ≡ symbol) × Passes s
    Answers symbol (ok none) = Unit
    Answers symbol (err e) = Unit

    after_float-Answers :
        (symbol : String) (elapsed_frac : F) (b : Bar) (rest : List Bar) (price prev_close : F)
        (shares : Option ℤ)
        → passes_price_filter price setup.config.min_price setup.config.max_price ≡ true
        → passes_gap_up_filter price prev_close setup.config.gap_up_min_pct ≡ true
        → Answers symbol (
            ok (
              after_float setup window symbol elapsed_frac b rest price prev_close
                (compute_gap_pct price prev_close)
                shares))
    unfolding Answers after_float state_of passes_price_filter passes_gap_up_filter compute_gap_pct
        passes_rvol_filter passes_float_filter passes_news_filter
    after_float-Answers symbol elapsed_frac b rest price prev_close none in_range gap = ground arith
    after_float-Answers symbol elapsed_frac b rest price prev_close (some n) in_range gap =
        ground arith

    bind_at :
        {A : Type 0} (symbol : String) (r : Result A) (t : Scanning W)
        (f : A → Action (Scanning W) (Option (TickerState F)))
        → ((a : A) (s : Scanning W) → Answers symbol (f a s).0)
        → let out : Result (Option (TickerState F)) × Scanning W = elim r [
          | ok a ↦ f a t
          | err e ↦ (err e, t)
        ] in
          Answers symbol out.0
    unfolding Answers
    bind_at symbol (ok a) t f h = h a t
    bind_at symbol (err e) t f h = tt

    -- a part of which nothing is asked, followed by one that answers
    bind-Answers :
        {A : Type 0} (symbol : String) (m : Action (Scanning W) A)
        (f : A → Action (Scanning W) (Option (TickerState F)))
        → ((a : A) (s : Scanning W) → Answers symbol (f a s).0)
        → (s : Scanning W) → Answers symbol ((m >>= f) s).0
    unfolding ◌>>=◌
    bind-Answers symbol m f h s = bind_at symbol (m s).0 (m s).1 f h

    after_close-Answers :
        (symbol : String) (elapsed_frac : F) (b : Bar) (rest : List Bar) (price prev_close : F)
        → passes_price_filter price setup.config.min_price setup.config.max_price ≡ true
        → (s : Scanning W)
        → Answers symbol (after_close setup window symbol elapsed_frac b rest price prev_close s).0
    unfolding after_close Answers pure
    after_close-Answers symbol elapsed_frac b rest price prev_close in_range =
        elim (Bool-cases (passes_gap_up_filter price prev_close setup.config.gap_up_min_pct)) [
          | inl gap ↦ rw gap (
              bind-Answers symbol (get_float setup window symbol) _ (λ shares s.
                after_float-Answers symbol elapsed_frac b rest price prev_close shares in_range
                  gap))
          | inr low ↦ rw low (λ s. tt)
        ]

    with_bars-Answers :
        (symbol : String) (elapsed_frac : F) (bars : List Bar) (s : Scanning W)
        → Answers symbol (with_bars setup window symbol elapsed_frac bars s).0
    unfolding with_bars Answers pure
    with_bars-Answers symbol elapsed_frac [] = λ s. tt
    with_bars-Answers symbol elapsed_frac (b ∷ rest) =
        elim (Bool-cases (
          passes_price_filter (num.of_decimal (last_or b rest).close) setup.config.min_price
            setup.config.max_price)) [
              | inl in_range ↦ rw in_range (
                  bind-Answers symbol (get_prev_close setup window symbol) _ (λ prev_close.
                    after_close-Answers symbol elapsed_frac b rest _ prev_close in_range))
              | inr out ↦ rw out (λ s. tt)
            ]

    evaluate_symbol-Answers :
        (symbol : String) (elapsed_frac : F) (now : ℤ) (s : Scanning W)
        → Answers symbol (evaluate_symbol setup window symbol elapsed_frac now s).0
    unfolding evaluate_symbol
    evaluate_symbol-Answers symbol elapsed_frac now =
        bind-Answers symbol _ _ (with_bars-Answers symbol elapsed_frac)

    -- a candidate of one of the symbols
    abbrev pub IsCandidate : List String → TickerState F → Type 0
    IsCandidate symbols s = (mem s.symbol symbols ≡ true) × Passes s

    IsCandidate-cons :
        (symbol : String) (symbols : List String) (states : List (TickerState F))
        → All (IsCandidate symbols) states
        → All (IsCandidate (symbol ∷ symbols)) states
    IsCandidate-cons symbol symbols [] h = tt
    IsCandidate-cons symbol symbols (s ∷ states) ((m, p), h) =
        ((ground arith, p), IsCandidate-cons symbol symbols states h)

    noted_state-IsCandidate :
        (symbol : String) (symbols : List String) (r : Result (Option (TickerState F)))
        (states : List (TickerState F))
        → Answers symbol r
        → All (IsCandidate symbols) states
        → All (IsCandidate (symbol ∷ symbols)) (noted_state setup window r states)
    unfolding noted_state Answers
    noted_state-IsCandidate symbol symbols (ok (some s)) states (e, p) h =
        ((ground (arith, e, eq_iff symbol s.symbol), p), IsCandidate-cons symbol symbols states h)
    noted_state-IsCandidate symbol symbols (ok none) states a h =
        IsCandidate-cons symbol symbols states h
    noted_state-IsCandidate symbol symbols (err e) states a h =
        IsCandidate-cons symbol symbols states h

    scan_loop-IsCandidate :
        (symbols : List String) (elapsed_frac : F) (now : ℤ) (s : Scanning W)
        → All (IsCandidate symbols) (scan_loop setup window symbols elapsed_frac now s).0
    unfolding scan_loop
    scan_loop-IsCandidate [] elapsed_frac now s = tt
    scan_loop-IsCandidate (symbol ∷ symbols) elapsed_frac now s =
        noted_state-IsCandidate symbol symbols _ _
          (evaluate_symbol-Answers symbol elapsed_frac now s)
          (scan_loop-IsCandidate symbols elapsed_frac now _)

    -- Whatever the broker and Finnhub answer or raise, a scan ends with a list of candidates, and each
    -- is one of the symbols, has a price in the configured range, a gap and a relative volume of at
    -- least the configured ones, a float that is unknown or within the limit, positive news if these
    -- are required, which it is said to have exactly when the news given of it are positive, and no
    -- role yet.
    pub scan_candidates-IsCandidate :
        (symbols : List String) (now : ℤ) (s : Scanning W)
        → All (IsCandidate symbols) (scan_candidates setup window symbols now s).0
    unfolding scan_candidates
    scan_candidates-IsCandidate symbols now s = scan_loop-IsCandidate symbols _ now s

    no_candidates :
        (symbols : List String) (states : List (TickerState F))
        → setup.news_by_symbol ≡ []
        → setup.config.require_news ≡ true
        → All (IsCandidate symbols) states
        → states ≡ []
    unfolding has_positive_news
    no_candidates symbols [] none_known required h = refl
    no_candidates symbols (s ∷ states) none_known required ((listed, p), h) =
        absurd (ground (arith, p.newsworthy required, rw (none_known) at p.informed))

    -- A scan that is given no news and requires some finds no candidate.
    pub scan_candidates_without_news :
        (symbols : List String) (now : ℤ) (s : Scanning W)
        → setup.news_by_symbol ≡ []
        → setup.config.require_news ≡ true
        → (scan_candidates setup window symbols now s).0 ≡ []
    scan_candidates_without_news symbols now s none_known required =
        no_candidates symbols _ none_known required (scan_candidates-IsCandidate symbols now s)
