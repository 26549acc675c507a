-- ===== src/Scanner/Filters.antt =====
-- bot/src/bot/scanner/filters.py.
use quick_stock_bot.Prelude.{Bool, true, false, Option, none, some, ◌&&◌, ◌||◌, not, if◌then◌else◌}
use quick_stock_bot.Prelude.Int.{ℤ, leb_ℤ}
use quick_stock_bot.Num.{Float, lit, ◌⊖◌, ◌⊗◌, ◌⊘◌, ◌<?◌, ◌≤?◌}

module _ {F : Type 0} ⦃num : Float F⦄ where
  eps : F
  eps = lit 1 10

  unfoldable pub passes_price_filter : F → F → F → Bool
  passes_price_filter price min_price max_price = (min_price ≤? price) && (price ≤? max_price)

  unfoldable pub passes_gap_up_filter : F → F → F → Bool
  unfolding eps
  passes_gap_up_filter price prev_close min_pct =
      if prev_close <? eps then false else min_pct ≤? (price ⊖ prev_close) ⊘ prev_close ⊗ lit 100 0

  unfoldable pub compute_gap_pct : F → F → F
  unfolding eps
  compute_gap_pct price prev_close =
      if prev_close <? eps then lit 0 0 else (price ⊖ prev_close) ⊘ prev_close ⊗ lit 100 0

  unfoldable pub compute_rvol : ℤ → F → F → F
  unfolding eps
  compute_rvol today_volume avg_daily_volume session_elapsed_fraction =
      if (avg_daily_volume <? eps) || (session_elapsed_fraction <? eps)
      then lit 0 0
      else num.of_int today_volume ⊘ (avg_daily_volume ⊗ session_elapsed_fraction)

  unfoldable pub passes_rvol_filter : F → F → Bool
  passes_rvol_filter rvol min_rvol = min_rvol ≤? rvol

unfoldable pub passes_float_filter : Option ℤ → Bool → ℤ → Bool
passes_float_filter none unknown_float max_float = true
passes_float_filter (some float_shares) unknown_float max_float =
    if unknown_float then true else leb_ℤ float_shares max_float

unfoldable pub passes_news_filter : Bool → Bool → Bool
passes_news_filter has_news require_news = if not require_news then true else has_news
