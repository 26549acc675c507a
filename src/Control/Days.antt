-- ===== src/Control/Days.antt =====
-- bot/src/bot/control/db.py: the days on which the bot ran, and the profit of each. ISO dates stand in
-- the order of texts.
use quick_stock_bot.Prelude.{
  Bool, ◌&&◌, not, String, List, [], ◌∷◌, ◌++◌, mem, filter, if◌then◌else◌,
}
use quick_stock_bot.Num.{Float}
use quick_stock_bot.Control.Database.{Database}
use quick_stock_bot.Control.Lists.{order_by}
use quick_stock_bot.Control.Views.{Readers, DayView, day_views}

-- `INSERT OR REPLACE INTO run_days`
unfoldable pub mark_run_day : {F : Type 0} → String → Database F → Database F
mark_run_day date db =
    if mem date db.run_days then db else record db { run_days = db.run_days ++ (date ∷ []) }

module _ {F : Type 0} (before : String → String → Bool) where
  unfoldable pub get_run_days : Database F → String → String → List String
  get_run_days db start end_ =
      order_by before
        (filter (λ date. not (before date start) && not (before end_ date)) db.run_days)

  unfoldable pub get_daily_pl :
      ⦃num : Float F⦄ → Readers F → Database F → String → String → List (DayView F)
  unfolding get_run_days
  get_daily_pl readers db start end_ = day_views readers db (get_run_days db start end_)
