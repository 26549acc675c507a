-- ===== src/Scanner/Calendar/Sundays.antt =====
-- bot/src/bot/scanner/window.py: daylight saving time lasts from the second Sunday in March to the first
-- in November.
use quick_stock_bot.Prelude.{
  ℕ, ◌+◌, ◌-◌, ◌*◌, ◌%◌, ◌≤◌, ◌<◌, ◌≡◌, ◌↔◌, ◌&&◌, ltb, leb, arith, if◌then◌else◌,
}
use quick_stock_bot.Scanner.Calendar.{
  Civil, ordinal, weekday, nth_sunday, et_offset, et_daylight, et_standard,
}

-- `s` is a Sunday, from day `first` on and before `first + 7`.
pub record IsSundayFrom (first s : ℕ) : Type 0 where
  pub sunday : weekday s ≡ 6
  pub not_before : first ≤ s
  pub within_week : s < first + 7

nth_sunday_unique :
    (year month n s : ℕ)
    → IsSundayFrom (ordinal year month 1 + 7 * (n - 1)) s
    → nth_sunday year month n ≡ s
unfolding nth_sunday
nth_sunday_unique year month n s h = unique (ordinal year month 1) h
  where
    unique :
        (first : ℕ)
        → IsSundayFrom (first + 7 * (n - 1)) s
        → first + (6 - weekday first) % 7 + 7 * (n - 1) ≡ s
    unique first h = omega (arith, h.sunday)

-- A date has daylight saving time exactly from the Sunday among the 8th to the 14th of March on, and
-- before the Sunday among the 1st to the 7th of November of its year.
pub et_offset-daylight_iff :
    (dt : Civil) (start end_ : ℕ)
    → IsSundayFrom (ordinal dt.year 3 1 + 7) start
    → IsSundayFrom (ordinal dt.year 11 1) end_
    → (et_offset dt ≡ et_daylight)
      ↔ ((start ≤ ordinal dt.year dt.month dt.day) × (ordinal dt.year dt.month dt.day < end_))
unfolding et_offset
et_offset-daylight_iff dt start end_ hs he =
    let d = ordinal dt.year dt.month dt.day in
    let first : nth_sunday dt.year 3 2 ≡ start = nth_sunday_unique dt.year 3 2 start hs in
    let last : nth_sunday dt.year 11 1 ≡ end_ = nth_sunday_unique dt.year 11 1 end_ (
      rw (← (let e : ordinal dt.year 11 1 + 7 * (1 - 1) ≡ ordinal dt.year 11 1 = omega arith in e))
        at he) in
    rw (first, last) (decide d)
  where
    decide :
        (d : ℕ)
        → ((if leb start d && ltb d end_ then et_daylight else et_standard) ≡ et_daylight)
          ↔ ((start ≤ d) × (d < end_))
    decide d = (λ e. ground (arith, e), λ h. ground arith)
