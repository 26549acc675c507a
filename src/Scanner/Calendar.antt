-- ===== src/Scanner/Calendar.antt =====
-- The dates of bot/src/bot/scanner/window.py: Python's ordinals and weekdays, and the Eastern offset.
pub mod Sundays
use quick_stock_bot.Prelude.{
  ℕ, ◌+◌, ◌-◌, ◌*◌, ◌/◌, ◌%◌, Bool, ◌&&◌, ◌||◌, not, ltb, leb, nat_eq, if◌then◌else◌,
}

-- the fields of a `datetime` that the module reads; a year is at least 1
pub record Civil : Type 0 where
  pub year : ℕ
  pub month : ℕ
  pub day : ℕ
  pub hour : ℕ
  pub minute : ℕ

unfoldable pub is_leap : ℕ → Bool
is_leap year = nat_eq (year % 4) 0 && (not (nat_eq (year % 100) 0) || nat_eq (year % 400) 0)

-- days before the first of the month, in a common year
unfoldable pub month_table : ℕ → ℕ
month_table month =
    if leb month 1
    then 0
    else if leb month 2
    then 31
    else if leb month 3
    then 59
    else if leb month 4
    then 90
    else if leb month 5
    then 120
    else if leb month 6
    then 151
    else if leb month 7
    then 181
    else if leb month 8
    then 212
    else if leb month 9
    then 243
    else if leb month 10
    then 273
    else if leb month 11
    then 304
    else 334

unfoldable pub days_before_year : ℕ → ℕ
days_before_year year = let y = year - 1 in (y * 365 + y / 4 + y / 400) - y / 100

-- `date(year, month, day).toordinal()`
unfoldable pub ordinal : ℕ → ℕ → ℕ → ℕ
unfolding is_leap month_table days_before_year
ordinal year month day =
    days_before_year year + month_table month + (if ltb 2 month && is_leap year then 1 else 0) + day

-- `weekday()`: Monday is 0
unfoldable pub weekday : ℕ → ℕ
weekday ord = (ord + 6) % 7

-- `_nth_sunday`
unfoldable pub nth_sunday : ℕ → ℕ → ℕ → ℕ
unfolding ordinal weekday
nth_sunday year month n =
    let first = ordinal year month 1 in
    let days_to_sun = (6 - weekday first) % 7 in first + days_to_sun + 7 * (n - 1)

-- the hours that Eastern time is behind UTC
pub data Offset : Type 0 where
  et_standard et_daylight : Offset

unfoldable pub hours_behind : Offset → ℕ
hours_behind et_standard = 5
hours_behind et_daylight = 4

-- `_et_offset`
unfoldable pub et_offset : Civil → Offset
unfolding nth_sunday ordinal
et_offset dt =
    let dst_start = nth_sunday dt.year 3 2 in
    let dst_end = nth_sunday dt.year 11 1 in
    let d = ordinal dt.year dt.month dt.day in
    if leb dst_start d && ltb d dst_end then et_daylight else et_standard
