-- ===== src/Scanner/Window.antt =====
-- bot/src/bot/scanner/window.py. `strptime` reads a text of the form "2024-01-15 09:30".
use Prim.Native.String.{◌++◌}
use quick_stock_bot.Prelude.{
  ℕ, ◌+◌, ◌*◌, Bool, String, List, [], ◌∷◌, ◌&&◌, Result, Error, or_raise,
}
use quick_stock_bot.Prelude.Texts.{text_take}
use quick_stock_bot.Prelude.Int.{ℤ, pos, ◌+ℤ◌, ◌-ℤ◌, ltb_ℤ, leb_ℤ}
use quick_stock_bot.Prelude.Action.{Action, lift, ◌>>=◌}
use quick_stock_bot.Num.{Float, lit, ◌⊗◌}
use quick_stock_bot.Alpaca.Client.{CalendarDay, MarketClient}
use quick_stock_bot.Scanner.State.{ScanWindow}
use quick_stock_bot.Scanner.Calendar.{Civil, ordinal, hours_behind, et_offset, Offset}

-- microseconds of a wall-clock time, and of the moment that it names at an offset
unfoldable pub micros : Civil → ℕ
unfolding ordinal
micros t = ((ordinal t.year t.month t.day * 24 + t.hour) * 60 + t.minute) * 60_000_000

unfoldable pub to_utc : Offset → Civil → ℤ
unfolding micros hours_behind
to_utc off t = pos (micros t + hours_behind off * 3_600_000_000)

-- `_parse_et_time`
unfoldable pub parse_et_time : (String → Result Civil) → String → String → Result ℤ
unfolding to_utc
parse_et_time strptime date_str time_str = elim (strptime (date_str ++ " " ++ time_str)) [
  | Result.ok naive ↦ Result.ok (to_utc (et_offset naive) naive)
  | Result.err e ↦ Result.err e
]

-- the open of the day: the calendar's, or 09:30 with the offset of the present moment
open_of_day : (String → Result Civil) → Civil → String → List CalendarDay → Result ℤ
unfolding to_utc
open_of_day strptime utcnow today_str [] = elim (strptime (today_str ++ " 09:30")) [
  | Result.ok naive ↦ Result.ok (to_utc (et_offset utcnow) naive)
  | Result.err e ↦ Result.err e
]
open_of_day strptime utcnow today_str (day ∷ _) = parse_et_time strptime day.date day.open_time

module _ {F : Type 0} ⦃num : Float F⦄ where
  -- `timedelta(hours=h)`, rounded to microseconds
  unfoldable pub hours_delta : F → Result ℤ
  hours_delta h = or_raise Error.not_finite (num.floor (num.round (h ⊗ lit 3_600_000_000 0) 0))

  unfoldable pub window_from : ℤ → F → F → Result ScanWindow
  window_from session_open lead duration = elim (hours_delta lead) [
    | Result.err e ↦ Result.err e
    | Result.ok before ↦ elim (hours_delta duration) [
      | Result.err e ↦ Result.err e
      | Result.ok long ↦
          let window_start = session_open -ℤ before in
          Result.ok (record {
            window_start = window_start;
            window_end = window_start +ℤ long;
            session_open = session_open;
          })
    ]
  ]

  unfoldable pub get_scan_window :
      {W : Type 0} → MarketClient W → (String → Result Civil) → Civil → F → F → Action W ScanWindow
  unfolding text_take open_of_day
  get_scan_window client strptime utcnow lead duration = do
    clock ← client.get_clock
    let today_str = text_take 10 clock.timestamp
    calendar ← client.get_calendar today_str today_str
    session_open ← lift (open_of_day strptime utcnow today_str calendar)
    lift (window_from session_open lead duration)

unfoldable pub is_in_window : ℤ → ScanWindow → Bool
is_in_window now window = leb_ℤ window.window_start now && ltb_ℤ now window.window_end
