-- ===== src/Tests/Exits.antt =====
-- Ten shares sold by bot/src/bot/engine/exits.py.
use quick_stock_bot.Prelude.{false, List, [], ◌∷◌, String, some, ok, ◌≡◌, refl, arith}
use quick_stock_bot.Prelude.Int.{pos, floor_div, ◌-ℤ◌, ◌*ℤ◌}
use quick_stock_bot.Num.Fixed.{Fixed, fixed_float}
use quick_stock_bot.Ta.State.{MacdState}
use quick_stock_bot.Ta.Config.{default_patterns}
use quick_stock_bot.Engine.Messages.{text}
use quick_stock_bot.Engine.Exits.{
  ExitSignal, trail_off_per_candle, trail_off_candle_pattern, is_bullish_state,
}
use quick_stock_bot.Engine.Exits.Laws.{run_off, IsRunOff, run_off-IsRunOff}
use quick_stock_bot.Tests.Fixtures.{c, position, bullish}
use quick_stock_bot.Tests.Sizing.{floor_finite}

abbrev hammer : List String
hammer = "hammer" ∷ []

abbrev quarter : ExitSignal Fixed
quarter = record { symbol = "AAPL"; shares_to_sell = pos 2; reason = text "why"; is_final = false }

run-trail_off_per_candle :
    trail_off_per_candle position bullish hammer default_patterns (c 25) (text "why") ≡ ok quarter
unfolding trail_off_per_candle is_bullish_state fixed_float floor_div ◌*ℤ◌
run-trail_off_per_candle = refl

run-trail_off_candle_pattern :
    trail_off_candle_pattern position bullish hammer default_patterns [] (c 25) (text "why")
    ≡ ok (some quarter)
unfolding trail_off_candle_pattern is_bullish_state fixed_float floor_div ◌*ℤ◌
run-trail_off_candle_pattern = refl

-- two candles that are bullish, and then enough that are not
abbrev candles : List (MacdState Fixed × List String)
candles =
    (bullish, hammer)
    ∷ (bullish, hammer)
    ∷ (bullish, [])
    ∷ (bullish, [])
    ∷ (bullish, [])
    ∷ (bullish, [])
    ∷ (bullish, [])
    ∷ (bullish, [])
    ∷ (bullish, [])
    ∷ (bullish, [])
    ∷ []

run-run_off :
    run_off candles default_patterns (c 25) (text "") position
    ≡ ok (record position { remaining_shares = pos 0 })
unfolding run_off trail_off_per_candle is_bullish_state fixed_float floor_div ◌*ℤ◌ ◌-ℤ◌
run-run_off = refl

run_off-IsRunOff_example : IsRunOff (run_off candles default_patterns (c 25) (text "") position)
run_off-IsRunOff_example =
    run_off-IsRunOff candles default_patterns (c 25) (text "") position
      (λ k some_left k_left. floor_finite _) (ground arith)
