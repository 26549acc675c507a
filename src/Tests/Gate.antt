-- ===== src/Tests/Gate.antt =====
-- bot/src/bot/engine/gate.py on three rising candles.
use quick_stock_bot.Prelude.{List, String, [], ◌∷◌}
use quick_stock_bot.Num.Fixed.{fixed_float}
use quick_stock_bot.Ta.Config.{default_patterns}
use quick_stock_bot.Engine.Gate.Laws.{Verdict, check_entry_gate-Verdict}
use quick_stock_bot.Tests.Fixtures.{c, candles, bullish}

abbrev hammer : List String
hammer = "hammer" ∷ []

check_entry_gate-Verdict_example :
    Verdict candles bullish hammer (c 90) default_patterns (c 60) (c 300) 3
check_entry_gate-Verdict_example =
    check_entry_gate-Verdict candles bullish hammer (c 90) default_patterns (c 60) (c 300) 3
