-- ===== src/Ta/Patterns.antt =====
-- bot/src/bot/ta/patterns.py: candle patterns.
use quick_stock_bot.Prelude.{
  ℕ, ◌*◌, Bool, true, false, ◌||◌, not, List, [], ◌∷◌, Option, none, some, String, ◌==◌, ltb, leb,
  if◌then◌else◌, length, last_n, last_or, filter,
}
use quick_stock_bot.Prelude.Int.{pos}
use quick_stock_bot.Num.{Float, lit, ◌⊕◌, ◌⊖◌, ◌⊗◌, ◌⊘◌, ◌<?◌, ◌≤?◌, min_f, max_f}
use quick_stock_bot.Models.{Bar}
use quick_stock_bot.Ta.State.{PatternMatch}

-- the values of `PatternName`
abbrev pub engulfing_tag : String
engulfing_tag = "bullish_engulfing"

abbrev pub hammer_tag : String
hammer_tag = "hammer"

abbrev pub star_tag : String
star_tag = "morning_star"

abbrev pub continuation_tag : String
continuation_tag = "bullish_continuation"

module _ (F : Type 0) ⦃num : Float F⦄ where
  abbrev open_of : Bar → F
  open_of b = num.of_decimal b.open_price

  abbrev close_of : Bar → F
  close_of b = num.of_decimal b.close

  is_bullish : Bar → Bool
  is_bullish b = open_of b <? close_of b

  is_bearish : Bar → Bool
  is_bearish b = close_of b <? open_of b

module _ {F : Type 0} ⦃num : Float F⦄ where
  abbrev eps : F
  eps = lit 1 10

  body : Bar → F
  body b = num.abs (close_of F b ⊖ open_of F b)

  range : Bar → F
  range b = num.of_decimal b.high ⊖ num.of_decimal b.low

  abbrev no_match : String → PatternMatch F
  no_match tag = record { matched = false; tag = tag; strength = lit 0 0 }

  abbrev match_of : String → F → PatternMatch F
  match_of tag strength = record { matched = true; tag = tag; strength = num.round strength 4 }

  engulfing : Bar → Bar → PatternMatch F
  unfolding body is_bullish is_bearish
  engulfing prev curr =
      if not (is_bearish F prev) || not (is_bullish F curr)
      then no_match engulfing_tag
      else if (close_of F prev <? open_of F curr) || (close_of F curr <? open_of F prev)
      then no_match engulfing_tag
      else match_of engulfing_tag (min_f (lit 1 0) (body curr ⊘ (body prev ⊕ eps)))

  on_last_two : List Bar → PatternMatch F
  unfolding engulfing
  on_last_two (prev ∷ curr ∷ []) = engulfing prev curr
  on_last_two _ = no_match engulfing_tag

  pub detect_bullish_engulfing : List Bar → PatternMatch F
  unfolding on_last_two
  detect_bullish_engulfing bars = on_last_two (last_n 2 bars)

  hammer : Bar → PatternMatch F
  unfolding body range
  hammer candle =
      let total = range candle in
      let size = body candle in
      let body_top = max_f (open_of F candle) (close_of F candle) in
      let body_bot = min_f (open_of F candle) (close_of F candle) in
      let upper_wick = num.of_decimal candle.high ⊖ body_top in
      let lower_wick = body_bot ⊖ num.of_decimal candle.low in
      if total <? eps
      then no_match hammer_tag
      else if (lower_wick <? lit 2 0 ⊗ size) || (size <? upper_wick)
      then no_match hammer_tag
      else match_of hammer_tag (min_f (lit 1 0) (lower_wick ⊘ total))

  pub detect_hammer : List Bar → PatternMatch F
  unfolding hammer
  detect_hammer [] = no_match hammer_tag
  detect_hammer (b ∷ bars) = hammer (last_or b bars)

  morning_star : Bar → Bar → Bar → PatternMatch F
  unfolding body is_bullish is_bearish
  morning_star c1 c2 c3 =
      let c1_body = body c1 in
      let c1_mid = (open_of F c1 ⊕ close_of F c1) ⊘ lit 2 0 in
      let penetration = (close_of F c3 ⊖ c1_mid) ⊘ (open_of F c1 ⊖ c1_mid ⊕ eps) in
      if not (is_bearish F c1)
      then no_match star_tag
      else if c1_body <? eps
      then no_match star_tag
      else if lit 3 1 ⊗ c1_body <? body c2
      then no_match star_tag
      else if not (is_bullish F c3)
      then no_match star_tag
      else if close_of F c3 ≤? c1_mid
      then no_match star_tag
      else match_of star_tag (min_f (lit 1 0) (max_f (lit 0 0) penetration))

  on_last_three : List Bar → PatternMatch F
  unfolding morning_star
  on_last_three (c1 ∷ c2 ∷ c3 ∷ []) = morning_star c1 c2 c3
  on_last_three _ = no_match star_tag

  pub detect_morning_star : List Bar → PatternMatch F
  unfolding on_last_three
  detect_morning_star bars = on_last_three (last_n 3 bars)

  -- `bullish_count > len(bars) / 2` is exact in doubles, so it is compared over the integers
  pub detect_bullish_continuation : List Bar → PatternMatch F
  unfolding is_bullish
  detect_bullish_continuation [] = no_match continuation_tag
  detect_bullish_continuation (b ∷ bars) =
      let n = length (b ∷ bars) in
      let bullish_count = length (filter (is_bullish F) (b ∷ bars)) in
      let majority = ltb n (2 * bullish_count) in
      let uptrend = open_of F b <? close_of F (last_or b bars) in
      if ltb n 3
      then no_match continuation_tag
      else if not majority || not uptrend
      then no_match continuation_tag
      else match_of continuation_tag (num.of_int (pos bullish_count) ⊘ num.of_int (pos n))

  -- `_DETECTORS.get(name)`
  detector : String → Option (List Bar → PatternMatch F)
  detector name =
      if name == engulfing_tag
      then some detect_bullish_engulfing
      else if name == hammer_tag
      then some detect_hammer
      else if name == star_tag
      then some detect_morning_star
      else if name == continuation_tag
      then some detect_bullish_continuation
      else none

  collect : List Bar → List String → List (PatternMatch F)
  unfolding detector
  collect window [] = []
  collect window (name ∷ enabled) =
      let rest = collect window enabled in
      elim (detector name) [ none ↦ rest | some detect ↦ detect window ∷ rest ]

  unfoldable pub run_enabled_patterns : List Bar → List String → ℕ → List (PatternMatch F)
  unfolding collect detect_bullish_engulfing detect_hammer detect_morning_star
      detect_bullish_continuation
  run_enabled_patterns bars enabled lookback =
      collect (if leb lookback (length bars) then last_n lookback bars else bars) enabled

  -- `[m.tag for m in matches if m.matched]`
  abbrev pub matched_tags : List (PatternMatch F) → List String
  matched_tags [] = []
  matched_tags (m ∷ ms) = if m.matched then m.tag ∷ matched_tags ms else matched_tags ms
