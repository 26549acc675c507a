-- ===== src/Engine/Exits.antt =====
-- bot/src/bot/engine/exits.py: what to sell of an open position.
pub mod Laws
use quick_stock_bot.Prelude.{
  Bool, true, false, ◌&&◌, not, String, List, [], ◌∷◌, Option, none, some, Result, ok, Error,
  and_then, or_raise, if◌then◌else◌, any, filter, mem,
}
use quick_stock_bot.Prelude.Int.{ℤ, pos, leb_ℤ, min_ℤ, max_ℤ}
use quick_stock_bot.Num.{Float, lit, ◌⊕◌, ◌⊖◌, ◌⊗◌, ◌⊘◌, ◌<?◌, ◌≤?◌}
use quick_stock_bot.Ta.State.{MacdState}
use quick_stock_bot.Engine.Messages.{Reason, text, or_reason}

pub record OpenPosition (F : Type 0) : Type 0 where
  pub symbol : String
  pub entry_price : F
  pub shares : ℤ
  pub remaining_shares : ℤ
  pub high_water_mark : F
  pub pattern_tags : List String

abbrev pub is_closed : {F : Type 0} → OpenPosition F → Bool
is_closed pos' = leb_ℤ pos'.remaining_shares (pos 0)

pub record ExitSignal (F : Type 0) : Type 0 where
  pub symbol : String
  pub shares_to_sell : ℤ
  pub reason : Reason F
  pub is_final : Bool

-- `_BEARISH_TAGS` of gate.py
abbrev pub bearish_tags : List String
bearish_tags =
    "bearish_engulfing" ∷ "shooting_star" ∷ "evening_star" ∷ "bearish_continuation"
    ∷ "dark_cloud_cover" ∷ "hanging_man" ∷ []

abbrev pub has_reversal : List String → Bool
has_reversal = any (λ t. mem t bearish_tags)

-- `_is_bullish_state`
unfoldable pub is_bullish_state : {F : Type 0} → MacdState F → List String → List String → Bool
is_bullish_state macd tags bullish =
    macd.eligible && any (λ t. mem t bullish) tags && not (has_reversal tags)

-- `(set(tags) - set(prev)) & bullish`
abbrev pub new_hits : List String → List String → List String → List String
new_hits tags prev bullish = filter (λ t. not (mem t prev) && mem t bullish) tags

module _ {F : Type 0} ⦃num : Float F⦄ where
  unfoldable pub check_take_profit : OpenPosition F → F → F → Bool
  check_take_profit p price take_profit_pct =
      p.entry_price ⊗ (lit 1 0 ⊕ take_profit_pct ⊘ lit 100 0) ≤? price

  unfoldable pub check_trailing_stop : OpenPosition F → F → F → Bool
  check_trailing_stop p price trailing_stop_pct =
      price ≤? p.high_water_mark ⊗ (lit 1 0 ⊖ trailing_stop_pct ⊘ lit 100 0)

  unfoldable pub update_high_water_mark : OpenPosition F → F → OpenPosition F
  update_high_water_mark p price =
      if p.high_water_mark <? price then record p { high_water_mark = price } else p

  unfoldable pub dump_exit : OpenPosition F → Reason F → ExitSignal F
  dump_exit p reason = record {
    symbol = p.symbol;
    shares_to_sell = p.remaining_shares;
    reason = reason;
    is_final = true;
  }

  -- the shares that both scale-outs sell
  fraction_of : OpenPosition F → F → Result ℤ
  fraction_of p fraction =
      and_then (or_raise Error.not_finite (num.floor (num.of_int p.remaining_shares ⊗ fraction)))
        λ n. ok (min_ℤ (max_ℤ (pos 1) n) p.remaining_shares)

  scale_out : OpenPosition F → F → Reason F → Result (ExitSignal F)
  unfolding fraction_of
  scale_out p fraction reason = and_then (fraction_of p fraction) λ n. ok (record {
    symbol = p.symbol;
    shares_to_sell = n;
    reason = reason;
    is_final = leb_ℤ p.remaining_shares n;
  })

  unfoldable pub trail_off_per_candle :
      OpenPosition F
      → MacdState F
      → List String
      → List String
      → F
      → Reason F
      → Result (ExitSignal F)
  unfolding is_bullish_state dump_exit scale_out
  trail_off_per_candle p macd tags bullish fraction reason =
      if not (is_bullish_state macd tags bullish)
      then ok (dump_exit p (or_reason reason (text "bullishness ended, dumping remainder")))
      else scale_out p fraction (or_reason reason (text "trail_off per_candle scale-out"))

  reconfirmed : OpenPosition F → F → Reason F → List String → Result (Option (ExitSignal F))
  unfolding scale_out
  reconfirmed p fraction reason [] = ok none
  reconfirmed p fraction reason (t ∷ ts) =
      and_then (scale_out p fraction (or_reason reason (Reason.reconfirm (t ∷ ts))))
        λ s. ok (some s)

  unfoldable pub trail_off_candle_pattern :
      OpenPosition F
      → MacdState F
      → List String
      → List String
      → List String
      → F
      → Reason F
      → Result (Option (ExitSignal F))
  unfolding is_bullish_state dump_exit reconfirmed
  trail_off_candle_pattern p macd tags bullish prev fraction reason =
      if not (is_bullish_state macd tags bullish)
      then ok (some (dump_exit p (or_reason reason (text "bullishness ended, dumping remainder"))))
      else reconfirmed p fraction reason (new_hits tags prev bullish)
