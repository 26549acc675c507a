-- ===== src/Engine/Exits/Laws.antt =====
-- A scale-out sells at least one share and never more than are left, so it ends.
use mathlib.Core.List.{foldl}
use quick_stock_bot.Prelude.{
  ℕ, suc, ◌≤◌, true, String, List, [], ◌∷◌, some, none, Result, ok, err, Returns, and_then,
  Returns-and_then, Returns-or_raise, ◌≡◌, ◌≢◌, ◌↔◌, refl, arith, length, Bool-cases, inl, inr, ◌∙◌,
  ap, if◌then◌else◌,
}
use quick_stock_bot.Prelude.Int.{ℤ, pos, ◌≤ℤ◌, ◌-ℤ◌, pos_part}
use quick_stock_bot.Num.{Float, ◌⊗◌, max_f}
use quick_stock_bot.Ta.State.{MacdState}
use quick_stock_bot.Engine.Messages.{Reason}
use quick_stock_bot.Engine.Exits.{
  OpenPosition, ExitSignal, is_closed, update_high_water_mark, scale_out, trail_off_per_candle,
  trail_off_candle_pattern, new_hits, reconfirmed, is_bullish_state, fraction_of,
}

-- what a signal may ask of a position that is open
pub record IsSound {F : Type 0} (p : OpenPosition F) (s : ExitSignal F) : Type 0 where
  pub some_shares : pos 1 ≤ℤ s.shares_to_sell
  pub held_shares : s.shares_to_sell ≤ℤ p.remaining_shares
  pub final_iff : (s.is_final ≡ true) ↔ (s.shares_to_sell ≡ p.remaining_shares)

module _ {F : Type 0} ⦃num : Float F⦄ where
  scale_out-IsSound :
      (p : OpenPosition F) (fraction : F) (reason : Reason F) {s : ExitSignal F}
      → pos 1 ≤ℤ p.remaining_shares
      → scale_out p fraction reason ≡ ok s
      → IsSound p s
  unfolding scale_out
  scale_out-IsSound p fraction reason held h = record {
    some_shares = ground arith;
    held_shares = ground arith;
    final_iff = (ground arith, ground arith);
  }

  -- Whatever the candle shows, a per-candle exit from an open position sells between one share and
  -- all that are left, and is final exactly when it sells all.
  pub trail_off_per_candle-IsSound :
      (p : OpenPosition F) (macd : MacdState F) (tags bullish : List String) (fraction : F)
      (reason : Reason F) {s : ExitSignal F}
      → pos 1 ≤ℤ p.remaining_shares
      → trail_off_per_candle p macd tags bullish fraction reason ≡ ok s
      → IsSound p s
  unfolding trail_off_per_candle
  trail_off_per_candle-IsSound p macd tags bullish fraction reason held h = record {
    some_shares = ground arith;
    held_shares = ground arith;
    final_iff = (ground arith, ground arith);
  }

  reconfirmed-IsSound :
      (p : OpenPosition F) (fraction : F) (reason : Reason F) (hits : List String)
      {s : ExitSignal F}
      → pos 1 ≤ℤ p.remaining_shares
      → reconfirmed p fraction reason hits ≡ ok (some s)
      → IsSound p s
  unfolding reconfirmed
  reconfirmed-IsSound p fraction reason [] held h = absurd (ground arith)
  reconfirmed-IsSound p fraction reason (t ∷ ts) held h = record {
    some_shares = ground arith;
    held_shares = ground arith;
    final_iff = (ground arith, ground arith);
  }

  -- The same of an exit on a reconfirmed pattern, when there is one.
  pub trail_off_candle_pattern-IsSound :
      (p : OpenPosition F) (macd : MacdState F) (tags bullish prev : List String) (fraction : F)
      (reason : Reason F) {s : ExitSignal F}
      → pos 1 ≤ℤ p.remaining_shares
      → trail_off_candle_pattern p macd tags bullish prev fraction reason ≡ ok (some s)
      → IsSound p s
  unfolding trail_off_candle_pattern
  trail_off_candle_pattern-IsSound p macd tags bullish prev fraction reason held h =
      elim (Bool-cases (is_bullish_state macd tags bullish)) [
        | inl up ↦
            reconfirmed-IsSound p fraction reason (new_hits tags prev bullish) held (rw up at h)
        | inr down ↦ record {
          some_shares = ground arith;
          held_shares = ground arith;
          final_iff = (ground arith, ground arith);
        }
      ]

  reconfirmed-none :
      (p : OpenPosition F) (fraction : F) (reason : Reason F) (hits : List String)
      → reconfirmed p fraction reason hits ≡ ok none
      → hits ≡ []
  unfolding reconfirmed
  reconfirmed-none p fraction reason [] h = refl
  reconfirmed-none p fraction reason (t ∷ ts) h = absurd (ground arith)

  -- That exit holds everything back exactly when the state is bullish and no enabled pattern has
  -- appeared since the last candle.
  pub trail_off_candle_pattern_holds :
      (p : OpenPosition F) (macd : MacdState F) (tags bullish prev : List String) (fraction : F)
      (reason : Reason F)
      → (trail_off_candle_pattern p macd tags bullish prev fraction reason ≡ ok none)
        ↔ ((is_bullish_state macd tags bullish ≡ true) × (new_hits tags prev bullish ≡ []))
  unfolding trail_off_candle_pattern
  trail_off_candle_pattern_holds p macd tags bullish prev fraction reason = (
    λ h. elim (Bool-cases (is_bullish_state macd tags bullish)) [
      | inl up ↦ (up, reconfirmed-none p fraction reason _ (rw up at h))
      | inr down ↦ absurd (ground arith)
    ],
    λ (up, none_new). rw (up, none_new),
  )

  -- A position after the shares of a signal are sold.
  abbrev sell : OpenPosition F → ExitSignal F → OpenPosition F
  sell p s = record p { remaining_shares = p.remaining_shares -ℤ s.shares_to_sell }

  -- Per-candle exits, candle after candle, until the position is closed.
  unfoldable pub run_off :
      List (MacdState F × List String)
      → List String
      → F
      → Reason F
      → OpenPosition F
      → Result (OpenPosition F)
  run_off [] bullish fraction reason p = ok p
  run_off ((macd, tags) ∷ candles) bullish fraction reason p =
      if is_closed p
      then ok p
      else and_then (trail_off_per_candle p macd tags bullish fraction reason)
          λ s. run_off candles bullish fraction reason (sell p s)

  abbrev pub IsRunOff : Result (OpenPosition F) → Type 0
  IsRunOff (ok p) = is_closed p ≡ true
  IsRunOff (err _) = ⊥

  pub trail_off_per_candle-Returns :
      (p : OpenPosition F) (macd : MacdState F) (tags bullish : List String) (fraction : F)
      (reason : Reason F)
      → num.floor (num.of_int p.remaining_shares ⊗ fraction) ≢ none
      → Returns (trail_off_per_candle p macd tags bullish fraction reason)
  unfolding trail_off_per_candle
  trail_off_per_candle-Returns p macd tags bullish fraction reason finite =
      elim (Bool-cases (is_bullish_state macd tags bullish)) [
        | inl up ↦ rw up (
            Returns-and_then _ _ (Returns-and_then _ _ (Returns-or_raise _ _ finite) λ n en. tt)
              λ n en. tt)
        | inr down ↦ rw down tt
      ]

  reconfirmed-Returns :
      (p : OpenPosition F) (fraction : F) (reason : Reason F) (hits : List String)
      → num.floor (num.of_int p.remaining_shares ⊗ fraction) ≢ none
      → Returns (reconfirmed p fraction reason hits)
  unfolding reconfirmed scale_out fraction_of
  reconfirmed-Returns p fraction reason [] finite = tt
  reconfirmed-Returns p fraction reason (t ∷ ts) finite =
      Returns-and_then _ _
        (Returns-and_then _ _ (Returns-and_then _ _ (Returns-or_raise _ _ finite) λ n en. tt)
          λ n en. tt)
        λ s es. tt

  pub trail_off_candle_pattern-Returns :
      (p : OpenPosition F) (macd : MacdState F) (tags bullish prev : List String) (fraction : F)
      (reason : Reason F)
      → num.floor (num.of_int p.remaining_shares ⊗ fraction) ≢ none
      → Returns (trail_off_candle_pattern p macd tags bullish prev fraction reason)
  unfolding trail_off_candle_pattern
  trail_off_candle_pattern-Returns p macd tags bullish prev fraction reason finite =
      elim (Bool-cases (is_bullish_state macd tags bullish)) [
        | inl up ↦ rw up (reconfirmed-Returns p fraction reason (new_hits tags prev bullish) finite)
        | inr down ↦ rw down tt
      ]

  IsRunOff-and_then :
      (m : Result (ExitSignal F)) (f : ExitSignal F → Result (OpenPosition F))
      → Returns m
      → ((s : ExitSignal F) → m ≡ ok s → IsRunOff (f s))
      → IsRunOff (and_then m f)
  IsRunOff-and_then (ok s) f h k = k s refl
  IsRunOff-and_then (err e) f h k = h

  sell_shrinks :
      {p : OpenPosition F} {s : ExitSignal F} (k : ℕ)
      → IsSound p s
      → pos_part p.remaining_shares ≤ suc k
      → pos_part (p.remaining_shares -ℤ s.shares_to_sell) ≤ k
  unfolding ◌-ℤ◌
  sell_shrinks k sound h = ground (arith, sound.some_shares, sound.held_shares)

  -- what is left after a sale is no more than before
  sold_within :
      {p : OpenPosition F} {s : ExitSignal F} (k : ℤ)
      → IsSound p s
      → k ≤ℤ p.remaining_shares -ℤ s.shares_to_sell
      → k ≤ℤ p.remaining_shares
  unfolding ◌-ℤ◌
  sold_within k sound h = ground (arith, sound.some_shares, sound.held_shares)

  -- Under per-candle exits a position of n shares is closed after n candles at the latest, whatever
  -- they show, if the fraction of k shares has a finite floor for each k from 1 to n.
  pub run_off-IsRunOff :
      (candles : List (MacdState F × List String)) (bullish : List String) (fraction : F)
      (reason : Reason F) (p : OpenPosition F)
      → ((k : ℤ)
          → pos 1 ≤ℤ k
          → k ≤ℤ p.remaining_shares
          → num.floor (num.of_int k ⊗ fraction) ≢ none)
      → pos_part p.remaining_shares ≤ length candles
      → IsRunOff (run_off candles bullish fraction reason p)
  unfolding run_off
  run_off-IsRunOff [] bullish fraction reason p finite h = ground arith
  run_off-IsRunOff ((macd, tags) ∷ candles) bullish fraction reason p finite h =
      elim (Bool-cases (is_closed p)) [
        | inl shut ↦ rw shut shut
        | inr held ↦ rw held (
            IsRunOff-and_then _ _
              (trail_off_per_candle-Returns p macd tags bullish fraction reason
                (finite p.remaining_shares (ground arith) (ground arith)))
              λ s e.
                let sound =
                  trail_off_per_candle-IsSound p macd tags bullish fraction reason (ground arith)
                    e in
                run_off-IsRunOff candles bullish fraction reason (sell p s)
                  (λ k some_left k_left. finite k some_left (sold_within k sound k_left))
                  (sell_shrinks (length candles) sound h))
      ]

  update_high_water_mark-eq-max :
      (p : OpenPosition F) (x : F)
      → update_high_water_mark p x ≡ record p { high_water_mark = max_f p.high_water_mark x }
  unfolding update_high_water_mark
  update_high_water_mark-eq-max p x = ground arith

  -- The high-water mark after a sequence of prices is the maximum of all and the first mark; no
  -- other field of the position moves.
  pub high_water_tracks_peak :
      (prices : List F) (p : OpenPosition F)
      → foldl update_high_water_mark p prices
        ≡ record p { high_water_mark = foldl max_f p.high_water_mark prices }
  high_water_tracks_peak [] p = refl
  high_water_tracks_peak (x ∷ prices) p =
      high_water_tracks_peak prices (update_high_water_mark p x)
      ∙ ap
          (λ (q : OpenPosition F). record q {
            high_water_mark = foldl max_f q.high_water_mark prices;
          })
          (update_high_water_mark-eq-max p x)
