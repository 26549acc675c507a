-- ===== src/Engine/Session/Exits/Choice.antt =====
-- bot/src/bot/engine/session.py, `_process_exits`: choosing what to sell raises nothing.
use quick_stock_bot.Prelude.{
  ◌&&◌, ◌||◌, not, String, List, none, Result, Returns, Returns-and_then, Returns-if, ◌≢◌,
}
use quick_stock_bot.Num.{Float, lit, ◌⊗◌, ◌≤?◌}
use quick_stock_bot.Models.{Bar}
use quick_stock_bot.Ta.Config.{TaConfig}
use quick_stock_bot.Ta.State.{MacdState}
use quick_stock_bot.Ta.Macd.{classify_macd}
use quick_stock_bot.Ta.Macd.Answers.{IsPeriods, classify_macd_answers}
use quick_stock_bot.Engine.Config.{ExecutionConfig, ExitMode, TrailTrigger}
use quick_stock_bot.Engine.Messages.{Reason}
use quick_stock_bot.Engine.Exits.{ExitSignal, has_reversal, check_take_profit, check_trailing_stop}
use quick_stock_bot.Engine.Exits.Laws.{
  trail_off_per_candle-Returns, trail_off_candle_pattern-Returns,
}
use quick_stock_bot.Engine.Session.State.{TradeRecord}
use quick_stock_bot.Engine.Session.Exits.{
  trail, as_some, on_take_profit, on_reversal, otherwise, choose_signal,
}

module _ (F : Type 0) ⦃num : Float F⦄ where
  pub classify_macd-Returns :
      (bars : List Bar) (config : TaConfig)
      → IsPeriods config
      → Returns (classify_macd {F = F} bars config)
  classify_macd-Returns bars config periods =
      let (state, e) = classify_macd_answers {F = F} bars config periods in rw e tt

module _ {F : Type 0} ⦃num : Float F⦄ where
  module _ (cfg : ExecutionConfig F) (trade : TradeRecord F)
      (finite : num.floor
          (num.of_int trade.position.remaining_shares ⊗ cfg.trail_off_fraction_per_candle)
        ≢ none) where
    as_some-Returns : (r : Result (ExitSignal F)) → Returns r → Returns (as_some r)
    as_some-Returns r h = Returns-and_then r _ h λ s e. tt

    trail-Returns :
        (trigger : TrailTrigger) (macd : MacdState F) (tags bullish : List String)
        (candle_reason pattern_reason : Reason F)
        → Returns (trail cfg trigger trade macd tags bullish candle_reason pattern_reason)
    unfolding trail
    trail-Returns TrailTrigger.per_candle macd tags bullish candle_reason pattern_reason =
        as_some-Returns _ (trail_off_per_candle-Returns _ macd tags bullish _ _ finite)
    trail-Returns TrailTrigger.candle_pattern macd tags bullish candle_reason pattern_reason =
        trail_off_candle_pattern-Returns _ macd tags bullish _ _ _ finite

    on_take_profit-Returns :
        (mode : ExitMode) (macd : MacdState F) (tags bullish : List String)
        → Returns (on_take_profit mode cfg trade macd tags bullish)
    unfolding on_take_profit
    on_take_profit-Returns ExitMode.dump macd tags bullish = tt
    on_take_profit-Returns ExitMode.trail_off macd tags bullish =
        trail-Returns cfg.trail_off_trigger macd tags bullish _ _

    on_reversal-Returns :
        (mode : ExitMode) (macd : MacdState F) (tags bullish : List String)
        → Returns (on_reversal mode cfg trade macd tags bullish)
    unfolding on_reversal
    on_reversal-Returns ExitMode.dump macd tags bullish = tt
    on_reversal-Returns ExitMode.trail_off macd tags bullish =
        as_some-Returns _ (trail_off_per_candle-Returns _ macd tags bullish _ _ finite)

    otherwise-Returns :
        (mode : ExitMode) (macd : MacdState F) (tags bullish : List String)
        → Returns (otherwise mode cfg trade macd tags bullish)
    unfolding otherwise
    otherwise-Returns ExitMode.dump macd tags bullish = tt
    otherwise-Returns ExitMode.trail_off macd tags bullish =
        trail-Returns cfg.trail_off_trigger macd tags bullish _ _

    pub choose_signal-Returns :
        (price : F) (macd : MacdState F) (tags bullish : List String)
        → Returns (choose_signal cfg trade price macd tags bullish)
    unfolding choose_signal
    choose_signal-Returns price macd tags bullish =
        Returns-if
          (cfg.trailing_stop && check_trailing_stop trade.position price cfg.trailing_stop_pct) _ _
          tt
          (Returns-if (check_take_profit trade.position price cfg.take_profit_pct) _ _
            (on_take_profit-Returns cfg.exit_mode macd tags bullish)
            (Returns-if (has_reversal tags || not macd.eligible || (macd.slope ≤? lit 0 0)) _ _
              (on_reversal-Returns cfg.exit_mode macd tags bullish)
              (otherwise-Returns cfg.exit_mode macd tags bullish)))
