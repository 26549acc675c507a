-- ===== src/Learning/Features/Order.antt =====
-- bot/src/bot/learning/features.py: the features stand in the order of the vector.
use quick_stock_bot.Prelude.{◌≡◌, refl}
use quick_stock_bot.Prelude.Dict.{keys, values}
use quick_stock_bot.Num.{Float}
use quick_stock_bot.Scanner.State.{TickerState}
use quick_stock_bot.Learning.Features.{feature_order, extract_features, features_to_vector}

module _ {F : Type 0} ⦃num : Float F⦄ where
  -- Every key of the order is extracted, once and at its place, so that the vector of the features of
  -- any symbol lists all the extracted values and none by default.
  pub extract_features-feature_order :
      (state : TickerState F) (sentiment_score time_of_day_frac sizing : F)
      → let d = extract_features state sentiment_score time_of_day_frac sizing in
        (keys d ≡ feature_order) × (features_to_vector d ≡ values d)
  unfolding extract_features features_to_vector
  extract_features-feature_order state sentiment_score time_of_day_frac sizing = (refl, refl)
