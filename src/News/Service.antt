-- ===== src/News/Service.antt =====
-- bot/src/bot/news/service.py. The providers are parameters, of which Alpaca's needs no key.
use quick_stock_bot.Prelude.{
  String, List, [], ◌∷◌, ◌++◌, Option, none, some, Result, Error, ok, err, ◌==◌, if◌then◌else◌,
}
use quick_stock_bot.Prelude.Int.{ℤ}
use quick_stock_bot.Prelude.Dict.{Dict}
use quick_stock_bot.Prelude.Action.{Action, lift, ◌>>=◌}
use quick_stock_bot.Num.{Float}
use quick_stock_bot.News.State.{Article, TickerSentiment, NewsConfig}
use quick_stock_bot.News.Aggregator.{NewsProvider, Headlines, collect}
use quick_stock_bot.News.Sentiment.{score_articles, aggregate_sentiment}

-- the constructors of the providers, and the loading of the model of a path
pub record NewsSources (F W : Type 0) : Type 0 where
  pub alpaca_provider : Option (NewsProvider W)
  pub finnhub_provider : String → NewsProvider W
  pub newsapi_provider : String → NewsProvider W
  pub benzinga_provider : String → NewsProvider W
  pub pipeline : String → String → Dict F
  pub headlines : Headlines F

with_key : {W : Type 0} → (String → NewsProvider W) → Option String → List (NewsProvider W)
with_key make none = []
with_key make (some key) = if key == "" then [] else make key ∷ []

as_list : {A : Type 0} → Option A → List A
as_list none = []
as_list (some a) = a ∷ []

module _ {F W : Type 0} ⦃num : Float F⦄ (sources : NewsSources F W) where
  open sources use {
    alpaca_provider, finnhub_provider, newsapi_provider, benzinga_provider, pipeline, headlines,
  }

  some_of : List (NewsProvider W) → Result (List (NewsProvider W))
  some_of [] = err Error.runtime
  some_of (p ∷ ps) = ok (p ∷ ps)

  unfoldable pub build_providers : NewsConfig → Result (List (NewsProvider W))
  unfolding with_key as_list some_of
  build_providers config = some_of (
      as_list alpaca_provider
      ++ (with_key finnhub_provider config.finnhub_api_key
          ++ (with_key newsapi_provider config.newsapi_key
              ++ with_key benzinga_provider config.benzinga_api_key)))

  sentiments : NewsConfig → Dict (List Article) → Result (List (TickerSentiment F))
  sentiments config [] = ok []
  sentiments config ((symbol, articles) ∷ rest) =
      let others = sentiments config rest in
      elim (score_articles (pipeline config.finbert_model_path) articles) [
        | err e ↦ err e
        | ok scored ↦ elim others [
          | err e ↦ err e
          | ok results ↦ ok (
              record { symbol = symbol; articles = scored; aggregate = aggregate_sentiment scored }
              ∷ results)
        ]
      ]

  unfoldable pub get_news_with_sentiment :
      List String → ℤ → NewsConfig → Action W (List (TickerSentiment F))
  unfolding build_providers sentiments
  get_news_with_sentiment symbols since config = do
    providers ← lift (build_providers config)
    by_symbol ← (λ w. let (d, w') = collect headlines providers symbols since w in (ok d, w'))
    lift (sentiments config by_symbol)
