-- ===== src/News/State.antt =====
-- bot/src/bot/news/models.py and config.py.
use quick_stock_bot.Prelude.{String, List, Option}
use quick_stock_bot.Prelude.Int.{ℤ}

pub record Article : Type 0 where
  pub symbol : String
  pub headline : String
  pub summary : String
  pub source : String
  pub url : String
  pub published_at : ℤ

pub record SentimentScore (F : Type 0) : Type 0 where
  pub positive : F
  pub negative : F
  pub neutral : F
  pub score : F
  pub label : String

pub record ArticleWithSentiment (F : Type 0) : Type 0 where
  pub article : Article
  pub sentiment : SentimentScore F

pub record TickerSentiment (F : Type 0) : Type 0 where
  pub symbol : String
  pub articles : List (ArticleWithSentiment F)
  pub aggregate : SentimentScore F

pub record NewsConfig : Type 0 where
  pub finnhub_api_key : Option String
  pub newsapi_key : Option String
  pub benzinga_api_key : Option String
  pub finbert_model_path : String
