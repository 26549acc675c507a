-- ===== src/News/Sentiment.antt =====
-- bot/src/bot/news/sentiment.py. The FinBERT pipeline is a parameter: the labels, in lower case, and
-- scores that it gives a text.
use Prim.Native.String.{◌++◌ as ◌<>◌}
use quick_stock_bot.Prelude.{
  ◌&&◌, String, List, [], ◌∷◌, none, some, map, length, if◌then◌else◌, ◌==◌, Result, Error, ok, err,
}
use quick_stock_bot.Prelude.Texts.{text_take}
use quick_stock_bot.Prelude.Int.{pos}
use quick_stock_bot.Prelude.Dict.{Dict, lookup}
use quick_stock_bot.Num.{Float, lit, ◌⊖◌, ◌⊘◌, ◌<?◌, ◌≤?◌}
use quick_stock_bot.Ta.Helpers.{sum}
use quick_stock_bot.News.State.{Article, SentimentScore, ArticleWithSentiment}

article_text : Article → String
article_text a = if a.summary == "" then a.headline else a.headline <> ". " <> a.summary

module _ {F : Type 0} ⦃num : Float F⦄ where
  -- the score of no text, and of no articles
  unfoldable pub neutral_score : SentimentScore F
  neutral_score = record {
    positive = lit 0 0;
    negative = lit 0 0;
    neutral = lit 1 0;
    score = lit 0 0;
    label = "neutral";
  }

  get_or_zero : String → Dict F → F
  get_or_zero label scores = elim (lookup label scores) [ none ↦ lit 0 0 | some x ↦ x ]

  -- `max(scores, key=scores.get)` keeps the first of equals.
  best_label : String → F → Dict F → String
  best_label label x [] = label
  best_label label x ((l, y) ∷ rest) =
      best_label (if x <? y then l else label) (if x <? y then y else x) rest

  score_of : Dict F → Result (SentimentScore F)
  unfolding get_or_zero best_label
  score_of [] = err Error.value_error
  score_of ((l, x) ∷ rest) =
      let positive = get_or_zero "positive" ((l, x) ∷ rest) in
      let negative = get_or_zero "negative" ((l, x) ∷ rest) in
      ok (record {
        positive = positive;
        negative = negative;
        neutral = get_or_zero "neutral" ((l, x) ∷ rest);
        score = positive ⊖ negative;
        label = best_label l x rest;
      })

  unfoldable pub score_text : (String → Dict F) → String → Result (SentimentScore F)
  unfolding score_of neutral_score text_take
  score_text pipe text =
      if text == "" then ok neutral_score else score_of (pipe (text_take 512 text))

  unfoldable pub score_articles :
      (String → Dict F) → List Article → Result (List (ArticleWithSentiment F))
  unfolding article_text
  score_articles pipe [] = ok []
  score_articles pipe (a ∷ articles) =
      let rest = score_articles pipe articles in
      elim (score_text pipe (article_text a)) [
        | err e ↦ err e
        | ok sentiment ↦ elim rest [
          | err e ↦ err e
          | ok scored ↦ ok (record { article = a; sentiment = sentiment } ∷ scored)
        ]
      ]

  mean_of : (SentimentScore F → F) → List (ArticleWithSentiment F) → F
  mean_of part scored = sum (map (λ a. part a.sentiment) scored) ⊘ num.of_int (pos (length scored))

  label_of : F → F → F → String
  label_of positive negative neutral =
      if (negative ≤? positive) && (neutral ≤? positive)
      then "positive"
      else if (positive ≤? negative) && (neutral ≤? negative)
      then "negative"
      else "neutral"

  unfoldable pub aggregate_sentiment : List (ArticleWithSentiment F) → SentimentScore F
  unfolding mean_of label_of neutral_score
  aggregate_sentiment [] = neutral_score
  aggregate_sentiment (a ∷ rest) =
      let positive = mean_of (λ s. s.positive) (a ∷ rest) in
      let negative = mean_of (λ s. s.negative) (a ∷ rest) in
      let neutral = mean_of (λ s. s.neutral) (a ∷ rest) in
      record {
        positive = positive;
        negative = negative;
        neutral = neutral;
        score = positive ⊖ negative;
        label = label_of positive negative neutral;
      }
