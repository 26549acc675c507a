-- ===== src/News/Aggregator.antt =====
-- bot/src/bot/news/aggregator.py. The ratio of `difflib.SequenceMatcher` and the removal of
-- punctuation are parameters.
pub mod Distinct
pub mod Filing
use quick_stock_bot.Prelude.{
  Bool, String, List, [], ◌∷◌, ◌++◌, Option, none, some, Result, ok, err, ◌==◌, any, if◌then◌else◌,
}
use quick_stock_bot.Prelude.Int.{ℤ}
use quick_stock_bot.Prelude.Dict.{Dict, lookup, insert}
use quick_stock_bot.Prelude.Action.{Action}
use quick_stock_bot.Num.{Float, lit, ◌≤?◌}
use quick_stock_bot.News.State.{Article}

-- a `NewsProvider`; a request may change the world, and may raise
pub record NewsProvider (W : Type 0) : Type 0 where
  pub name : String
  pub fetch : List String → ℤ → Action W (List Article)

-- `_normalize`, and `_similarity` of normalized texts
pub record Headlines (F : Type 0) : Type 0 where
  pub normalize : String → String
  pub similarity : String → String → F

module _ {F : Type 0} ⦃num : Float F⦄ (texts : Headlines F) where
  open texts use {normalize, similarity}

  -- the test of one article against those seen
  unfoldable pub is_repeated : F → String → List String → Bool
  is_repeated threshold norm seen = any (λ s. threshold ≤? similarity norm s) seen

  -- the loop, with the texts seen so far
  pub dedup_from : F → List String → List Article → List Article
  unfolding is_repeated
  dedup_from threshold seen [] = []
  dedup_from threshold seen (article ∷ articles) =
      let norm = normalize article.headline in
      let skipped = dedup_from threshold seen articles in
      let taken = article ∷ dedup_from threshold (seen ++ (norm ∷ [])) articles in
      if norm == "" then skipped else if is_repeated threshold norm seen then skipped else taken

  unfoldable pub deduplicate : F → List Article → List Article
  deduplicate threshold articles = dedup_from threshold [] articles

-- the first loop of `collect`: what the providers that do not raise answer, in their order
pub fetch_all : {W : Type 0} → List (NewsProvider W) → List String → ℤ → W → List Article × W
fetch_all [] symbols since w = ([], w)
fetch_all (provider ∷ rest) symbols since w =
    let (reply, w') = provider.fetch symbols since w in
    let (articles, w'') = fetch_all rest symbols since w' in
    elim reply [ ok fetched ↦ (fetched ++ articles, w'') | err e ↦ (articles, w'') ]

-- `{s: [] for s in symbols}`
no_articles : List String → Dict (List Article) → Dict (List Article)
no_articles [] d = d
no_articles (s ∷ symbols) d = no_articles symbols (insert s [] d)

-- one round of the last loop
unfoldable pub file_article : Article → Dict (List Article) → Dict (List Article)
file_article article d = elim (lookup article.symbol d) [
  | none ↦ d
  | some articles ↦ insert article.symbol (articles ++ (article ∷ [])) d
]

file_all : List Article → Dict (List Article) → Dict (List Article)
unfolding file_article
file_all [] d = d
file_all (article ∷ articles) d = file_all articles (file_article article d)

module _ {F W : Type 0} ⦃num : Float F⦄ (texts : Headlines F) where
  unfoldable pub collect : List (NewsProvider W) → List String → ℤ → W → Dict (List Article) × W
  unfolding fetch_all no_articles file_all deduplicate
  collect providers symbols since w =
      let (all_articles, w') = fetch_all providers symbols since w in
      (file_all (deduplicate texts (lit 85 2) all_articles) (no_articles symbols []), w')
