-- ===== src/News/Aggregator/Filing.antt =====
-- bot/src/bot/news/aggregator.py: articles are filed under their own symbols.
use quick_stock_bot.Prelude.{
  false, String, List, [], ◌∷◌, ◌++◌, Option, none, some, ◌≡◌, refl, sym, ap, ◌∙◌, inl, inr, arith,
  ◌==◌, eq_iff, Bool-cases, Option-cases, filter, append-nil, append_assoc, if◌then◌else◌, mem,
}
use quick_stock_bot.Prelude.Int.{ℤ}
use quick_stock_bot.Prelude.Dict.{Dict, lookup, insert, lookup-insert}
use quick_stock_bot.Num.{Float, lit}
use quick_stock_bot.News.State.{Article}
use quick_stock_bot.News.Aggregator.{
  NewsProvider, Headlines, deduplicate, fetch_all, no_articles, file_article, file_all, collect,
}

-- the articles of one symbol, in their order
abbrev pub about : String → List Article → List Article
about symbol articles = filter (λ a. a.symbol == symbol) articles

-- what an entry should become: the articles of its symbol follow those that it has
more_of : String → List Article → Option (List Article) → Option (List Article)
more_of symbol articles none = none
more_of symbol articles (some old) = some (old ++ about symbol articles)

file_article-none :
    (a : Article) (d : Dict (List Article)) → lookup a.symbol d ≡ none → file_article a d ≡ d
unfolding file_article
file_article-none a d e =
    ap
      (λ (o : Option (List Article)). elim o [
        | none ↦ d
        | some articles ↦ insert a.symbol (articles ++ (a ∷ [])) d
      ])
      e

file_article-some :
    (a : Article) (d : Dict (List Article)) {old : List Article}
    → lookup a.symbol d ≡ some old
    → file_article a d ≡ insert a.symbol (old ++ (a ∷ [])) d
unfolding file_article
file_article-some a d e =
    ap
      (λ (o : Option (List Article)). elim o [
        | none ↦ d
        | some articles ↦ insert a.symbol (articles ++ (a ∷ [])) d
      ])
      e

more_of_other :
    (symbol : String) (a : Article) (o : Option (List Article))
    → (a.symbol == symbol) ≡ false
    → more_of symbol (a ∷ []) o ≡ o
unfolding more_of
more_of_other symbol a none other = refl
more_of_other symbol a (some old) other = ground (arith, other, append-nil old)

more_of_own :
    (symbol : String) (a : Article) (old : List Article)
    → a.symbol ≡ symbol
    → more_of symbol (a ∷ []) (some old) ≡ some (old ++ (a ∷ []))
unfolding more_of
more_of_own symbol a old e = ground (arith, e, eq_iff a.symbol symbol)

lookup-file_article :
    (symbol : String) (a : Article) (d : Dict (List Article))
    → lookup symbol (file_article a d) ≡ more_of symbol (a ∷ []) (lookup symbol d)
lookup-file_article symbol a d = elim (Bool-cases (a.symbol == symbol)) [
  | inl same ↦ own ((eq_iff a.symbol symbol).0 same)
  | inr other ↦ others other ∙ sym (more_of_other symbol a (lookup symbol d) other)
]
  where
    own :
        a.symbol ≡ symbol
        → lookup symbol (file_article a d) ≡ more_of symbol (a ∷ []) (lookup symbol d)
    own k = elim (Option-cases (lookup a.symbol d)) [
      | inl e ↦
          let missing : lookup symbol d ≡ none = rw (← k) e in
          ap (lookup symbol) (file_article-none a d e)
          ∙ missing
          ∙ (unfold more_of in sym (ap (more_of symbol (a ∷ [])) missing))
      | inr (old, e) ↦
          let found : lookup symbol d ≡ some old = rw (← k) e in
          ap (lookup symbol) (file_article-some a d e)
          ∙ lookup-insert a.symbol symbol (old ++ (a ∷ [])) d
          ∙ ground (arith, k, eq_iff a.symbol symbol)
          ∙ sym (ap (more_of symbol (a ∷ [])) found ∙ more_of_own symbol a old k)
    ]

    others : (a.symbol == symbol) ≡ false → lookup symbol (file_article a d) ≡ lookup symbol d
    others other = elim (Option-cases (lookup a.symbol d)) [
      | inl e ↦ ap (lookup symbol) (file_article-none a d e)
      | inr (old, e) ↦
          ap (lookup symbol) (file_article-some a d e)
          ∙ lookup-insert a.symbol symbol (old ++ (a ∷ [])) d
          ∙ ground (arith, other)
    ]

about-append :
    (symbol : String) (xs ys : List Article)
    → about symbol (xs ++ ys) ≡ about symbol xs ++ about symbol ys
about-append symbol [] ys = refl
about-append symbol (x ∷ xs) ys = ground (arith, about-append symbol xs ys)

more_of-nil : (symbol : String) (o : Option (List Article)) → more_of symbol [] o ≡ o
unfolding more_of
more_of-nil symbol none = refl
more_of-nil symbol (some old) = ap some (append-nil old)

more_of-more_of :
    (symbol : String) (xs ys : List Article) (o : Option (List Article))
    → more_of symbol ys (more_of symbol xs o) ≡ more_of symbol (xs ++ ys) o
unfolding more_of
more_of-more_of symbol xs ys none = refl
more_of-more_of symbol xs ys (some old) =
    ground (arith, about-append symbol xs ys, append_assoc old (about symbol xs) (about symbol ys))

lookup-file_all :
    (symbol : String) (articles : List Article) (d : Dict (List Article))
    → lookup symbol (file_all articles d) ≡ more_of symbol articles (lookup symbol d)
unfolding file_all
lookup-file_all symbol [] d = sym (more_of-nil symbol (lookup symbol d))
lookup-file_all symbol (a ∷ articles) d =
    lookup-file_all symbol articles (file_article a d)
    ∙ ap (more_of symbol articles) (lookup-file_article symbol a d)
    ∙ more_of-more_of symbol (a ∷ []) articles (lookup symbol d)

lookup-no_articles :
    (symbol : String) (symbols : List String) (d : Dict (List Article))
    → lookup symbol (no_articles symbols d)
      ≡ (if mem symbol symbols then some [] else lookup symbol d)
unfolding no_articles
lookup-no_articles symbol [] d = refl
lookup-no_articles symbol (s ∷ symbols) d =
    ground (arith, lookup-no_articles symbol symbols (insert s [] d), lookup-insert s symbol [] d)

module _ {F W : Type 0} ⦃num : Float F⦄ (texts : Headlines F) where
  -- Whatever the providers answer or raise, `collect` returns; under each symbol asked for stand those of
  -- the articles without duplicates that are about it, in their order, and no other symbol has an
  -- entry.
  pub collect-about :
      (providers : List (NewsProvider W)) (symbols : List String) (since : ℤ) (w : W)
      (symbol : String)
      → lookup symbol (collect texts providers symbols since w).0 ≡ (
          if mem symbol symbols
          then some
              (about symbol (deduplicate texts (lit 85 2) (fetch_all providers symbols since w).0))
          else none)
  unfolding collect more_of
  collect-about providers symbols since w symbol =
      let kept = deduplicate texts (lit 85 2) (fetch_all providers symbols since w).0 in
      ground (
        arith,
        lookup-file_all symbol kept (no_articles symbols []),
        lookup-no_articles symbol symbols [],
      )
