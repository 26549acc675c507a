-- ===== src/News/Aggregator/Distinct.antt =====
-- bot/src/bot/news/aggregator.py: what removing duplicates leaves.
use mathlib.Core.Path.{subst}
use quick_stock_bot.Prelude.{
  Bool, true, false, ◌||◌, String, List, [], ◌∷◌, ◌++◌, ◌≡◌, refl, sym, ap, inl, inr, arith, ◌==◌,
  eq_iff, All, mem, any, Bool-cases, append_assoc,
}
use quick_stock_bot.Num.{Float}
use quick_stock_bot.News.State.{Article}
use quick_stock_bot.News.Aggregator.{Headlines, is_repeated, dedup_from, deduplicate}

module _ {F : Type 0} ⦃num : Float F⦄ (texts : Headlines F) (threshold : F) where
  abbrev pub text_of : Article → String
  text_of a = texts.normalize a.headline

  abbrev pub texts_of : List Article → List String
  texts_of [] = []
  texts_of (a ∷ articles) = text_of a ∷ texts_of articles

  -- each headline has some text, and is not similar to one before it or to one of those seen
  abbrev pub IsFresh : List String → List Article → Type 0
  IsFresh seen [] = Unit
  IsFresh seen (a ∷ articles) =
      ((text_of a == "") ≡ false)
      × (is_repeated texts threshold (text_of a) seen ≡ false)
      × IsFresh (seen ++ (text_of a ∷ [])) articles

  -- the headline has no text, or is one of the texts or similar to one of them
  abbrev pub IsCovered : List String → Article → Type 0
  IsCovered kept a =
      ((text_of a == "") || (mem (text_of a) kept || is_repeated texts threshold (text_of a) kept))
      ≡ true

  dedup_from-IsFresh :
      (seen : List String) (articles : List Article)
      → IsFresh seen (dedup_from texts threshold seen articles)
  unfolding dedup_from
  dedup_from-IsFresh seen [] = tt
  dedup_from-IsFresh seen (a ∷ articles) = elim (Bool-cases (text_of a == "")) [
    | inl empty ↦ rw empty (dedup_from-IsFresh seen articles)
    | inr text ↦ elim (Bool-cases (is_repeated texts threshold (text_of a) seen)) [
      | inl old ↦ rw (text, old) (dedup_from-IsFresh seen articles)
      | inr new ↦ rw (text, new) (text, new, dedup_from-IsFresh (seen ++ (text_of a ∷ [])) articles)
    ]
  ]

  -- fresh articles are all kept
  dedup_from_fresh :
      (seen : List String) (articles : List Article)
      → IsFresh seen articles
      → dedup_from texts threshold seen articles ≡ articles
  unfolding dedup_from
  dedup_from_fresh seen [] h = refl
  dedup_from_fresh seen (a ∷ articles) (text, new, h) =
      rw (text, new)
        (ap (λ (rest : List Article). a ∷ rest)
          (dedup_from_fresh (seen ++ (text_of a ∷ [])) articles h))

  any-append-left :
      (p : String → Bool) (xs ys : List String) → any p xs ≡ true → any p (xs ++ ys) ≡ true
  any-append-left p [] ys h = absurd (ground arith)
  any-append-left p (x ∷ xs) ys h = ground (arith, any-append-left p xs ys)

  any-append-right :
      (p : String → Bool) (xs ys : List String) → any p ys ≡ true → any p (xs ++ ys) ≡ true
  any-append-right p [] ys h = h
  any-append-right p (x ∷ xs) ys h = ground (arith, any-append-right p xs ys)

  IsCovered-before :
      (seen more : List String) (a : Article)
      → is_repeated texts threshold (text_of a) seen ≡ true
      → IsCovered (seen ++ more) a
  unfolding is_repeated
  IsCovered-before seen more a h = ground (arith, any-append-left _ seen more h)

  IsCovered-self :
      (seen more : List String) (a : Article) → IsCovered (seen ++ (text_of a ∷ more)) a
  IsCovered-self seen more a = ground (
    arith,
    any-append-right (λ s. s == text_of a) seen (text_of a ∷ more)
        (ground (arith, eq_iff (text_of a) (text_of a))),
  )

  dedup_from_empty :
      (seen : List String) (a : Article) (articles : List Article)
      → (text_of a == "") ≡ true
      → dedup_from texts threshold seen (a ∷ articles) ≡ dedup_from texts threshold seen articles
  unfolding dedup_from
  dedup_from_empty seen a articles e = rw e

  dedup_from_old :
      (seen : List String) (a : Article) (articles : List Article)
      → (text_of a == "") ≡ false
      → is_repeated texts threshold (text_of a) seen ≡ true
      → dedup_from texts threshold seen (a ∷ articles) ≡ dedup_from texts threshold seen articles
  unfolding dedup_from
  dedup_from_old seen a articles e old = rw (e, old)

  dedup_from_new :
      (seen : List String) (a : Article) (articles : List Article)
      → (text_of a == "") ≡ false
      → is_repeated texts threshold (text_of a) seen ≡ false
      → dedup_from texts threshold seen (a ∷ articles)
        ≡ a ∷ dedup_from texts threshold (seen ++ (text_of a ∷ [])) articles
  unfolding dedup_from
  dedup_from_new seen a articles e new = rw (e, new)

  dedup_from-IsCovered :
      (seen : List String) (articles : List Article)
      → All (IsCovered (seen ++ texts_of (dedup_from texts threshold seen articles))) articles
  dedup_from-IsCovered seen [] = tt
  dedup_from-IsCovered seen (a ∷ articles) = elim (Bool-cases (text_of a == "")) [
    | inl empty ↦
        kept_as (sym (dedup_from_empty seen a articles empty))
          (ground (arith, empty), dedup_from-IsCovered seen articles)
    | inr text ↦ elim (Bool-cases (is_repeated texts threshold (text_of a) seen)) [
      | inl old ↦
          kept_as (sym (dedup_from_old seen a articles text old))
            (IsCovered-before seen _ a old, dedup_from-IsCovered seen articles)
      | inr new ↦ kept_as (sym (dedup_from_new seen a articles text new)) (
        IsCovered-self seen _ a,
        (rw append_assoc at (dedup_from-IsCovered (seen ++ (text_of a ∷ [])) articles)),
      )
    ]
  ]
    where
      kept_as :
          {kept kept' : List Article}
          → kept ≡ kept'
          → All (IsCovered (seen ++ texts_of kept)) (a ∷ articles)
          → All (IsCovered (seen ++ texts_of kept')) (a ∷ articles)
      kept_as e =
          subst (λ (k : List Article). All (IsCovered (seen ++ texts_of k)) (a ∷ articles)) e

  -- Of the articles that are kept, each headline has some text and no two are similar; every headline
  -- that is not kept has no text, or is the same as or similar to one that is; and removing
  -- duplicates again changes nothing.
  pub deduplicate-IsFresh :
      (articles : List Article)
      → let kept = deduplicate texts threshold articles in
        IsFresh [] kept
        × All (IsCovered (texts_of kept)) articles
        × (deduplicate texts threshold kept ≡ kept)
  unfolding deduplicate
  deduplicate-IsFresh articles =
      let fresh = dedup_from-IsFresh [] articles in
      (fresh, dedup_from-IsCovered [] articles, dedup_from_fresh [] _ fresh)
