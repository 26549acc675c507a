-- ===== src/Scanner/Fundamentals/Caching.antt =====
-- bot/src/bot/scanner/fundamentals.py: the float of a symbol is asked for once a day.
use quick_stock_bot.Prelude.{
  String, List, [], ◌∷◌, Option, none, some, ◌≡◌, arith, ◌==◌, eq_iff, Bool-cases, Option-cases,
  inl, inr, ap, sym, ◌∙◌, ◌⊎◌,
}
use quick_stock_bot.Prelude.Int.{ℤ}
use quick_stock_bot.Num.{Float}
use quick_stock_bot.Scanner.Fundamentals.{
  FundamentalsSource, Scanning, find_cached, key_or, lookup_with, get_float_shares,
}

module _ {F W : Type 0} ⦃num : Float F⦄ (source : FundamentalsSource F W) where
  open source use {today}

  -- the lookups of some symbols, one after the other
  abbrev pub look_up_all : List String → Option String → Scanning W → Scanning W
  look_up_all [] api_key s = s
  look_up_all (symbol ∷ symbols) api_key s =
      look_up_all symbols api_key (get_float_shares source symbol api_key s).1

  -- what is in the cache stays there
  lookup_with-keeps :
      (symbol other key : String) (s : Scanning W) {shares : Option ℤ}
      → find_cached symbol today s.cache ≡ some shares
      → find_cached symbol today (lookup_with source other key s).1.cache ≡ some shares
  unfolding lookup_with find_cached
  lookup_with-keeps symbol other key s h = ground (arith, eq_iff other symbol, h)

  -- one lookup: the answer, which a later lookup finds
  get_float_shares-keeps :
      (symbol other : String) (api_key : Option String) (s : Scanning W) {shares : Option ℤ}
      → find_cached symbol today s.cache ≡ some shares
      → find_cached symbol today (get_float_shares source other api_key s).1.cache ≡ some shares
  unfolding get_float_shares
  get_float_shares-keeps symbol other api_key s h =
      elim (Option-cases (key_or api_key source.env_key)) [
        | inl e ↦ rw (e, get_float_shares) h
        | inr (key, e) ↦
            rw (e, get_float_shares)
              (elim (Bool-cases (key == "")) [
                | inl empty ↦ rw empty h
                | inr given ↦ rw given (lookup_with-keeps symbol other key s h)
              ])
      ]

  look_up_all-keeps :
      (symbol : String) (symbols : List String) (api_key : Option String) (s : Scanning W)
      {shares : Option ℤ}
      → find_cached symbol today s.cache ≡ some shares
      → find_cached symbol today (look_up_all symbols api_key s).cache ≡ some shares
  look_up_all-keeps symbol [] api_key s h = h
  look_up_all-keeps symbol (other ∷ symbols) api_key s h =
      look_up_all-keeps symbol symbols api_key (get_float_shares source other api_key s).1
        (get_float_shares-keeps symbol other api_key s h)

  lookup_with-cached :
      (symbol key : String) (s : Scanning W) {shares : Option ℤ}
      → find_cached symbol today s.cache ≡ some shares
      → lookup_with source symbol key s ≡ (shares, s)
  unfolding lookup_with
  lookup_with-cached symbol key s h = rw (h, lookup_with)

  lookup_with-caches :
      (symbol key : String) (s : Scanning W)
      → find_cached symbol today (lookup_with source symbol key s).1.cache
        ≡ some (lookup_with source symbol key s).0
  unfolding lookup_with find_cached
  lookup_with-caches symbol key s = ground (arith, eq_iff symbol symbol, eq_iff today today)

  -- without a key nobody is asked; with one the cache is consulted
  by_key :
      (symbol : String) (api_key : Option String)
      → ((s : Scanning W) → get_float_shares source symbol api_key s ≡ (none, s))
        ⊎ ((key : String) × ((s : Scanning W)
              → get_float_shares source symbol api_key s ≡ lookup_with source symbol key s))
  unfolding get_float_shares
  by_key symbol api_key = elim (Option-cases (key_or api_key source.env_key)) [
    | inl e ↦ inl (λ s. rw (e, get_float_shares))
    | inr (key, e) ↦ elim (Bool-cases (key == "")) [
      | inl empty ↦ inl (λ s. rw (e, get_float_shares) (rw empty))
      | inr given ↦ inr (key, λ s. rw (e, get_float_shares) (rw given))
    ]
  ]

  -- The first answer for a symbol on a day, also when the request failed, is the answer to every later
  -- lookup of that day with the same key, whatever was looked up in between, and the later lookup
  -- asks nobody and changes nothing.
  pub get_float_shares-once :
      (symbol : String) (between : List String) (api_key : Option String) (s : Scanning W)
      → let first = get_float_shares source symbol api_key s in
        let later = look_up_all between api_key first.1 in
        get_float_shares source symbol api_key later ≡ (first.0, later)
  get_float_shares-once symbol between api_key s =
      let first = get_float_shares source symbol api_key s in
      let later = look_up_all between api_key first.1 in
      elim (by_key symbol api_key) [
        | inl nobody ↦
            nobody later ∙ ap (λ (p : Option ℤ × Scanning W). (p.0, later)) (sym (nobody s))
        | inr (key, asks) ↦
            let cached : find_cached symbol today first.1.cache ≡ some first.0 =
              rw (asks s) (lookup_with-caches symbol key s) in
            asks later
            ∙ lookup_with-cached symbol key later
                (look_up_all-keeps symbol between api_key first.1 cached)
      ]
