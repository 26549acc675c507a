-- ===== src/Scanner/Active/Selection.antt =====
-- bot/src/bot/scanner/scanner.py: the active set is made of the highest candidates and the whitelist.
use mathlib.Core.List.{Perm}
use mathlib.Core.List.Perm
use quick_stock_bot.Prelude.{
  ℕ, zero, suc, ◌≤◌, true, String, List, [], ◌∷◌, ◌++◌, Option, ◌≡◌, refl, ap, ◌∙◌, ◌⊎◌, inl, inr,
  arith, All, mem, take, drop, length, length-take-le, eq_iff, Bool-cases, append_assoc, append-nil,
}
use quick_stock_bot.Num.{Float, IsOrdered, IsNumber, ◌≼◌, ◌<?◌}
use quick_stock_bot.Scanner.Config.{ScannerConfig}
use quick_stock_bot.Scanner.State.{TickerState}
use quick_stock_bot.Scanner.Active.{
  insert_ranked, rank, eligible, symbols_of, add_whitelist, build_active_set,
}

-- every whitelisted symbol is there, and what follows `top` is whitelisted
record IsAdded (whitelist top result : List String) : Type 0 where
  extra : List String
  split : result ≡ top ++ extra
  listed : All (λ s. mem s whitelist ≡ true) extra
  complete : All (λ s. mem s result ≡ true) whitelist

mem-append-left : (s : String) (xs ys : List String) → mem s xs ≡ true → mem s (xs ++ ys) ≡ true
mem-append-left s [] ys h = absurd (ground arith)
mem-append-left s (x ∷ xs) ys h = ground (arith, mem-append-left s xs ys)

mem-snoc : (s : String) (xs : List String) → mem s (xs ++ (s ∷ [])) ≡ true
mem-snoc s [] = ground (arith, eq_iff s s)
mem-snoc s (x ∷ xs) = ground (arith, mem-snoc s xs)

All-mem-cons :
    (w : String) (whitelist xs : List String)
    → All (λ s. mem s whitelist ≡ true) xs
    → All (λ s. mem s (w ∷ whitelist) ≡ true) xs
All-mem-cons w whitelist [] h = tt
All-mem-cons w whitelist (x ∷ xs) (m, h) = (ground arith, All-mem-cons w whitelist xs h)

add_whitelist-IsAdded :
    (whitelist top : List String) → IsAdded whitelist top (add_whitelist whitelist top)
unfolding add_whitelist
add_whitelist-IsAdded [] top = record {
  extra = [];
  split = rw append-nil;
  listed = tt;
  complete = tt;
}
add_whitelist-IsAdded (w ∷ whitelist) top = elim (Bool-cases (mem w top)) [
  | inl old ↦ rw old (
      let rest = add_whitelist-IsAdded whitelist top in
      record {
        extra = rest.extra;
        split = rest.split;
        listed = All-mem-cons w whitelist rest.extra rest.listed;
        complete = (rw rest.split (mem-append-left w top rest.extra old), rest.complete);
      })
  | inr new ↦ rw new (
      let rest = add_whitelist-IsAdded whitelist (top ++ (w ∷ [])) in
      record {
        extra = w ∷ rest.extra;
        split = rest.split ∙ append_assoc top (w ∷ []) rest.extra;
        listed = (ground (arith, eq_iff w w), All-mem-cons w whitelist rest.extra rest.listed);
        complete = (
          rw rest.split (mem-append-left w (top ++ (w ∷ [])) rest.extra (mem-snoc w top)),
          rest.complete,
        );
      })
]

module _ {F : Type 0} ⦃num : Float F⦄ where
  insert_ranked-perm :
      (s : TickerState F) (ts : List (TickerState F)) → Perm (insert_ranked s ts) (s ∷ ts)
  unfolding insert_ranked
  insert_ranked-perm s [] = Perm.refl _
  insert_ranked-perm s (t ∷ ts) = elim (Bool-cases (s.pct_change <? t.pct_change)) [
    | inl below ↦ rw below (Perm.trans (Perm.cons t (insert_ranked-perm s ts)) (Perm.swap s t ts))
    | inr other ↦ rw other (Perm.refl _)
  ]

  rank-perm : (ss : List (TickerState F)) → Perm (rank ss) ss
  unfolding rank
  rank-perm [] = Perm.refl _
  rank-perm (s ∷ ss) = Perm.trans (insert_ranked-perm s (rank ss)) (Perm.cons s (rank-perm ss))

  IsRanked : List (TickerState F) → Type 0
  IsRanked [] = Unit
  IsRanked (s ∷ ss) = All (λ t. t.pct_change ≼ s.pct_change) ss × IsRanked ss

  abbrev pub IsNumbered : List (TickerState F) → Type 0
  IsNumbered = All (λ s. IsNumber s.pct_change)

-- the active symbols for `n` slots: a highest part of the pool, and the whitelist
pub record IsSelection {F : Type 0} ⦃num : Float F⦄ (n : ℕ) (whitelist : List String)
    (pool : List (TickerState F)) (active : List String) : Type 0 where
  pub top : List (TickerState F)
  pub left : List (TickerState F)
  pub extra : List String
  pub parts : Perm (top ++ left) pool
  pub within : length top ≤ n
  pub filled : (left ≡ []) ⊎ (length top ≡ n)
  pub highest : All (λ s. All (λ t. t.pct_change ≼ s.pct_change) left) top
  pub symbols : active ≡ symbols_of top ++ extra
  pub listed : All (λ s. mem s whitelist ≡ true) extra
  pub complete : All (λ s. mem s active ≡ true) whitelist

take-append-drop {ℓ} : {A : Type ℓ} (n : ℕ) (xs : List A) → take n xs ++ drop n xs ≡ xs
take-append-drop zero xs = refl
take-append-drop (suc n) [] = refl
take-append-drop (suc n) (x ∷ xs) = ap (λ ys. x ∷ ys) (take-append-drop n xs)

take_filled {ℓ} : {A : Type ℓ} (n : ℕ) (xs : List A) → (drop n xs ≡ []) ⊎ (length (take n xs) ≡ n)
take_filled zero xs = inr refl
take_filled (suc n) [] = inl refl
take_filled (suc n) (x ∷ xs) = elim (take_filled n xs) [ inl e ↦ inl e | inr e ↦ inr (omega arith) ]

All-drop {ℓ κ} : {A : Type ℓ} (P : A → Type κ) (n : ℕ) (xs : List A) → All P xs → All P (drop n xs)
All-drop P zero xs h = h
All-drop P (suc n) [] h = h
All-drop P (suc n) (x ∷ xs) h = All-drop P n xs h.1

module _ {F : Type 0} ⦃num : Float F⦄ (laws : IsOrdered F) where
  All-insert_ranked :
      (P : TickerState F → Type 0) (s : TickerState F) (ts : List (TickerState F))
      → P s
      → All P ts
      → All P (insert_ranked s ts)
  unfolding insert_ranked
  All-insert_ranked P s [] p h = (p, tt)
  All-insert_ranked P s (t ∷ ts) p (q, h) = elim (Bool-cases (s.pct_change <? t.pct_change)) [
    | inl below ↦ rw below (q, All-insert_ranked P s ts p h)
    | inr other ↦ rw other (p, (q, h))
  ]

  All-le_trans :
      (s t : TickerState F) (ts : List (TickerState F))
      → t.pct_change ≼ s.pct_change
      → All (λ u. u.pct_change ≼ t.pct_change) ts
      → All (λ u. u.pct_change ≼ s.pct_change) ts
  All-le_trans s t [] le h = tt
  All-le_trans s t (u ∷ ts) le (q, h) = (laws.le_trans _ _ _ q le, All-le_trans s t ts le h)

  insert_ranked-IsRanked :
      (s : TickerState F) (ts : List (TickerState F))
      → IsNumber s.pct_change
      → IsNumbered ts
      → IsRanked ts
      → IsRanked (insert_ranked s ts)
  unfolding insert_ranked IsRanked
  insert_ranked-IsRanked s [] ns nts r = (tt, tt)
  insert_ranked-IsRanked s (t ∷ ts) ns (nt, nts) (above, r) =
      elim (Bool-cases (s.pct_change <? t.pct_change)) [
        | inl below ↦ rw below (
          All-insert_ranked (λ u. u.pct_change ≼ t.pct_change) s ts (laws.le_of_lt _ _ below) above,
          insert_ranked-IsRanked s ts ns nts r,
        )
        | inr other ↦ rw other (
            let le : t.pct_change ≼ s.pct_change =
              ground (arith, laws.lt_of_not_le t.pct_change s.pct_change nt ns) in
            ((le, All-le_trans s t ts le above), (above, r)))
      ]

  rank-IsRanked :
      (ss : List (TickerState F)) → IsNumbered ss → IsRanked (rank ss) × IsNumbered (rank ss)
  unfolding rank IsRanked
  rank-IsRanked [] h = (tt, tt)
  rank-IsRanked (s ∷ ss) (n, h) =
      let (ranked, numbered) = rank-IsRanked ss h in
      (
        insert_ranked-IsRanked s (rank ss) n numbered ranked,
        All-insert_ranked (λ u. IsNumber u.pct_change) s (rank ss) n numbered,
      )

  take_highest :
      (n : ℕ) (ss : List (TickerState F))
      → IsRanked ss
      → All (λ s. All (λ t. t.pct_change ≼ s.pct_change) (drop n ss)) (take n ss)
  unfolding IsRanked
  take_highest zero ss h = tt
  take_highest (suc n) [] h = tt
  take_highest (suc n) (s ∷ ss) (above, h) = (All-drop _ n ss above, take_highest n ss h)

  -- If no change among the eligible candidates is NaN, the active symbols are those of the highest
  -- eligible candidates, as many as there are slots or all of them, followed by whitelisted symbols
  -- only; every whitelisted symbol is active.
  pub build_active_set-IsSelection :
      (candidates : List (TickerState F)) (config : ScannerConfig F) (movers : Option (List String))
      → IsNumbered (eligible movers candidates)
      → IsSelection config.active_tickers_n config.whitelist_symbols
          (eligible movers candidates)
          (build_active_set candidates config movers)
  unfolding build_active_set
  build_active_set-IsSelection candidates config movers h =
      let pool = eligible movers candidates in
      let n = config.active_tickers_n in
      let added =
        add_whitelist-IsAdded config.whitelist_symbols (symbols_of (take n (rank pool))) in
      record {
        top = take n (rank pool);
        left = drop n (rank pool);
        extra = added.extra;
        parts = rw (take-append-drop n (rank pool)) (rank-perm pool);
        within = length-take-le n (rank pool);
        filled = take_filled n (rank pool);
        highest = take_highest n (rank pool) (rank-IsRanked pool h).0;
        symbols = added.split;
        listed = added.listed;
        complete = added.complete;
      }
