-- ===== src/Scanner/Leaders/Links.antt =====
-- The pairs of similar symbols in bot/src/bot/scanner/leaders.py: after the first loop two symbols have
-- one root exactly when a chain of similar pairs links them.
use quick_stock_bot.Prelude.{
  ℕ, zero, suc, ◌+◌, ◌-◌, ◌*◌, ◌≤◌, ◌<◌, ◌≡◌, refl, sym, ◌∙◌, true, nat_eq, if◌then◌else◌, arith,
  Bool-cases, inl, inr, List, [], ◌∷◌, length, Option, none, some, ◌↔◌,
}
use quick_stock_bot.Num.{Float}
use quick_stock_bot.Scanner.State.{TickerState}
use quick_stock_bot.Scanner.Leaders.{is_similar, join_with, join_all, union, Parents}
use quick_stock_bot.Scanner.Leaders.Forest.{Represents, merge, deepen, union-Represents}

-- linked by a chain of steps of `R`, in either direction
pub data Linked (R : ℕ → ℕ → Type 0) : ℕ → ℕ → Type 0 where
  here : (i : ℕ) → Linked R i i
  step : {i j : ℕ} → R i j → Linked R i j
  back : {i j : ℕ} → Linked R i j → Linked R j i
  chain : {i j k : ℕ} → Linked R i j → Linked R j k → Linked R i k

abbrev pub get_elem? {ℓ} : {A : Type ℓ} → List A → ℕ → Option A
get_elem? [] i = none
get_elem? (x ∷ xs) zero = some x
get_elem? (x ∷ xs) (suc i) = get_elem? xs i

-- `g` reads as the list from index `j` on, and ends there.
abbrev pub Reads {ℓ} : {A : Type ℓ} → (ℕ → Option A) → ℕ → List A → Type ℓ
Reads g j [] = (k : ℕ) → j ≤ k → g k ≡ none
Reads g j (t ∷ ts) = (g j ≡ some t) × Reads g (suc j) ts

pub get_elem?-Reads {ℓ} :
    {A : Type ℓ} (g : ℕ → Option A) (j : ℕ) (ts : List A)
    → ((k : ℕ) → g (j + k) ≡ get_elem? ts k)
    → Reads g j ts
get_elem?-Reads g j [] h = λ k le. rw (← (let e : j + (k - j) ≡ k = omega arith in e)) (h (k - j))
get_elem?-Reads g j (t ∷ ts) h = (
  (let e : j + 0 ≡ j = omega arith in rw (← e) (h 0)),
  get_elem?-Reads g (suc j) ts
      (λ k. (let e : suc j + k ≡ j + suc k = omega arith in rw e (h (suc k)))),
)

module _ {F : Type 0} ⦃num : Float F⦄ (threshold : F) where
  -- the indices `i < j` of two symbols whose similarity reaches the threshold
  abbrev pub IsPair : (ℕ → Option (TickerState F)) → ℕ → ℕ → Type 0
  IsPair g i j =
      (s : TickerState F) × (t : TickerState F) × (g i ≡ some s)
      × (g j ≡ some t)
      × (i < j)
      × (is_similar threshold s t ≡ true)

  -- the loops, on partitions
  merge_with : ℕ → TickerState F → ℕ → List (TickerState F) → (ℕ → ℕ) → ℕ → ℕ
  merge_with i s j [] root = root
  merge_with i s j (t ∷ ts) root =
      merge_with i s (suc j) ts (if is_similar threshold s t then merge root i j else root)

  pub merge_all : ℕ → List (TickerState F) → (ℕ → ℕ) → ℕ → ℕ
  merge_all i [] root = root
  merge_all i (s ∷ ss) root = merge_all (suc i) ss (merge_with i s (suc i) ss root)

  merge_with_keeps :
      (i : ℕ) (s : TickerState F) (j : ℕ) (ts : List (TickerState F)) (root : ℕ → ℕ) (x y : ℕ)
      → root x ≡ root y
      → merge_with i s j ts root x ≡ merge_with i s j ts root y
  unfolding merge_with
  merge_with_keeps i s j [] root x y h = h
  merge_with_keeps i s j (t ∷ ts) root x y h =
      merge_with_keeps i s (suc j) ts (if is_similar threshold s t then merge root i j else root) x
        y (ground arith)

  merge_all_keeps :
      (i : ℕ) (ss : List (TickerState F)) (root : ℕ → ℕ) (x y : ℕ)
      → root x ≡ root y
      → merge_all i ss root x ≡ merge_all i ss root y
  unfolding merge_all
  merge_all_keeps i [] root x y h = h
  merge_all_keeps i (s ∷ ss) root x y h =
      merge_all_keeps (suc i) ss (merge_with i s (suc i) ss root) x y
        (merge_with_keeps i s (suc i) ss root x y h)

  module _ (g : ℕ → Option (TickerState F)) where
    -- every index is linked to its root
    merge-Linked :
        (root : ℕ → ℕ) (i j : ℕ)
        → IsPair g i j
        → ((x : ℕ) → Linked (IsPair g) x (root x))
        → (x : ℕ) → Linked (IsPair g) x (merge root i j x)
    merge-Linked root i j pair h x = elim (Bool-cases (nat_eq (root x) (root i))) [
      | inl same ↦ rw same (
          let e : root x ≡ root i = ground arith in
          chain (h x) (rw e (chain (back (h i)) (chain (step pair) (h j)))))
      | inr other ↦ rw other (h x)
    ]

    merge_with-Linked :
        (i : ℕ) (s : TickerState F) (j : ℕ) (ts : List (TickerState F)) (root : ℕ → ℕ)
        → g i ≡ some s
        → i < j
        → Reads g j ts
        → ((x : ℕ) → Linked (IsPair g) x (root x))
        → (x : ℕ) → Linked (IsPair g) x (merge_with i s j ts root x)
    unfolding merge_with
    merge_with-Linked i s j [] root at_i below reads h = h
    merge_with-Linked i s j (t ∷ ts) root at_i below (at_j, reads) h =
        elim (Bool-cases (is_similar threshold s t)) [
          | inl close ↦ rw close (
              merge_with-Linked i s (suc j) ts (merge root i j) at_i (omega arith) reads
                (merge-Linked root i j (s, t, at_i, at_j, below, close) h))
          | inr far ↦ rw far (merge_with-Linked i s (suc j) ts root at_i (omega arith) reads h)
        ]

    merge_all-Linked' :
        (i : ℕ) (ss : List (TickerState F)) (root : ℕ → ℕ)
        → Reads g i ss
        → ((x : ℕ) → Linked (IsPair g) x (root x))
        → (x : ℕ) → Linked (IsPair g) x (merge_all i ss root x)
    unfolding merge_all
    merge_all-Linked' i [] root reads h = h
    merge_all-Linked' i (s ∷ ss) root (at_i, reads) h =
        merge_all-Linked' (suc i) ss (merge_with i s (suc i) ss root) reads
          (merge_with-Linked i s (suc i) ss root at_i (omega arith) reads h)

    -- a pair has one root after the round of its second index
    merge_with_joins :
        (i : ℕ) (s : TickerState F) (j k : ℕ) (t : TickerState F) (ts : List (TickerState F))
        (root : ℕ → ℕ)
        → Reads g j ts
        → j ≤ k
        → g k ≡ some t
        → is_similar threshold s t ≡ true
        → merge_with i s j ts root i ≡ merge_with i s j ts root k
    unfolding merge_with
    merge_with_joins i s j k t [] root reads le at_k close = absurd (ground (arith, reads k le))
    merge_with_joins i s j k t (u ∷ ts) root (at_j, reads) le at_k close =
        let root' = if is_similar threshold s u then merge root i j else root in
        elim (Bool-cases (nat_eq j k)) [
          | inl now ↦
              let same : j ≡ k = ground arith in
              let same_state : u ≡ t = ground (arith, rw same at at_j) in
              merge_with_keeps i s (suc j) ts root' i k
                (rw (same_state, close, ← same) (ground arith))
          | inr later ↦ merge_with_joins i s (suc j) k t ts root' reads (ground arith) at_k close
        ]

    merge_all_joins :
        (i k l : ℕ) (ss : List (TickerState F)) (root : ℕ → ℕ)
        → Reads g i ss
        → i ≤ k
        → IsPair g k l
        → merge_all i ss root k ≡ merge_all i ss root l
    unfolding merge_all
    merge_all_joins i k l [] root reads le (s, t, at_k, at_l, below, close) =
        absurd (ground (arith, reads k le))
    merge_all_joins i k l (u ∷ ss) root (at_i, reads) le (s, t, at_k, at_l, below, close) =
        let root' = merge_with i u (suc i) ss root in
        elim (Bool-cases (nat_eq i k)) [
          | inl now ↦
              let same : i ≡ k = ground arith in
              let same_state : u ≡ s = ground (arith, rw same at at_i) in
              merge_all_keeps (suc i) ss root' k l (
                rw (← same) (
                  merge_with_joins i u (suc i) l t ss root reads (ground arith) at_l
                    (rw same_state close)))
          | inr later ↦
              merge_all_joins (suc i) k l ss root' reads (ground arith)
                (s, t, at_k, at_l, below, close)
        ]

    pub merge_all-Linked :
        (ss : List (TickerState F))
        → Reads g 0 ss
        → (k l : ℕ)
        → (merge_all 0 ss (λ i. i) k ≡ merge_all 0 ss (λ i. i) l) ↔ Linked (IsPair g) k l
    merge_all-Linked ss reads k l = (
      λ e.
          let reach = merge_all-Linked' 0 ss (λ i. i) reads (λ x. here x) in
          chain (reach k) (rw e (back (reach l))),
      same_root,
    )
      where
        same_root :
            {k l : ℕ}
            → Linked (IsPair g) k l
            → merge_all 0 ss (λ i. i) k ≡ merge_all 0 ss (λ i. i) l
        same_root (here i) = refl
        same_root (step {i} {j} p) = merge_all_joins 0 i j ss (λ i. i) reads (omega arith) p
        same_root (back h) = sym (same_root h)
        same_root (chain h h') = same_root h ∙ same_root h'

  -- the loops on the list `parent` are those on partitions
  join_with-Represents :
      (fuel i : ℕ) (s : TickerState F) (j : ℕ) (ts : List (TickerState F)) (bound : ℕ)
      (root depth : ℕ → ℕ) (parent : Parents)
      → Represents root depth bound parent
      → bound + length ts < fuel
      → (depth' : ℕ → ℕ) × (bound' : ℕ) × (bound' ≤ bound + length ts)
        × Represents
            (merge_with i s j ts root)
            depth'
            bound'
            (join_with threshold fuel i s j ts parent)
  unfolding merge_with join_with
  join_with-Represents fuel i s j [] bound root depth parent r h = (depth, bound, omega arith, r)
  join_with-Represents fuel i s j (t ∷ ts) bound root depth parent r h =
      elim (Bool-cases (is_similar threshold s t)) [
        | inl close ↦ rw close (
            let (depth', bound', le, r') =
              join_with-Represents fuel i s (suc j) ts (suc bound) (merge root i j)
                (deepen root depth i j) (union fuel i j parent)
                (union-Represents i j fuel parent r (omega arith)) (omega arith) in
            (depth', bound', omega arith, r'))
        | inr far ↦ rw far (
            let (depth', bound', le, r') =
              join_with-Represents fuel i s (suc j) ts bound root depth parent r (omega arith) in
            (depth', bound', omega arith, r'))
      ]

  -- the number of pairs of a list
  pub pair_count : List (TickerState F) → ℕ
  pair_count [] = 0
  pair_count (s ∷ ss) = length ss + pair_count ss

  pub pair_count-le : (ss : List (TickerState F)) → pair_count ss ≤ length ss * length ss
  unfolding pair_count
  pair_count-le [] = omega arith
  pair_count-le (s ∷ ss) = grind (arith, pair_count-le ss)

  pub join_all-Represents :
      (fuel i : ℕ) (ss : List (TickerState F)) (bound : ℕ) (root depth : ℕ → ℕ) (parent : Parents)
      → Represents root depth bound parent
      → bound + pair_count ss < fuel
      → (depth' : ℕ → ℕ) × (bound' : ℕ) × (bound' ≤ bound + pair_count ss)
        × Represents (merge_all i ss root) depth' bound' (join_all threshold fuel i ss parent)
  unfolding merge_all join_all pair_count
  join_all-Represents fuel i [] bound root depth parent r h = (depth, bound, omega arith, r)
  join_all-Represents fuel i (s ∷ ss) bound root depth parent r h =
      let (depth', bound', le, r') =
        join_with-Represents fuel i s (suc i) ss bound root depth parent r (omega arith) in
      let (depth'', bound'', le', r'') =
        join_all-Represents fuel (suc i) ss bound' (merge_with i s (suc i) ss root) depth'
          (join_with threshold fuel i s (suc i) ss parent) r' (omega arith) in
      (depth'', bound'', omega arith, r'')
