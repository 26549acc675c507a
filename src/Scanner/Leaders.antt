-- ===== src/Scanner/Leaders.antt =====
-- bot/src/bot/scanner/leaders.py. The list `parent` is a function on its indices. `find` has fuel for
-- its loop; `Leaders.Forest` shows that the fuel given is enough.
pub mod Forest
pub mod Links
pub mod Groups
pub mod Roles
pub mod Elections
use quick_stock_bot.Prelude.{
  ℕ, zero, suc, ◌*◌, ◌+◌, Bool, true, false, List, [], ◌∷◌, ◌++◌, nat_eq, length, if◌then◌else◌,
}
use quick_stock_bot.Num.{Float, lit, ◌⊕◌, ◌⊗◌, ◌<?◌, ◌≤?◌}
use quick_stock_bot.Ta.Similarity.{pattern_similarity}
use quick_stock_bot.Scanner.State.{ScanRole, leader, laggard, standalone, TickerState}

abbrev pub Parents : Type 0
Parents = ℕ → ℕ

-- `parent[i] = v`
abbrev pub set_parent : Parents → ℕ → ℕ → Parents
set_parent parent i v x = if nat_eq x i then v else parent x

-- the loop of `find`, with path halving: the root and the list afterwards
pub find : ℕ → ℕ → Parents → ℕ × Parents
find zero i parent = (i, parent)
find (suc fuel) i parent =
    let next = parent (parent i) in
    let rest = find fuel next (set_parent parent i next) in
    if nat_eq (parent i) i then (i, parent) else rest

-- `parent[find(i)] = find(j)`, whose right side is evaluated first
pub union : ℕ → ℕ → ℕ → Parents → Parents
union fuel i j parent =
    let (target, parent') = find fuel j parent in
    let (source, parent'') = find fuel i parent' in set_parent parent'' source target

-- the members of each root, in the order in which the roots appear
abbrev pub Clusters : Type 0
Clusters = List (ℕ × List ℕ)

-- `clusters.setdefault(root, []).append(i)`
pub push : ℕ → ℕ → Clusters → Clusters
push root i [] = (root, i ∷ []) ∷ []
push root i ((key, members) ∷ rest) =
    if nat_eq key root then (key, members ++ (i ∷ [])) ∷ rest else (key, members) ∷ push root i rest

-- the second loop, from index `i` on, as many rounds as the first argument says
pub gather : ℕ → ℕ → ℕ → Parents → Clusters → Clusters
gather zero fuel i parent clusters = clusters
gather (suc rounds) fuel i parent clusters =
    let (root, parent') = find fuel i parent in
    gather rounds fuel (suc i) parent' (push root i clusters)

-- more than the number of pairs
pub fuel_for : ℕ → ℕ
fuel_for n = suc (n * n)

module _ {F : Type 0} ⦃num : Float F⦄ where
  pub is_similar : F → TickerState F → TickerState F → Bool
  is_similar threshold s t = threshold ≤? pattern_similarity s.pattern_signature t.pattern_signature

  -- the inner loop, for `j` from the given index on
  pub join_with : F → ℕ → ℕ → TickerState F → ℕ → List (TickerState F) → Parents → Parents
  join_with threshold fuel i s j [] parent = parent
  join_with threshold fuel i s j (t ∷ ts) parent =
      join_with threshold fuel i s (suc j) ts
        (if is_similar threshold s t then union fuel i j parent else parent)

  pub join_all : F → ℕ → ℕ → List (TickerState F) → Parents → Parents
  join_all threshold fuel i [] parent = parent
  join_all threshold fuel i (s ∷ ss) parent =
      join_all threshold fuel (suc i) ss (join_with threshold fuel i s (suc i) ss parent)

  pub clusters_of : F → List (TickerState F) → Clusters
  unfolding fuel_for
  clusters_of threshold states =
      let fuel = fuel_for (length states) in
      gather (length states) fuel 0 (join_all threshold fuel 0 states (λ i. i)) []

  -- `updated[i] = updated[i].model_copy(update={"role": role})`
  set_role : ℕ → ScanRole → List (TickerState F) → List (TickerState F)
  set_role i role [] = []
  set_role zero role (s ∷ ss) = record s { role = role } ∷ ss
  set_role (suc i) role (s ∷ ss) = s ∷ set_role i role ss

  unfoldable pub score_of : TickerState F → F
  score_of s = s.pct_change ⊕ s.macd_state.favorability ⊗ lit 10 0

  -- `_leader_score(idx)`; the indices are in range
  pub leader_score : List (TickerState F) → ℕ → F
  unfolding score_of
  leader_score [] i = lit 0 0
  leader_score (s ∷ ss) zero = score_of s
  leader_score (s ∷ ss) (suc i) = leader_score ss i

  -- `max(indices, key=_leader_score)` keeps the first of equals.
  best_of : List (TickerState F) → ℕ → List ℕ → ℕ
  unfolding leader_score
  best_of updated best [] = best
  best_of updated best (i ∷ rest) =
      best_of updated (if leader_score updated best <? leader_score updated i then i else best) rest

  pub has_news_at : ℕ → List (TickerState F) → Bool
  has_news_at i [] = false
  has_news_at zero (s ∷ ss) = s.has_news
  has_news_at (suc i) (s ∷ ss) = has_news_at i ss

  -- the role of a member other than the best
  follow_one : ℕ → ℕ → List (TickerState F) → List (TickerState F)
  unfolding has_news_at set_role
  follow_one best i updated =
      if nat_eq i best
      then updated
      else set_role i (if has_news_at i updated then laggard else standalone) updated

  follow : ℕ → List ℕ → List (TickerState F) → List (TickerState F)
  unfolding follow_one
  follow best [] updated = updated
  follow best (i ∷ rest) updated = follow best rest (follow_one best i updated)

  pub elect : List ℕ → List (TickerState F) → List (TickerState F)
  unfolding follow best_of
  elect [] updated = updated
  elect (i ∷ []) updated = set_role i standalone updated
  elect (i ∷ j ∷ rest) updated =
      let best = best_of updated i (j ∷ rest) in
      follow best (i ∷ j ∷ rest) (set_role best leader updated)

  pub elect_all : Clusters → List (TickerState F) → List (TickerState F)
  unfolding elect
  elect_all [] updated = updated
  elect_all ((_, indices) ∷ rest) updated = elect_all rest (elect indices updated)

  unfoldable pub assign_roles : F → List (TickerState F) → List (TickerState F)
  unfolding clusters_of elect_all
  assign_roles threshold states = elect_all (clusters_of threshold states) states
