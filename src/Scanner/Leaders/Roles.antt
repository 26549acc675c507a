-- ===== src/Scanner/Leaders/Roles.antt =====
-- bot/src/bot/scanner/leaders.py: the roles in each cluster.
use mathlib.Core.Option.{map as option_map}
use quick_stock_bot.Prelude.{
  ℕ, zero, suc, ◌≡◌, ◌≢◌, refl, sym, ap, ◌∙◌, true, false, ◌&&◌, not, nat_eq, if◌then◌else◌, arith,
  Bool-cases, inl, inr, List, [], ◌∷◌, Option, none, some,
}
use quick_stock_bot.Num.{Float, IsOrdered, IsNumber, ◌≼◌, ◌<?◌}
use quick_stock_bot.Scanner.State.{TickerState, ScanRole, leader, laggard, standalone}
use quick_stock_bot.Scanner.Leaders.{
  set_role, leader_score, score_of, best_of, has_news_at, follow, follow_one, elect,
}
use quick_stock_bot.Scanner.Leaders.Groups.{is_member}

module _ {F : Type 0} ⦃num : Float F⦄ where
  abbrev pub role_at : ℕ → List (TickerState F) → Option ScanRole
  role_at i [] = none
  role_at zero (s ∷ ss) = some s.role
  role_at (suc i) (s ∷ ss) = role_at i ss

  -- everything but the roles
  abbrev pub unranked : List (TickerState F) → List (TickerState F)
  unranked [] = []
  unranked (s ∷ ss) = record s { role = standalone } ∷ unranked ss

  -- the role of a member that does not lead
  abbrev pub follower : ℕ → List (TickerState F) → ScanRole
  follower x ss = if has_news_at x ss then laggard else standalone

  -- one leader, whose score nobody in the cluster exceeds; a symbol alone stands alone
  pub IsElected : List (TickerState F) → List ℕ → Type 0
  IsElected out [] = Unit
  IsElected out (i ∷ []) = role_at i out ≡ some standalone
  IsElected out (i ∷ j ∷ rest) =
      (best : ℕ) × (is_member best (i ∷ j ∷ rest) ≡ true)
      × (role_at best out ≡ some leader)
      × ((x : ℕ)
          → is_member x (i ∷ j ∷ rest) ≡ true
          → x ≢ best
          → role_at x out ≡ some (follower x out))
      × ((x : ℕ) → is_member x (i ∷ j ∷ rest) ≡ true → leader_score out x ≼ leader_score out best)

  role_at-set_role :
      (x i : ℕ) (role : ScanRole) (ss : List (TickerState F))
      → role_at x (set_role i role ss)
        ≡ (if nat_eq i x then option_map (λ r. role) (role_at x ss) else role_at x ss)
  unfolding set_role
  role_at-set_role x i role [] = ground arith
  role_at-set_role zero zero role (s ∷ ss) = refl
  role_at-set_role zero (suc i) role (s ∷ ss) = ground arith
  role_at-set_role (suc x) zero role (s ∷ ss) = ground arith
  role_at-set_role (suc x) (suc i) role (s ∷ ss) = ground (arith, role_at-set_role x i role ss)

  unranked-set_role :
      (i : ℕ) (role : ScanRole) (ss : List (TickerState F))
      → unranked (set_role i role ss) ≡ unranked ss
  unfolding set_role
  unranked-set_role i role [] = refl
  unranked-set_role zero role (s ∷ ss) = refl
  unranked-set_role (suc i) role (s ∷ ss) =
      ap (λ ts. record s { role = standalone } ∷ ts) (unranked-set_role i role ss)

  has_news_at-unranked :
      (i : ℕ) (ss : List (TickerState F)) → has_news_at i (unranked ss) ≡ has_news_at i ss
  unfolding has_news_at
  has_news_at-unranked i [] = refl
  has_news_at-unranked zero (s ∷ ss) = refl
  has_news_at-unranked (suc i) (s ∷ ss) = has_news_at-unranked i ss

  follower_same :
      (x : ℕ) (ss ts : List (TickerState F))
      → unranked ss ≡ unranked ts
      → follower x ss ≡ follower x ts
  follower_same x ss ts e =
      ap (λ b. if b then laggard else standalone)
        (sym (has_news_at-unranked x ss) ∙ ap (has_news_at x) e ∙ has_news_at-unranked x ts)

  leader_score-unranked :
      (i : ℕ) (ss : List (TickerState F)) → leader_score (unranked ss) i ≡ leader_score ss i
  unfolding leader_score score_of
  leader_score-unranked i [] = refl
  leader_score-unranked zero (s ∷ ss) = refl
  leader_score-unranked (suc i) (s ∷ ss) = leader_score-unranked i ss

  pub leader_score_same :
      (x : ℕ) (ss ts : List (TickerState F))
      → unranked ss ≡ unranked ts
      → leader_score ss x ≡ leader_score ts x
  leader_score_same x ss ts e =
      sym (leader_score-unranked x ss) ∙ ap (λ us. leader_score us x) e ∙ leader_score-unranked x ts

  best_of_highest :
      (laws : IsOrdered F) (updated : List (TickerState F)) (best : ℕ) (members : List ℕ)
      → ((x : ℕ) → IsNumber (leader_score updated x))
      → (x : ℕ) → is_member x (best ∷ members) ≡ true
      → leader_score updated x ≼ leader_score updated (best_of updated best members)
  unfolding best_of
  best_of_highest laws updated best [] scored x m =
      let e : best ≡ x = ground (arith, m) in rw e (scored x)
  best_of_highest laws updated best (i ∷ rest) scored x m =
      let value : ℕ → F = leader_score updated in
      elim (Bool-cases (value best <? value i)) [
        | inl above ↦ rw above (elim (Bool-cases (nat_eq best x)) [
          | inl same ↦
              let e : best ≡ x = ground (arith, same) in
              laws.le_trans _ _ _ (rw e at (laws.le_of_lt _ _ above))
                (best_of_highest laws updated i rest scored i (ground arith))
          | inr other ↦ best_of_highest laws updated i rest scored x (ground (arith, m))
        ])
        | inr below ↦ rw below (elim (Bool-cases (nat_eq i x)) [
          | inl same ↦
              let e : i ≡ x = ground (arith, same) in
              let le : value i ≼ value best =
                ground (arith, laws.lt_of_not_le (value i) (value best) (scored i) (scored best)) in
              laws.le_trans _ _ _ (rw e at le)
                (best_of_highest laws updated best rest scored best (ground arith))
          | inr other ↦ best_of_highest laws updated best rest scored x (ground (arith, m))
        ])
      ]

  is_member-best_of :
      (updated : List (TickerState F)) (best : ℕ) (members : List ℕ)
      → is_member (best_of updated best members) (best ∷ members) ≡ true
  unfolding best_of
  is_member-best_of updated best [] = ground arith
  is_member-best_of updated best (i ∷ rest) =
      ground (arith, is_member-best_of updated best rest, is_member-best_of updated i rest)

  unranked-follow_one :
      (best i : ℕ) (updated : List (TickerState F))
      → unranked (follow_one best i updated) ≡ unranked updated
  unfolding follow_one
  unranked-follow_one best i updated =
      ground (arith, unranked-set_role i laggard updated, unranked-set_role i standalone updated)

  role_at-follow_one :
      (best i x : ℕ) (updated : List (TickerState F))
      → role_at x (follow_one best i updated) ≡ (
          if nat_eq i x && not (nat_eq x best)
          then option_map (λ r. follower x updated) (role_at x updated)
          else role_at x updated)
  unfolding follow_one
  role_at-follow_one best i x updated =
      ground (arith, role_at-set_role x i laggard updated, role_at-set_role x i standalone updated)

  unranked-follow :
      (best : ℕ) (members : List ℕ) (updated : List (TickerState F))
      → unranked (follow best members updated) ≡ unranked updated
  unfolding follow
  unranked-follow best [] updated = refl
  unranked-follow best (i ∷ rest) updated =
      unranked-follow best rest (follow_one best i updated) ∙ unranked-follow_one best i updated

  role_at-follow :
      (best x : ℕ) (members : List ℕ) (updated : List (TickerState F))
      → role_at x (follow best members updated) ≡ (
          if is_member x members && not (nat_eq x best)
          then option_map (λ r. follower x updated) (role_at x updated)
          else role_at x updated)
  unfolding follow
  role_at-follow best x [] updated = refl
  role_at-follow best x (i ∷ rest) updated = ground (
    arith,
    role_at-follow best x rest (follow_one best i updated),
    role_at-follow_one best i x updated,
    follower_same x (follow_one best i updated) updated (unranked-follow_one best i updated),
  )

  pub unranked-elect :
      (members : List ℕ) (updated : List (TickerState F))
      → unranked (elect members updated) ≡ unranked updated
  unfolding elect
  unranked-elect [] updated = refl
  unranked-elect (i ∷ []) updated = unranked-set_role i standalone updated
  unranked-elect (i ∷ j ∷ rest) updated =
      unranked-follow (best_of updated i (j ∷ rest)) (i ∷ j ∷ rest) _
      ∙ unranked-set_role (best_of updated i (j ∷ rest)) leader updated

  -- a symbol outside the cluster keeps its role
  pub role_at-elect :
      (x : ℕ) (members : List ℕ) (updated : List (TickerState F))
      → is_member x members ≡ false
      → role_at x (elect members updated) ≡ role_at x updated
  unfolding elect
  role_at-elect x [] updated h = refl
  role_at-elect x (i ∷ []) updated h = ground (arith, role_at-set_role x i standalone updated)
  role_at-elect x (i ∷ j ∷ rest) updated h =
      let best = best_of updated i (j ∷ rest) in
      ground (
        arith,
        role_at-follow best x (i ∷ j ∷ rest) (set_role best leader updated),
        role_at-set_role x best leader updated,
        is_member-best_of updated i (j ∷ rest),
      )

  -- the index is in range
  abbrev pub IsIndex : ℕ → List (TickerState F) → Type 0
  IsIndex x ss = (role : ScanRole) × (role_at x ss ≡ some role)

  pub elect-IsElected :
      (laws : IsOrdered F) (members : List ℕ) (updated : List (TickerState F))
      → ((x : ℕ) → is_member x members ≡ true → IsIndex x updated)
      → ((x : ℕ) → IsNumber (leader_score updated x))
      → IsElected (elect members updated) members
  unfolding elect IsElected
  elect-IsElected laws [] updated h scored = tt
  elect-IsElected laws (i ∷ []) updated h scored =
      ground (arith, role_at-set_role i i standalone updated, h i)
  elect-IsElected laws (i ∷ j ∷ rest) updated h scored =
      let best = best_of updated i (j ∷ rest) in
      let ranked = set_role best leader updated in
      let inside = is_member-best_of updated i (j ∷ rest) in
      let same = unranked-follow best (i ∷ j ∷ rest) ranked in
      (
        best,
        inside,
        ground (
          arith,
          role_at-follow best best (i ∷ j ∷ rest) ranked,
          role_at-set_role best best leader updated,
          h best,
        ),
        λ x m other. ground (
          arith,
          m,
          other,
          role_at-follow best x (i ∷ j ∷ rest) ranked,
          role_at-set_role x best leader updated,
          h x,
          follower_same x (follow best (i ∷ j ∷ rest) ranked) ranked same,
        ),
        λ x m.
            let whole = same ∙ unranked-set_role best leader updated in
            rw (leader_score_same x _ updated whole, leader_score_same best _ updated whole)
              (best_of_highest laws updated i (j ∷ rest) scored x m),
      )

  -- whether the cluster is elected depends only on the roles of its members and what has no role
  pub IsElected-same :
      (out out' : List (TickerState F)) (members : List ℕ)
      → unranked out ≡ unranked out'
      → ((x : ℕ) → is_member x members ≡ true → role_at x out ≡ role_at x out')
      → IsElected out members
      → IsElected out' members
  unfolding IsElected
  IsElected-same out out' [] e h p = tt
  IsElected-same out out' (i ∷ []) e h p = ground (arith, h i)
  IsElected-same out out' (i ∷ j ∷ rest) e h (best, inside, leads, others, highest) = (
    best,
    inside,
    sym (h best inside) ∙ leads,
    λ x m other. sym (h x m) ∙ others x m other ∙ ap some (follower_same x out out' e),
    λ x m.
        rw (sym (leader_score_same x out out' e), sym (leader_score_same best out out' e))
          (highest x m),
  )
