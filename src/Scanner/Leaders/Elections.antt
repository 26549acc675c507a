-- ===== src/Scanner/Leaders/Elections.antt =====
-- bot/src/bot/scanner/leaders.py: one leader in each cluster after all elections.
use quick_stock_bot.Prelude.{
  ℕ, zero, suc, ◌+◌, ◌<◌, ◌≡◌, refl, sym, ◌∙◌, Bool, true, false, ◌||◌, nat_eq, arith, Bool-cases,
  inl, inr, List, [], ◌∷◌, length, All,
}
use quick_stock_bot.Num.{Float, IsOrdered, IsNumber}
use quick_stock_bot.Scanner.State.{TickerState}
use quick_stock_bot.Scanner.Leaders.{
  Clusters, Parents, push, gather, find, clusters_of, elect, elect_all, assign_roles, leader_score,
  score_of,
}
use quick_stock_bot.Scanner.Leaders.Groups.{is_member, IsFiled, root_of, clusters_of-IsFiled}
use quick_stock_bot.Scanner.Leaders.Roles.{
  role_at, unranked, IsElected, IsIndex, unranked-elect, role_at-elect, elect-IsElected,
  IsElected-same, leader_score_same,
}

abbrev in_any : ℕ → Clusters → Bool
in_any x [] = false
in_any x ((_, members) ∷ rest) = is_member x members || in_any x rest

-- no index is in two clusters
IsApart : Clusters → Type 0
IsApart [] = Unit
IsApart ((_, members) ∷ rest) =
    ((x : ℕ) → is_member x members ≡ true → in_any x rest ≡ false) × IsApart rest

abbrev has_key : ℕ → Clusters → Bool
has_key root [] = false
has_key root ((key, _) ∷ rest) = nat_eq key root || has_key root rest

IsKeyed : Clusters → Type 0
IsKeyed [] = Unit
IsKeyed ((key, _) ∷ rest) = (has_key key rest ≡ false) × IsKeyed rest

has_key-push :
    (root i k : ℕ) (cs : Clusters) → has_key k (push root i cs) ≡ (has_key k cs || nat_eq root k)
unfolding push
has_key-push root i k [] = ground arith
has_key-push root i k ((key, members) ∷ rest) = ground (arith, has_key-push root i k rest)

push-IsKeyed : (root i : ℕ) (cs : Clusters) → IsKeyed cs → IsKeyed (push root i cs)
unfolding push IsKeyed
push-IsKeyed root i [] h = (refl, tt)
push-IsKeyed root i ((key, members) ∷ rest) (new, h) = elim (Bool-cases (nat_eq key root)) [
  | inl same ↦ rw same (new, h)
  | inr other ↦ rw other (ground (arith, has_key-push root i key rest), push-IsKeyed root i rest h)
]

gather-IsKeyed :
    (rounds fuel i : ℕ) (parent : Parents) (cs : Clusters)
    → IsKeyed cs
    → IsKeyed (gather rounds fuel i parent cs)
unfolding gather
gather-IsKeyed zero fuel i parent cs h = h
gather-IsKeyed (suc rounds) fuel i parent cs h =
    gather-IsKeyed rounds fuel (suc i) (find fuel i parent).1 _ (push-IsKeyed _ i cs h)

module _ (root : ℕ → ℕ) (n : ℕ) where
  in_any-key :
      (x : ℕ) (cs : Clusters)
      → IsFiled root n cs
      → in_any x cs ≡ true
      → (has_key (root x) cs ≡ true) × (x < n)
  in_any-key x [] h e = absurd (ground arith)
  in_any-key x ((key, members) ∷ rest) (h, hs) e = ground (arith, h x, in_any-key x rest hs)

  IsFiled-IsApart : (cs : Clusters) → IsFiled root n cs → IsKeyed cs → IsApart cs
  unfolding IsKeyed IsApart
  IsFiled-IsApart [] h k = tt
  IsFiled-IsApart ((key, members) ∷ rest) (h, hs) (new, k) =
      (λ x m. ground (arith, m, h x m, in_any-key x rest hs), IsFiled-IsApart rest hs k)

module _ {F : Type 0} ⦃num : Float F⦄ (laws : IsOrdered F) where
  leader_score-IsNumber :
      (states : List (TickerState F))
      → All (λ s. IsNumber (score_of s)) states
      → (x : ℕ) → IsNumber (leader_score states x)
  unfolding leader_score
  leader_score-IsNumber [] h x = (laws.number_of_le _ _ (laws.lit_mono 0 0 0 (omega arith))).0
  leader_score-IsNumber (s ∷ ss) (n, h) zero = n
  leader_score-IsNumber (s ∷ ss) (n, h) (suc x) = leader_score-IsNumber ss h x

  unranked-elect_all :
      (cs : Clusters) (updated : List (TickerState F))
      → unranked (elect_all cs updated) ≡ unranked updated
  unfolding elect_all
  unranked-elect_all [] updated = refl
  unranked-elect_all ((_, members) ∷ rest) updated =
      unranked-elect_all rest (elect members updated) ∙ unranked-elect members updated

  role_at-elect_all :
      (x : ℕ) (cs : Clusters) (updated : List (TickerState F))
      → in_any x cs ≡ false
      → role_at x (elect_all cs updated) ≡ role_at x updated
  unfolding elect_all
  role_at-elect_all x [] updated h = refl
  role_at-elect_all x ((_, members) ∷ rest) updated h =
      role_at-elect_all x rest (elect members updated) (ground arith)
      ∙ role_at-elect x members updated (ground arith)

  abbrev pub AllElected : List (TickerState F) → Clusters → Type 0
  AllElected out = All (λ c. IsElected out c.1)

  elect_all-AllElected :
      (cs : Clusters) (updated : List (TickerState F))
      → IsApart cs
      → ((x : ℕ) → in_any x cs ≡ true → IsIndex x updated)
      → ((x : ℕ) → IsNumber (leader_score updated x))
      → AllElected (elect_all cs updated) cs
  unfolding elect_all IsApart
  elect_all-AllElected [] updated apart h scored = tt
  elect_all-AllElected ((_, members) ∷ rest) updated (alone, apart) h scored =
      let mine = elect-IsElected laws members updated (λ x m. h x (ground (arith, m))) scored in
      (
        IsElected-same (elect members updated) _ members
            (sym (unranked-elect_all rest (elect members updated)))
            (λ x m. sym (role_at-elect_all x rest (elect members updated) (alone x m))) mine,
        elect_all-AllElected rest (elect members updated) apart
            (λ x m.
              let outside : is_member x members ≡ false = ground (arith, m, alone x) in
              let (role, e) = h x (ground (arith, m)) in
              (role, role_at-elect x members updated outside ∙ e))
            (λ x. rw (leader_score_same x _ updated (unranked-elect members updated)) (scored x)),
      )

  IsIndex-of_lt : (x : ℕ) (ss : List (TickerState F)) → x < length ss → IsIndex x ss
  IsIndex-of_lt x [] h = absurd (omega arith)
  IsIndex-of_lt zero (s ∷ ss) h = (s.role, refl)
  IsIndex-of_lt (suc x) (s ∷ ss) h = IsIndex-of_lt x ss (omega arith)

  -- If no score is NaN, `assign_roles` changes nothing but roles, and in each cluster of two or more
  -- symbols exactly one leads, whose score no member exceeds; the others with news are laggards, and
  -- all the rest stand alone.
  pub assign_roles-AllElected :
      (threshold : F) (states : List (TickerState F))
      → All (λ s. IsNumber (score_of s)) states
      → (unranked (assign_roles threshold states) ≡ unranked states)
        × AllElected (assign_roles threshold states) (clusters_of threshold states)
  unfolding assign_roles IsKeyed
  assign_roles-AllElected threshold states numbers =
      let cs = clusters_of threshold states in
      let filed_ok = (clusters_of-IsFiled threshold states).0 in
      let root = root_of threshold states in
      let n = length states + 0 in
      (
        unranked-elect_all cs states,
        elect_all-AllElected cs states
            (IsFiled-IsApart root n cs filed_ok (gather-IsKeyed _ _ _ _ [] tt))
            (λ x m. IsIndex-of_lt x states (ground (arith, in_any-key root n x cs filed_ok m)))
            (leader_score-IsNumber states numbers),
      )
