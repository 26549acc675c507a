-- ===== src/Scanner/Leaders/Groups.antt =====
-- The clusters of bot/src/bot/scanner/leaders.py are the classes of linked symbols.
use quick_stock_bot.Prelude.{
  ℕ, zero, suc, ◌+◌, ◌*◌, ◌<◌, ◌≡◌, ap, ◌↔◌, Bool, true, false, ◌||◌, ◌&&◌, nat_eq, if◌then◌else◌,
  arith, Bool-cases, inl, inr, List, [], ◌∷◌, ◌++◌, length,
}
use quick_stock_bot.Num.{Float}
use quick_stock_bot.Scanner.State.{TickerState}
use quick_stock_bot.Scanner.Leaders.{
  Clusters, Parents, find, push, gather, clusters_of, join_all, fuel_for,
}
use quick_stock_bot.Scanner.Leaders.Forest.{Represents, identity-Represents, find-Represents}
use quick_stock_bot.Scanner.Leaders.Links.{
  Linked, IsPair, get_elem?, get_elem?-Reads, merge_all, merge_all-Linked, pair_count-le,
  join_all-Represents,
}

abbrev pub is_member : ℕ → List ℕ → Bool
is_member x [] = false
is_member x (y ∷ ys) = nat_eq y x || is_member x ys

-- some cluster has both indices
abbrev pub together : ℕ → ℕ → Clusters → Bool
together x y [] = false
together x y ((_, members) ∷ rest) =
    (is_member x members && is_member y members) || together x y rest

is_member-push :
    (x i : ℕ) (members : List ℕ)
    → is_member x (members ++ (i ∷ [])) ≡ (is_member x members || nat_eq i x)
is_member-push x i [] = ground arith
is_member-push x i (y ∷ ys) = ground (arith, is_member-push x i ys)

-- the cluster of a root has the index
abbrev pub filed : ℕ → ℕ → Clusters → Bool
filed root x [] = false
filed root x ((key, members) ∷ rest) =
    if nat_eq key root then is_member x members else filed root x rest

filed-push :
    (root i key x : ℕ) (cs : Clusters)
    → filed key x (push root i cs) ≡ (filed key x cs || (nat_eq root key && nat_eq i x))
unfolding push
filed-push root i key x [] = ground arith
filed-push root i key x ((k, members) ∷ rest) =
    ground (arith, is_member-push x i members, filed-push root i key x rest)

-- every member is below `n` and has the key as its root
abbrev pub IsFiled : (ℕ → ℕ) → ℕ → Clusters → Type 0
IsFiled root n [] = Unit
IsFiled root n ((key, members) ∷ rest) =
    ((x : ℕ) → is_member x members ≡ true → (root x ≡ key) × (x < n)) × IsFiled root n rest

together_complete :
    (key x y : ℕ) (cs : Clusters)
    → filed key x cs ≡ true
    → filed key y cs ≡ true
    → together x y cs ≡ true
together_complete key x y [] ex ey = ex
together_complete key x y ((k, members) ∷ rest) ex ey =
    ground (arith, together_complete key x y rest)

module _ (root : ℕ → ℕ) where
  IsFiled-suc : (n : ℕ) (cs : Clusters) → IsFiled root n cs → IsFiled root (suc n) cs
  IsFiled-suc n [] h = tt
  IsFiled-suc n ((key, members) ∷ rest) (h, hs) =
      (λ x e. ground (arith, h x e), IsFiled-suc n rest hs)

  IsFiled-push :
      (n : ℕ) (cs : Clusters) → IsFiled root n cs → IsFiled root (suc n) (push (root n) n cs)
  unfolding push
  IsFiled-push n [] h = (λ x e. ground arith, tt)
  IsFiled-push n ((key, members) ∷ rest) (h, hs) = elim (Bool-cases (nat_eq key (root n))) [
    | inl same ↦
        rw same (λ x e. ground (arith, is_member-push x n members, h x, e), IsFiled-suc n rest hs)
    | inr other ↦ rw other (λ x e. ground (arith, h x e), IsFiled-push n rest hs)
  ]

  together_sound :
      (n x y : ℕ) (cs : Clusters)
      → IsFiled root n cs
      → together x y cs ≡ true
      → (root x ≡ root y) × (x < n) × (y < n)
  together_sound n x y [] h e = absurd (ground arith)
  together_sound n x y ((key, members) ∷ rest) (h, hs) e =
      ground (arith, h x, h y, together_sound n x y rest hs)

  -- the second loop: the clusters after it are in order, and every index is filed under its root
  gather_files :
      (rounds fuel i bound : ℕ) (depth : ℕ → ℕ) (parent : Parents) (cs : Clusters)
      → Represents root depth bound parent
      → bound < fuel
      → IsFiled root i cs
      → ((x : ℕ) → x < i → filed (root x) x cs ≡ true)
      → IsFiled root (rounds + i) (gather rounds fuel i parent cs)
        × ((x : ℕ) → x < rounds + i → filed (root x) x (gather rounds fuel i parent cs) ≡ true)
  unfolding gather
  gather_files zero fuel i bound depth parent cs r b h k =
      ((let e : 0 + i ≡ i = omega arith in rw e h), λ x lt. k x (omega arith))
  gather_files (suc rounds) fuel i bound depth parent cs r b h k =
      let (at_root, r') = find-Represents fuel i parent r (ground (arith, r.depth_le i)) in
      let parent' = (find fuel i parent).1 in
      let e : suc rounds + i ≡ rounds + suc i = omega arith in
      rw (at_root, e)
        (gather_files rounds fuel (suc i) bound depth parent' (push (root i) i cs) r' b
          (IsFiled-push i cs h) (λ x lt. ground (arith, k x, filed-push (root i) i (root x) x cs)))

module _ {F : Type 0} ⦃num : Float F⦄ (threshold : F) (states : List (TickerState F)) where
  -- the roots after the first loop
  pub root_of : ℕ → ℕ
  root_of = merge_all threshold 0 states (λ i. i)

  pub clusters_of-IsFiled :
      IsFiled root_of (length states + 0) (clusters_of threshold states)
      × ((x : ℕ)
          → x < length states + 0
          → filed (root_of x) x (clusters_of threshold states) ≡ true)
  unfolding clusters_of fuel_for root_of
  clusters_of-IsFiled =
      let n = length states in
      let (depth, bound, le, r) =
        join_all-Represents threshold (suc (n * n)) 0 states 0 (λ i. i) (λ i. 0) (λ i. i)
          identity-Represents (omega (arith, pair_count-le threshold states)) in
      let parent = join_all threshold (suc (n * n)) 0 states (λ i. i) in
      gather_files root_of n (suc (n * n)) 0 bound depth parent [] r
        (omega (arith, pair_count-le threshold states)) tt (λ z lt. absurd (omega arith))

  -- Two symbols stand in one cluster exactly when a chain of pairs, each as similar as the threshold
  -- asks, links them. The loops of `find` end before their fuel does.
  pub clusters_of-Linked :
      (x y : ℕ)
      → x < length states
      → y < length states
      → (together x y (clusters_of threshold states) ≡ true)
        ↔ Linked (IsPair threshold (get_elem? states)) x y
  unfolding root_of
  clusters_of-Linked x y hx hy =
      let cs = clusters_of threshold states in
      let (filed_ok, all_filed) = clusters_of-IsFiled in
      let link =
        merge_all-Linked threshold (get_elem? states) states
          (get_elem?-Reads (get_elem? states) 0 states (λ k. ap (get_elem? states) (omega arith))) x
          y in
      (
        λ e. link.0 (together_sound root_of (length states + 0) x y cs filed_ok e).0,
        λ l.
            let same : root_of x ≡ root_of y = link.1 l in
            together_complete (root_of x) x y cs (all_filed x (omega arith))
              (rw same (all_filed y (omega arith))),
      )
