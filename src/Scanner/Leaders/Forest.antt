-- ===== src/Scanner/Leaders/Forest.antt =====
-- The union-find of bot/src/bot/scanner/leaders.py refines a partition, given by the function from
-- each index to its representative. Path halving leaves the partition as it is, and the loop of
-- `find` ends.
use quick_stock_bot.Prelude.{
  ℕ, zero, suc, ◌≤◌, ◌<◌, ◌≡◌, ◌≢◌, refl, nat_eq, if◌then◌else◌, arith, Bool-cases, inl, inr, ◌&&◌,
  not,
}
use quick_stock_bot.Scanner.Leaders.{Parents, set_parent, find, union}

-- `root` is the partition of `parent`; `depth` bounds the steps to the root, and is at most `bound`.
pub record Represents (root depth : ℕ → ℕ) (bound : ℕ) (parent : Parents) : Type 0 where
  pub parent_root : (x : ℕ) → parent (root x) ≡ root x
  pub root_parent : (x : ℕ) → root (parent x) ≡ root x
  pub root_of_fixed : (x : ℕ) → parent x ≡ x → root x ≡ x
  pub depth_root : (x : ℕ) → depth (root x) ≡ 0
  pub depth_parent : (x : ℕ) → parent x ≢ x → depth (parent x) < depth x
  pub depth_le : (x : ℕ) → depth x ≤ bound

pub identity-Represents : Represents (λ x. x) (λ x. 0) 0 (λ x. x)
identity-Represents = record {
  parent_root = λ x. refl;
  root_parent = λ x. refl;
  root_of_fixed = λ x h. refl;
  depth_root = λ x. refl;
  depth_parent = λ x h. absurd (h refl);
  depth_le = λ x. omega arith;
}

module _ {root depth : ℕ → ℕ} {bound : ℕ} where
  -- one round of the loop
  halve-Represents :
      (i : ℕ) (parent : Parents) (r : Represents root depth bound parent)
      → parent i ≢ i
      → Represents root depth bound (set_parent parent i (parent (parent i)))
  halve-Represents i parent r h = record {
    parent_root = λ x. ground (arith, r.parent_root x, h);
    root_parent = λ x. ground (arith, r.root_parent x, r.root_parent i, r.root_parent (parent i));
    root_of_fixed =
        λ x e. ground (arith, h, r.root_of_fixed x, r.depth_parent i, r.depth_parent (parent i));
    depth_root = r.depth_root;
    depth_parent =
        λ x e. ground (arith, h, e, r.depth_parent x, r.depth_parent i, r.depth_parent (parent i));
    depth_le = r.depth_le;
  }

  pub find-Represents :
      (fuel i : ℕ) (parent : Parents) (r : Represents root depth bound parent)
      → depth i < fuel
      → ((find fuel i parent).0 ≡ root i) × Represents root depth bound (find fuel i parent).1
  unfolding find
  find-Represents zero i parent r h = absurd (omega arith)
  find-Represents (suc fuel) i parent r h = elim (Bool-cases (nat_eq (parent i) i)) [
    | inl top ↦ rw top (ground (arith, r.root_of_fixed i), r)
    | inr more ↦
        let unfixed : parent i ≢ i = ground arith in
        let r' = halve-Represents i parent r unfixed in
        let next = parent (parent i) in
        let (at_root, after) =
          find-Represents fuel next (set_parent parent i next) r'
            (ground (arith, unfixed, r.depth_parent i, r.depth_parent (parent i))) in
        rw more (ground (arith, at_root, r.root_parent i, r.root_parent (parent i)), after)
  ]

-- the partition in which the parts of `i` and `j` are one
abbrev pub merge : (ℕ → ℕ) → ℕ → ℕ → ℕ → ℕ
merge root i j x = if nat_eq (root x) (root i) then root j else root x

abbrev pub deepen : (ℕ → ℕ) → (ℕ → ℕ) → ℕ → ℕ → ℕ → ℕ
deepen root depth i j x =
    if nat_eq (root x) (root i) && not (nat_eq (root i) (root j)) then suc (depth x) else depth x

module _ {root depth : ℕ → ℕ} {bound : ℕ} (i j : ℕ) where
  link-Represents :
      (parent : Parents)
      → Represents root depth bound parent
      → Represents
          (merge root i j)
          (deepen root depth i j)
          (suc bound)
          (set_parent parent (root i) (root j))
  link-Represents parent r =
      let idem : (x : ℕ) → root (root x) ≡ root x =
        λ x. r.root_of_fixed (root x) (r.parent_root x) in
      record {
        parent_root = λ x. ground (arith, r.parent_root x, r.parent_root j, r.parent_root i);
        root_parent = λ x. ground (arith, r.root_parent x, idem j, idem i);
        root_of_fixed = λ x e. ground (arith, r.root_of_fixed x, idem j, idem i);
        depth_root = λ x. ground (arith, r.depth_root x, r.depth_root j, idem x, idem j);
        depth_parent = λ x e. ground (
          arith,
          e,
          r.depth_parent x,
          r.root_parent x,
          r.depth_root i,
          r.depth_root j,
          idem i,
          idem j,
        );
        depth_le = λ x. ground (arith, r.depth_le x);
      }

  pub union-Represents :
      (fuel : ℕ) (parent : Parents)
      → Represents root depth bound parent
      → bound < fuel
      → Represents (merge root i j) (deepen root depth i j) (suc bound) (union fuel i j parent)
  unfolding union
  union-Represents fuel parent r h =
      let (found_j, r') = find-Represents fuel j parent r (ground (arith, r.depth_le j)) in
      let parent' = (find fuel j parent).1 in
      let (found_i, r'') = find-Represents fuel i parent' r' (ground (arith, r.depth_le i)) in
      rw (found_j, found_i) (link-Represents (find fuel i parent').1 r'')
