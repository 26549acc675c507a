-- ===== src/Learning/Efficiency/Goal.antt =====
-- bot/src/bot/learning/efficiency.py, `_trades_to_goal`: the first trade that reaches the goal.
use mathlib.Core.Path.{subst}
use quick_stock_bot.Prelude.{
  ℕ, zero, suc, ◌+◌, ◌-◌, Bool, true, false, List, [], ◌∷◌, ◌≡◌, ◌⊎◌, inl, inr, refl, arith, All,
  any, take, length, Bool-cases,
}
use quick_stock_bot.Num.{Float, lit, ◌⊕◌, ◌≤?◌}
use quick_stock_bot.Learning.Efficiency.{trades_from, trades_to_goal}

module _ {F : Type 0} ⦃num : Float F⦄ where
  -- the profit after each trade
  pub running : F → List F → List F
  running acc [] = []
  running acc (pnl ∷ pnls) = (acc ⊕ pnl) ∷ running (acc ⊕ pnl) pnls

  -- `n` trades are taken to the first sum that reaches the target, or all of them
  pub record IsFirst (sums : List F) (target : F) (n : ℕ) (reached : Bool) : Type 0 where
    pub reached_eq : reached ≡ any (λ s. target ≤? s) sums
    pub last_reaches : reached ≡ any (λ s. target ≤? s) (take n sums)
    pub others_miss : All (λ s. (target ≤? s) ≡ false) (take (n - 1) sums)
    pub all_taken : (reached ≡ true) ⊎ (n ≡ length sums)

  later :
      (x : F) (sums : List F) (target : F) (n : ℕ) (reached : Bool)
      → (target ≤? x) ≡ false
      → IsFirst sums target n reached
      → IsFirst (x ∷ sums) target (suc n) reached
  later x sums target zero reached miss h = record {
    reached_eq = ground (arith, h.reached_eq);
    last_reaches = ground (arith, h.last_reaches);
    others_miss = tt;
    all_taken = ground (arith, h.all_taken);
  }
  later x sums target (suc n) reached miss h =
      let Misses : List F → ℕ → Type 0 = λ l k. All (λ s. (target ≤? s) ≡ false) (take k l) in
      let suc_pred : suc n ≡ suc (suc n) - 1 = ground arith in
      let pred_suc : suc n - 1 ≡ n = ground arith in
      record {
        reached_eq = ground (arith, h.reached_eq);
        last_reaches = ground (arith, h.last_reaches);
        others_miss =
            subst (Misses (x ∷ sums)) suc_pred (miss, subst (Misses sums) pred_suc h.others_miss);
        all_taken = ground (arith, h.all_taken);
      }

  trades_from-IsFirst :
      (taken : ℕ) (acc : F) (pnls : List F) (target : F)
      → (n : ℕ) × ((trades_from taken acc pnls target).0 ≡ taken + n)
        × IsFirst (running acc pnls) target n (trades_from taken acc pnls target).1
  unfolding trades_from running
  trades_from-IsFirst taken acc [] target = (
    0,
    ground arith,
    record { reached_eq = refl; last_reaches = refl; others_miss = tt; all_taken = inr refl },
  )
  trades_from-IsFirst taken acc (pnl ∷ pnls) target = elim (Bool-cases (target ≤? acc ⊕ pnl)) [
    | inl hit ↦ (
      1,
      rw hit (ground arith),
      record {
        reached_eq = rw hit refl;
        last_reaches = rw hit refl;
        others_miss = tt;
        all_taken = rw hit (inl refl);
      },
    )
    | inr miss ↦
        let (n, n_eq, first) = trades_from-IsFirst (suc taken) (acc ⊕ pnl) pnls target in
        (
          suc n,
          rw miss (ground arith),
          rw miss (later (acc ⊕ pnl) (running (acc ⊕ pnl) pnls) target n _ miss first),
        )
  ]

  -- The number of trades to the goal is the number of the first trade after which the profit of the
  -- day is at least the target, and the number of all trades if there is none; the flag says which.
  pub trades_to_goal-IsFirst :
      (pnls : List F) (target : F)
      → let (n, reached) = trades_to_goal pnls target in
        IsFirst (running (lit 0 0) pnls) target n reached
  unfolding trades_to_goal
  trades_to_goal-IsFirst pnls target =
      let (n, n_eq, first) = trades_from-IsFirst 0 (lit 0 0) pnls target in
      subst (λ k. IsFirst (running (lit 0 0) pnls) target k (trades_from 0 (lit 0 0) pnls target).1)
        (ground arith) first
