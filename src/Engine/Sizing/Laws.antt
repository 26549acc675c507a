-- ===== src/Engine/Sizing/Laws.antt =====
-- The size of an entry stays under every cap, and the risk under the daily limit.
use quick_stock_bot.Prelude.{
  true, false, some, none, ok, ◌≡◌, ◌≢◌, ◌↔◌, inl, inr, arith, Returns, Returns-and_then,
  Returns-or_raise, Option-cases, Bool-cases,
}
use quick_stock_bot.Prelude.Int.{ℤ, pos, ltb_ℤ, min_ℤ, ◌≤ℤ◌}
use quick_stock_bot.Num.{Float, lit, ◌⊗◌, ◌⊘◌, ◌≤?◌, ◌≼◌, IsNumber, IsOrdered, lt-eq-not-le}
use quick_stock_bot.Engine.Config.{ExecutionConfig, effective_risk_pct}
use quick_stock_bot.Engine.Sizing.{SizingResult, sizing_risk_pct, cap_shares, compute_shares}

module _ {F : Type 0} ⦃num : Float F⦄ where
  -- the three quotients that bound the shares
  abbrev pub risk_quotient : F → F → ExecutionConfig F → F
  risk_quotient equity price cfg =
      (equity ⊗ (sizing_risk_pct cfg ⊘ lit 100 0)) ⊘ (price ⊗ (cfg.stop_loss_pct ⊘ lit 100 0))

  abbrev pub position_quotient : F → F → ExecutionConfig F → F
  position_quotient buying_power price cfg =
      (buying_power ⊗ (cfg.position_size_pct ⊘ lit 100 0)) ⊘ price

  -- What an entry that is not skipped buys.
  pub record IsSized (equity buying_power price : F) (cfg : ExecutionConfig F) (r : SizingResult F)
      : Type 0 where
    pub by_risk : ℤ
    pub by_position : ℤ
    pub by_power : ℤ
    pub risk_floor : num.floor (risk_quotient equity price cfg) ≡ some by_risk
    pub position_floor : num.floor (position_quotient buying_power price cfg) ≡ some by_position
    pub power_floor : num.floor (buying_power ⊘ price) ≡ some by_power
    pub least : r.shares ≡ min_ℤ (min_ℤ by_risk by_position) by_power
    pub positive : pos 1 ≤ℤ r.shares
    pub value : r.position_value ≡ num.of_int r.shares ⊗ price

  module _ (equity buying_power price : F) (cfg : ExecutionConfig F) {r : SizingResult F} where
    IsSized-of_floors :
        (a b c : ℤ)
        → num.floor (risk_quotient equity price cfg) ≡ some a
        → num.floor (position_quotient buying_power price cfg) ≡ some b
        → num.floor (buying_power ⊘ price) ≡ some c
        → compute_shares equity buying_power price cfg ≡ ok r
        → r.skipped ≡ false
        → IsSized equity buying_power price cfg r
    unfolding compute_shares
    IsSized-of_floors a b c ea eb ec h taken = record {
      by_risk = a;
      by_position = b;
      by_power = c;
      risk_floor = ea;
      position_floor = eb;
      power_floor = ec;
      least = ground arith;
      positive = ground arith;
      value = ground arith;
    }

    -- An entry that is sized and not skipped buys at least one share, and exactly the least of
    -- three caps: what the risk allows, what the position size allows, what buying power allows.
    pub compute_shares-IsSized :
        compute_shares equity buying_power price cfg ≡ ok r
        → r.skipped ≡ false
        → IsSized equity buying_power price cfg r
    unfolding compute_shares
    compute_shares-IsSized h taken =
        elim (Option-cases (num.floor (risk_quotient equity price cfg))) [
          | inl e ↦ absurd (ground arith)
          | inr (a, ea) ↦
              elim (Option-cases (num.floor (position_quotient buying_power price cfg))) [
                | inl e ↦ absurd (ground arith)
                | inr (b, eb) ↦ elim (Option-cases (num.floor (buying_power ⊘ price))) [
                  | inl e ↦ absurd (ground arith)
                  | inr (c, ec) ↦ IsSized-of_floors a b c ea eb ec h taken
                ]
              ]
        ]

    -- A result is skipped exactly when it buys nothing.
    pub skipped_iff :
        compute_shares equity buying_power price cfg ≡ ok r
        → (r.skipped ≡ true) ↔ (r.shares ≡ pos 0)
    unfolding compute_shares
    skipped_iff h = (ground arith, ground arith)

  -- The two computations of the risk, here and in the configuration, agree on numbers, and the risk
  -- is never above the daily loss limit.
  pub sizing_risk_pct_agrees :
      (laws : IsOrdered F) (cfg : ExecutionConfig F)
      → IsNumber cfg.risk_per_trade_pct
      → IsNumber (num.abs cfg.daily_max_loss_pct)
      → (sizing_risk_pct cfg ≡ effective_risk_pct cfg)
        × (sizing_risk_pct cfg ≼ num.abs cfg.daily_max_loss_pct)
  unfolding sizing_risk_pct effective_risk_pct
  sizing_risk_pct_agrees laws cfg nr nd = ground (
    arith,
    lt-eq-not-le laws cfg.risk_per_trade_pct (num.abs cfg.daily_max_loss_pct) nr nd,
    laws.le_of_lt cfg.risk_per_trade_pct (num.abs cfg.daily_max_loss_pct),
  )

  cap_shares-Returns :
      (risk_pct per_share_risk max_risk_dollars buying_power price : F) (shares : ℤ)
      (cfg : ExecutionConfig F)
      → num.floor ((buying_power ⊗ (cfg.position_size_pct ⊘ lit 100 0)) ⊘ price) ≢ none
      → num.floor (buying_power ⊘ price) ≢ none
      → num.eq price (lit 0 0) ≡ false
      → Returns (cap_shares risk_pct per_share_risk max_risk_dollars buying_power price shares cfg)
  unfolding cap_shares
  cap_shares-Returns risk_pct per_share_risk max_risk_dollars buying_power price shares cfg
        by_position by_power p =
      rw p (
        Returns-and_then _ _ (Returns-or_raise _ _ by_position)
          λ b eb. Returns-and_then _ _ (Returns-or_raise _ _ by_power) λ c ec. tt)

  -- the floors that sizing takes are of finite numbers
  pub record IsSizable (equity buying_power price : F) (cfg : ExecutionConfig F) : Type 0 where
    pub by_risk :
        ((price ⊗ (cfg.stop_loss_pct ⊘ lit 100 0)) ≤? lit 0 0) ≡ false
        → num.floor (risk_quotient equity price cfg) ≢ none
    pub by_position : num.floor (position_quotient buying_power price cfg) ≢ none
    pub by_power : num.floor (buying_power ⊘ price) ≢ none

  -- If the floors that sizing takes are of finite numbers, and the price is not zero, sizing raises
  -- nothing.
  pub compute_shares-Returns :
      (equity buying_power price : F) (cfg : ExecutionConfig F)
      → IsSizable equity buying_power price cfg
      → num.eq price (lit 0 0) ≡ false
      → Returns (compute_shares equity buying_power price cfg)
  unfolding compute_shares
  compute_shares-Returns equity buying_power price cfg finite p =
      elim (Bool-cases ((price ⊗ (cfg.stop_loss_pct ⊘ lit 100 0)) ≤? lit 0 0)) [
        | inl flat ↦ rw flat tt
        | inr risky ↦ rw risky (
            Returns-and_then _ _ (Returns-or_raise _ _ (finite.by_risk risky)) λ n en.
              elim (Bool-cases (ltb_ℤ n (pos 1))) [
                | inl few ↦ rw few tt
                | inr more ↦ rw more (
                    cap_shares-Returns _ _ _ buying_power price n cfg finite.by_position
                      finite.by_power p)
              ])
      ]
