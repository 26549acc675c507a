-- ===== src/Engine/Sizing.antt =====
-- bot/src/bot/engine/sizing.py: how many shares an entry may buy.
pub mod Laws
use quick_stock_bot.Prelude.{
  Bool, true, false, String, Result, ok, Error, and_then, or_raise, if◌then◌else◌,
}
use quick_stock_bot.Prelude.Int.{ℤ, pos, ltb_ℤ, min_ℤ}
use quick_stock_bot.Num.{Float, lit, ◌⊗◌, ◌⊘◌, ◌<?◌, ◌≤?◌, divide}
use quick_stock_bot.Engine.Config.{ExecutionConfig}

pub record SizingResult (F : Type 0) : Type 0 where
  pub shares : ℤ
  pub effective_risk_pct : F
  pub per_share_risk : F
  pub max_risk_dollars : F
  pub position_value : F
  pub skipped : Bool
  pub skip_reason : String

module _ {F : Type 0} ⦃num : Float F⦄ where
  -- `eff_risk_pct` of `compute_shares`
  unfoldable pub sizing_risk_pct : ExecutionConfig F → F
  sizing_risk_pct cfg =
      let daily_abs = num.abs cfg.daily_max_loss_pct in
      if cfg.override_risk_per_trade
      then (if daily_abs ≤? cfg.risk_per_trade_pct then daily_abs else cfg.risk_per_trade_pct)
      else daily_abs

  -- `math.floor(x)`
  abbrev floor_of : F → Result ℤ
  floor_of x = or_raise Error.not_finite (num.floor x)

  skip_with : F → F → F → String → SizingResult F
  skip_with risk_pct per_share_risk max_risk_dollars reason = record {
    shares = pos 0;
    effective_risk_pct = risk_pct;
    per_share_risk = per_share_risk;
    max_risk_dollars = max_risk_dollars;
    position_value = lit 0 0;
    skipped = true;
    skip_reason = reason;
  }

  -- the last part: the shares after all caps
  capped : F → F → F → F → ℤ → SizingResult F
  unfolding skip_with
  capped risk_pct per_share_risk max_risk_dollars entry_price shares =
      if ltb_ℤ shares (pos 1)
      then skip_with risk_pct per_share_risk max_risk_dollars "shares < 1 after buying_power cap"
      else record {
        shares = shares;
        effective_risk_pct = risk_pct;
        per_share_risk = per_share_risk;
        max_risk_dollars = max_risk_dollars;
        position_value = num.of_int shares ⊗ entry_price;
        skipped = false;
        skip_reason = "";
      }

  -- the two caps by buying power
  cap_shares : F → F → F → F → F → ℤ → ExecutionConfig F → Result (SizingResult F)
  unfolding capped
  cap_shares risk_pct per_share_risk max_risk_dollars buying_power entry_price shares cfg =
      and_then (divide (buying_power ⊗ (cfg.position_size_pct ⊘ lit 100 0)) entry_price) λ bp_cap.
        and_then (floor_of bp_cap) λ bp_cap_shares.
          and_then (divide buying_power entry_price) λ avail.
            and_then (floor_of avail) λ avail_cap_shares. ok (
              capped risk_pct per_share_risk max_risk_dollars entry_price
                (min_ℤ (min_ℤ shares bp_cap_shares) avail_cap_shares))

  unfoldable pub compute_shares : F → F → F → ExecutionConfig F → Result (SizingResult F)
  unfolding sizing_risk_pct cap_shares skip_with
  compute_shares equity buying_power entry_price cfg =
      let risk_pct = sizing_risk_pct cfg in
      let per_share_risk = entry_price ⊗ (cfg.stop_loss_pct ⊘ lit 100 0) in
      let max_risk_dollars = equity ⊗ (risk_pct ⊘ lit 100 0) in
      if per_share_risk ≤? lit 0 0
      then ok (skip_with risk_pct per_share_risk (lit 0 0) "per_share_risk <= 0")
      else and_then (floor_of (max_risk_dollars ⊘ per_share_risk)) λ shares.
        if ltb_ℤ shares (pos 1)
        then ok (skip_with risk_pct per_share_risk max_risk_dollars "shares < 1")
        else cap_shares risk_pct per_share_risk max_risk_dollars buying_power entry_price shares cfg
