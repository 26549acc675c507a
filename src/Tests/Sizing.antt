-- ===== src/Tests/Sizing.antt =====
-- bot/src/bot/engine/sizing.py on an account of 100 000.
use quick_stock_bot.Prelude.{false, none, ok, ◌≡◌, ◌≢◌, refl, arith}
use quick_stock_bot.Prelude.Int.{pos, floor_div, ◌+ℤ◌, ◌-ℤ◌, ◌*ℤ◌}
use quick_stock_bot.Num.Fixed.{Fixed, fixed_float}
use quick_stock_bot.Engine.Sizing.{SizingResult, sizing_risk_pct, compute_shares}
use quick_stock_bot.Engine.Sizing.Laws.{IsSized, compute_shares-IsSized}
use quick_stock_bot.Tests.Fixtures.{c, default_config}

-- the position cap of 250 shares is below the 2000 that the risk allows
abbrev sizing : SizingResult Fixed
sizing = record {
  shares = pos 250;
  effective_risk_pct = c 200;
  per_share_risk = c 100;
  max_risk_dollars = c 200_000;
  position_value = c 2_500_000;
  skipped = false;
  skip_reason = "";
}

run-sizing : compute_shares (c 10_000_000) (c 10_000_000) (c 10_000) default_config ≡ ok sizing
unfolding compute_shares sizing_risk_pct fixed_float floor_div ◌+ℤ◌ ◌-ℤ◌ ◌*ℤ◌
run-sizing = refl

compute_shares-IsSized_example :
    IsSized (c 10_000_000) (c 10_000_000) (c 10_000) default_config sizing
compute_shares-IsSized_example =
    compute_shares-IsSized (c 10_000_000) (c 10_000_000) (c 10_000) default_config run-sizing refl

pub floor_finite : (x : Fixed) → fixed_float.floor x ≢ none
unfolding fixed_float
floor_finite x e = ground arith
