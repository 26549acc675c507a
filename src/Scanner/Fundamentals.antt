-- ===== src/Scanner/Fundamentals.antt =====
-- bot/src/bot/scanner/fundamentals.py. The answer of Finnhub, after any retries, is a parameter.
pub mod Caching
use quick_stock_bot.Prelude.{
  ℕ, Bool, true, false, String, List, [], ◌∷◌, Option, none, some, Result, Error, ok, err, ◌==◌,
  ◌&&◌, if◌then◌else◌,
}
use quick_stock_bot.Prelude.Int.{ℤ, pos}
use quick_stock_bot.Num.{Float, lit, ◌⊗◌, ◌<?◌}

-- what the lookup reads: the key in the environment, today's date, and `shareOutstanding` of the
-- reply, in millions
pub record FundamentalsSource (F W : Type 0) : Type 0 where
  pub env_key : Option String
  pub today : String
  pub profile2 : String → String → W → Result (Option F) × W

-- `_CACHE`: the symbol, the date and the answer
pub record CacheEntry : Type 0 where
  pub symbol : String
  pub date : String
  pub shares : Option ℤ

unfoldable pub find_cached : String → String → List CacheEntry → Option (Option ℤ)
find_cached symbol date [] = none
find_cached symbol date (e ∷ es) =
    if (e.symbol == symbol) && (e.date == date) then some e.shares else find_cached symbol date es

-- `a or b`, of keys that may be absent or empty
key_or : Option String → Option String → Option String
key_or none b = b
key_or (some a) b = if a == "" then b else some a

-- the world, and the cache of the process
pub record Scanning (W : Type 0) : Type 0 where
  pub world : W
  pub cache : List CacheEntry

module _ {F : Type 0} ⦃num : Float F⦄ where
  -- `int(x)`
  truncate : F → Result ℤ
  truncate x = elim (if x <? lit 0 0 then num.ceil x else num.floor x) [
    | none ↦ err Error.not_finite
    | some n ↦ ok n
  ]

  -- `int(float(outstanding) * 1_000_000)`, unless there is none
  shares_of : Option F → Result (Option ℤ)
  unfolding truncate
  shares_of none = ok none
  shares_of (some outstanding) =
      if num.eq outstanding (lit 0 0)
      then ok none
      else elim (truncate (outstanding ⊗ lit 1_000_000 0)) [ ok n ↦ ok (some n) | err e ↦ err e ]

  -- the answer that is kept: a failed request is an unknown float
  kept : Result (Option F) → Option ℤ
  unfolding shares_of
  kept (err e) = none
  kept (ok outstanding) = elim (shares_of outstanding) [ ok shares ↦ shares | err e ↦ none ]

  module _ {W : Type 0} (source : FundamentalsSource F W) where
    open source use {env_key, today, profile2}

    fetch_and_keep : String → String → Scanning W → Option ℤ × Scanning W
    unfolding kept
    fetch_and_keep symbol key s =
        let (reply, world) = profile2 symbol key s.world in
        let shares = kept reply in
        (
          shares,
          record {
            world = world;
            cache = record { symbol = symbol; date = today; shares = shares } ∷ s.cache;
          },
        )

    pub lookup_with : String → String → Scanning W → Option ℤ × Scanning W
    unfolding fetch_and_keep
    lookup_with symbol key s = elim (find_cached symbol today s.cache) [
      | some shares ↦ (shares, s)
      | none ↦ fetch_and_keep symbol key s
    ]

    unfoldable pub get_float_shares : String → Option String → Scanning W → Option ℤ × Scanning W
    unfolding key_or lookup_with
    get_float_shares symbol api_key s = elim (key_or api_key env_key) [
      | none ↦ (none, s)
      | some key ↦ if key == "" then (none, s) else lookup_with symbol key s
    ]
