-- ===== src/Oracle/Prices.antt =====
-- Publishing and reading prices of contracts/price_oracle/src/lib.rs.
use commitlabs_contracts.Prelude.{
  ℕ, ◌-◌, ◌^◌, Option, none, some, List, [], ◌∷◌, ltb, ◌==◌, ◌&&◌, ◌||◌, update, nat_key,
  if◌then◌else◌, unwrap_or,
}
use commitlabs_contracts.Prelude.Int.{ℤ, pos, ltb_ℤ, leb_ℤ, ◌*ℤ◌, ◌/ℤ◌}
use commitlabs_contracts.Shared.Outcome
use commitlabs_contracts.Shared.Outcome.{Result, ok, panic, require, not_whitelisted, ◌>>=◌, ◌>>◌}
use commitlabs_contracts.Shared.Math
use commitlabs_contracts.Shared.Validation.{require_non_negative}
use commitlabs_contracts.Core.Types.{Address, Env}
use commitlabs_contracts.Core.Store.{require_auth}
use commitlabs_contracts.Oracle.Types.{
  Oracle, PriceData, fail_if, or_fail, price_not_found, stale_price, invalid_price,
  invalid_staleness,
}
use commitlabs_contracts.Oracle.Store.{read_config}

module _ (env : Env) where
  unfoldable pub require_whitelisted : (caller : Address) → Oracle → Result (Unit {0})
  unfolding require_auth
  require_whitelisted caller s = do
    require_auth env caller
    require (s.oracle_whitelist caller) not_whitelisted

  unfoldable pub set_price :
      (caller asset : Address) (price : ℤ) (decimals : ℕ) → Oracle → Result Oracle
  unfolding require_whitelisted require_non_negative
  set_price caller asset price decimals s = do
    require_whitelisted caller s
    require_non_negative price
    let data' : PriceData = record { price = price; updated_at = env.now; decimals = decimals }
    ok (record s { price = update s.price asset (some data') })

  unfoldable pub get_price_valid :
      (asset : Address) (max_staleness_override : Option ℕ) → Oracle → Result PriceData
  unfolding read_config
  get_price_valid asset max_staleness_override s = do
    found ← or_fail (s.price asset) price_not_found
    fail_if (ltb_ℤ found.price (pos 0)) invalid_price
    let config = read_config s
    let max_staleness = unwrap_or max_staleness_override config.max_staleness_seconds
    fail_if (ltb env.now found.updated_at || ltb max_staleness (env.now - found.updated_at))
        stale_price
    ok found

  -- `if let Some(prev) = previous_data { … }`
  unfoldable pub check_variation :
      Option PriceData → (found : PriceData) (max_variation : ℕ) → Result (Unit {0})
  check_variation none found max_variation = ok tt
  check_variation (some prev) found max_variation =
      if ltb prev.updated_at found.updated_at && ltb_ℤ (pos 0) prev.price
      then (Math.calculate_percentage_change prev.price found.price >>= λ variation.
          fail_if (ltb_ℤ (pos max_variation) variation) stale_price)
      else ok tt

  -- `if let Some(max_variation) = max_price_variation_percent { … }`
  unfoldable pub check_max_variation :
      (asset : Address) (found : PriceData) → Option ℕ → Oracle → Result (Unit {0})
  unfolding check_variation
  check_max_variation asset found none s = ok tt
  check_max_variation asset found (some max_variation) s = do
    fail_if (ltb 100 max_variation) invalid_staleness
    check_variation (s.price asset) found max_variation

  unfoldable pub get_price_for_commitment :
      (asset : Address) (max_price_variation_percent : Option ℕ) → Oracle → Result PriceData
  unfolding get_price_valid check_max_variation
  get_price_for_commitment asset max_price_variation_percent s = do
    found ← get_price_valid asset (some 300) s
    fail_if (leb_ℤ found.price (pos 0)) invalid_price
    check_max_variation asset found max_price_variation_percent s
    ok found

  -- The price in 8 decimals: the powers and the product are `i128`.
  unfoldable pub eight_decimals : PriceData → Result ℤ
  eight_decimals found =
      if found.decimals == 8
      then ok found.price
      else (if ltb found.decimals 8
          then (Math.checked (pos (10 ^ (8 - found.decimals))) Outcome.arithmetic_overflow
              >>= λ power. Math.checked (found.price *ℤ power) Outcome.arithmetic_overflow)
          else (Math.checked (pos (10 ^ (found.decimals - 8))) Outcome.arithmetic_overflow
              >>= λ power. ok (found.price /ℤ power)))

  -- `if let Some(min_price) = min_price_usd { … }`
  unfoldable pub check_min_price : (found : PriceData) → Option ℤ → Result (Unit {0})
  unfolding eight_decimals
  check_min_price found none = ok tt
  check_min_price found (some min_price) = do
    fail_if (leb_ℤ min_price (pos 0)) invalid_price
    oracle_price_8dec ← eight_decimals found
    fail_if (ltb_ℤ oracle_price_8dec min_price) invalid_price

  unfoldable pub get_price_for_marketplace :
      (asset : Address) (min_price_usd : Option ℤ) → Oracle → Result PriceData
  unfolding get_price_valid check_min_price
  get_price_for_marketplace asset min_price_usd s = do
    found ← get_price_valid asset (some 1800) s
    fail_if (leb_ℤ found.price (pos 0)) invalid_price
    check_min_price found min_price_usd
    ok found

  unfoldable pub get_batch_prices :
      (assets : List Address) (max_staleness_seconds : ℕ)
      → Oracle
      → Result (List (Address × PriceData))
  unfolding get_price_valid
  get_batch_prices [] max_staleness_seconds s = ok []
  get_batch_prices (asset ∷ assets) max_staleness_seconds s = do
    found ← get_price_valid asset (some max_staleness_seconds) s
    results ← get_batch_prices assets max_staleness_seconds s
    ok ((asset, found) ∷ results)

  -- The staleness that is allowed for an operation of a value in 8 decimals.
  unfoldable pub staleness_for : (operation_value_usd : ℤ) → ℕ
  staleness_for operation_value_usd =
      if ltb_ℤ (pos 100000000000) operation_value_usd
      then 60
      else (if ltb_ℤ (pos 10000000000) operation_value_usd then 300 else 900)

  unfoldable pub get_price_high_value :
      (asset : Address) (operation_value_usd : ℤ) (max_deviation_percent : ℕ)
      → Oracle
      → Result PriceData
  unfolding get_price_valid staleness_for
  get_price_high_value asset operation_value_usd max_deviation_percent s = do
    found ← get_price_valid asset (some (staleness_for operation_value_usd)) s
    fail_if (leb_ℤ found.price (pos 0)) invalid_price
    ok found

-- A price that was never set reads as zeros.
unfoldable pub get_price : (asset : Address) → Oracle → PriceData
get_price asset s =
    unwrap_or (s.price asset) (record { price = pos 0; updated_at = 0; decimals = 0 })
