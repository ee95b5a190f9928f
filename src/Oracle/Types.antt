-- ===== src/Oracle/Types.antt =====
-- The data types of contracts/price_oracle/src/lib.rs and its storage.
use commitlabs_contracts.Prelude.{ℕ, Bool, Option}
use commitlabs_contracts.Prelude.Int.{ℤ}
use commitlabs_contracts.Shared.Outcome.{Result, reject_if, or_panic, contract_error}
use commitlabs_contracts.Core.Types.{Address}

pub data OracleError : Type 0 where
  not_initialized already_initialized unauthorized oracle_not_whitelisted : OracleError
  price_not_found stale_price invalid_price invalid_staleness : OracleError
  invalid_wasm_hash invalid_version already_migrated : OracleError

abbrev pub error_code : OracleError → ℕ
error_code not_initialized = 1
error_code already_initialized = 2
error_code unauthorized = 3
error_code oracle_not_whitelisted = 4
error_code price_not_found = 5
error_code stale_price = 6
error_code invalid_price = 7
error_code invalid_staleness = 8
error_code invalid_wasm_hash = 9
error_code invalid_version = 10
error_code already_migrated = 11

abbrev pub fail_if : Bool → OracleError → Result (Unit {0})
fail_if test e = reject_if test (contract_error (error_code e))

abbrev pub or_fail : {A : Type 0} → Option A → OracleError → Result A
or_fail o e = or_panic o (contract_error (error_code e))

pub record PriceData : Type 0 where
  pub price : ℤ
  pub updated_at : ℕ
  pub decimals : ℕ

pub record OracleConfig : Type 0 where
  pub max_staleness_seconds : ℕ

-- The storage, one field for each `DataKey`. `max_staleness_seconds` is the key of an older version.
pub record Oracle : Type 0 where
  pub admin : Option Address
  pub max_staleness_seconds : Option ℕ
  pub oracle_whitelist : Address → Bool
  pub price : Address → Option PriceData
  pub oracle_config : Option OracleConfig
  pub version : ℕ
