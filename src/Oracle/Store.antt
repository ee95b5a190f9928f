-- ===== src/Oracle/Store.antt =====
-- The administration of contracts/price_oracle/src/lib.rs.
use commitlabs_contracts.Prelude.{
  ℕ, true, false, not, none, some, is_some, ltb, ◌==◌, ◌||◌, update, nat_key, if◌then◌else◌,
  unwrap_or,
}
use commitlabs_contracts.Shared.Outcome.{Result, ok, ◌>>=◌, ◌>>◌}
use commitlabs_contracts.Core.Types.{Address, Env}
use commitlabs_contracts.Core.Store.{require_auth}
use commitlabs_contracts.Oracle.Types.{
  Oracle, OracleConfig, fail_if, or_fail, not_initialized, already_initialized, unauthorized,
  invalid_wasm_hash, invalid_version, already_migrated,
}

abbrev pub current_version : ℕ
current_version = 1

-- The configuration, or the key of the older version, or one hour.
unfoldable pub read_config : Oracle → OracleConfig
read_config s =
    unwrap_or s.oracle_config
      (record { max_staleness_seconds = unwrap_or s.max_staleness_seconds 3600 })

-- The older key is written only where it is present.
unfoldable pub set_max_staleness_internal : (seconds : ℕ) → Oracle → Oracle
set_max_staleness_internal seconds s = record s {
  oracle_config = some (record { max_staleness_seconds = seconds });
  max_staleness_seconds =
      if is_some s.max_staleness_seconds then some seconds else s.max_staleness_seconds;
}

unfoldable pub initialize : (admin : Address) → Oracle → Result Oracle
initialize admin s = do
  fail_if (is_some s.admin) already_initialized
  ok (record s {
    admin = some admin;
    oracle_config = some (record { max_staleness_seconds = 3600 });
    version = current_version;
  })

module _ (env : Env) (caller : Address) where
  unfoldable pub require_admin_result : Oracle → Result (Unit {0})
  unfolding require_auth
  require_admin_result s = do
    require_auth env caller
    admin ← or_fail s.admin not_initialized
    fail_if (not (caller == admin)) unauthorized

  unfoldable pub add_oracle : (oracle_address : Address) → Oracle → Result Oracle
  unfolding require_admin_result
  add_oracle oracle_address s = do
    require_admin_result s
    ok (record s { oracle_whitelist = update s.oracle_whitelist oracle_address true })

  unfoldable pub remove_oracle : (oracle_address : Address) → Oracle → Result Oracle
  unfolding require_admin_result
  remove_oracle oracle_address s = do
    require_admin_result s
    ok (record s { oracle_whitelist = update s.oracle_whitelist oracle_address false })

  unfoldable pub set_max_staleness : (seconds : ℕ) → Oracle → Result Oracle
  unfolding require_admin_result set_max_staleness_internal
  set_max_staleness seconds s = do require_admin_result s; ok (set_max_staleness_internal seconds s)

  unfoldable pub set_admin : (new_admin : Address) → Oracle → Result Oracle
  unfolding require_admin_result
  set_admin new_admin s = do require_admin_result s; ok (record s { admin = some new_admin })

  -- The hash of 32 bytes is a number. The deployer replaces the code and leaves the storage.
  unfoldable pub upgrade : (new_wasm_hash : ℕ) → Oracle → Result Oracle
  unfolding require_admin_result
  upgrade new_wasm_hash s = do
    require_admin_result s
    fail_if (new_wasm_hash == 0) invalid_wasm_hash
    ok s

  unfoldable pub migrate : (from_version : ℕ) → Oracle → Result Oracle
  unfolding require_admin_result read_config
  migrate from_version s = do
    require_admin_result s
    fail_if (s.version == current_version) already_migrated
    fail_if (not (from_version == s.version) || ltb current_version from_version) invalid_version
    let moved =
        if from_version == 0
        then record s { oracle_config = some (read_config s); max_staleness_seconds = none }
        else s
    ok (record moved { version = current_version })
