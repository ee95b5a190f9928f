-- ===== src/Nft/Store.antt =====
-- The administration of contracts/commitment_nft/src/lib.rs and its role checks.
use commitlabs_contracts.Prelude.{
  ℕ, Bool, true, false, not, some, is_some, [], ltb, ◌==◌, ◌||◌, update, nat_key,
}
use commitlabs_contracts.Shared.Outcome.{Result, ok, ◌>>=◌, ◌>>◌, or_panic}
use commitlabs_contracts.Shared.Outcome
use commitlabs_contracts.Shared.Switches
use commitlabs_contracts.Core.Types.{Address, Env}
use commitlabs_contracts.Core.Store.{require_auth, is_zero_address, is_the}
use commitlabs_contracts.Nft.Types.{
  Nfts, fail_if, or_fail, not_initialized, already_initialized, not_authorized, invalid_address,
  invalid_version, already_migrated, invalid_wasm_hash,
}

abbrev pub current_version : ℕ
current_version = 2

-- `is_authorized`: the admin, the core contract or a whitelisted minter.
unfoldable pub is_authorized : Address → Nfts → Bool
is_authorized contract_address s =
    is_the s.admin contract_address
    || is_the s.core_contract contract_address
    || s.authorized_minter contract_address

module _ (env : Env) where
  unfoldable pub require_admin : (caller : Address) → Nfts → Result (Unit {0})
  unfolding require_auth
  require_admin caller s = do
    require_auth env caller
    admin ← or_fail s.admin not_initialized
    fail_if (not (caller == admin)) not_authorized

  unfoldable pub require_core_contract_caller : (caller : Address) → Nfts → Result (Unit {0})
  unfolding require_auth
  require_core_contract_caller caller s = do
    require_auth env caller
    core_contract ← or_fail s.core_contract not_initialized
    fail_if (not (caller == core_contract)) not_authorized

  unfoldable pub initialize : (admin : Address) → Nfts → Result Nfts
  unfolding require_auth is_zero_address
  initialize admin s = do
    fail_if (is_zero_address admin) invalid_address
    fail_if (is_some s.admin) already_initialized
    require_auth env admin
    ok (record s { admin = some admin; token_counter = 0; token_ids = []; paused = false })

  unfoldable pub pause : Nfts → Result Nfts
  unfolding require_auth Switches.pause
  pause s = do
    admin ← or_panic s.admin Outcome.not_initialized
    require_auth env admin
    paused ← Switches.pause s.paused
    ok (record s { paused = paused })

  unfoldable pub unpause : Nfts → Result Nfts
  unfolding require_auth Switches.unpause
  unpause s = do
    admin ← or_panic s.admin Outcome.not_initialized
    require_auth env admin
    paused ← Switches.unpause s.paused
    ok (record s { paused = paused })

  unfoldable pub set_core_contract : (core_contract : Address) → Nfts → Result Nfts
  unfolding require_auth is_zero_address
  set_core_contract core_contract s = do
    fail_if (is_zero_address core_contract) invalid_address
    admin ← or_fail s.admin not_initialized
    require_auth env admin
    ok (record s { core_contract = some core_contract })

  module _ (caller : Address) where
    unfoldable pub add_authorized_contract : (contract_address : Address) → Nfts → Result Nfts
    unfolding require_admin is_zero_address
    add_authorized_contract contract_address s = do
      require_admin caller s
      fail_if (is_zero_address contract_address) invalid_address
      ok (record s { authorized_minter = update s.authorized_minter contract_address true })

    unfoldable pub remove_authorized_contract : (contract_address : Address) → Nfts → Result Nfts
    unfolding require_admin
    remove_authorized_contract contract_address s = do
      require_admin caller s
      ok (record s { authorized_minter = update s.authorized_minter contract_address false })

    unfoldable pub set_admin : (new_admin : Address) → Nfts → Result Nfts
    unfolding require_admin is_zero_address
    set_admin new_admin s = do
      require_admin caller s
      fail_if (is_zero_address new_admin) invalid_address
      ok (record s { admin = some new_admin })

    -- The hash of 32 bytes is a number. The deployer replaces the code and leaves the storage.
    unfoldable pub upgrade : (new_wasm_hash : ℕ) → Nfts → Result Nfts
    unfolding require_admin
    upgrade new_wasm_hash s = do
      require_admin caller s
      fail_if (new_wasm_hash == 0) invalid_wasm_hash
      ok s

    -- The counters that are set to their defaults when absent read as those defaults already.
    unfoldable pub migrate : (from_version : ℕ) → Nfts → Result Nfts
    unfolding require_admin
    migrate from_version s = do
      require_admin caller s
      fail_if (s.version == current_version) already_migrated
      fail_if (not (from_version == s.version) || ltb current_version from_version) invalid_version
      ok (record s { version = current_version })

    unfoldable pub set_emergency_mode : (enabled : Bool) → Nfts → Result Nfts
    unfolding require_auth
    set_emergency_mode enabled s = do
      admin ← or_fail s.admin not_initialized
      require_auth env admin
      fail_if (not (caller == admin)) not_authorized
      ok (record s { emergency_mode = enabled })
