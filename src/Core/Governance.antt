-- ===== src/Core/Governance.antt =====
-- Initialisation, roles, switches, limits and fees of contracts/commitment_core/src/lib.rs.
use commitlabs_contracts.Prelude.{
  ℕ, Bool, true, false, not, some, [], ltb, update, nat_key, is_some,
}
use commitlabs_contracts.Prelude.Int.{ℤ, pos, ltb_ℤ}
use commitlabs_contracts.Shared.Outcome.{Result, ok, ◌>>=◌, ◌>>◌}
use commitlabs_contracts.Shared.Math
use commitlabs_contracts.Shared.Fees.{bps_max}
use commitlabs_contracts.Shared.Validation.{require_positive}
use commitlabs_contracts.Shared.RateLimiting.{set_limit, set_exempt}
use commitlabs_contracts.Shared.Switches.{require_emergency}
use commitlabs_contracts.Shared.Switches
use commitlabs_contracts.Core.Types.{
  Address, already_initialized, unauthorized, invalid_fee_bps, zero_address_given,
  fee_recipient_not_set, insufficient_fees, fail_if, or_fail, Env, External, Core,
}
use commitlabs_contracts.Core.Store.{
  require_auth, is_zero_address, require_no_reentrancy, set_reentrancy_guard, require_admin,
  is_guardian, is_treasurer, is_operator, transfer_assets,
}

module _ {W : Type 0} where
  unfoldable pub initialize : (admin nft_contract : Address) → Core W → Result (Core W)
  initialize admin nft_contract s = do
    fail_if (is_some s.admin) already_initialized
    ok (record s {
      admin = some admin;
      nft_contract = some nft_contract;
      total_commitments = 0;
      total_value_locked = pos 0;
      all_commitment_ids = [];
      reentrancy_guard = false;
      paused = false;
      emergency_mode = false;
    })

module _ {W : Type 0} (env : Env) (caller : Address) where
  unfoldable pub pause : Core W → Result (Core W)
  unfolding require_auth is_operator Switches.pause
  pause s = do
    require_auth env caller
    fail_if (not (is_operator caller s)) unauthorized
    paused ← Switches.pause s.paused
    ok (record s { paused = paused })

  unfoldable pub unpause : Core W → Result (Core W)
  unfolding require_auth is_operator Switches.unpause
  unpause s = do
    require_auth env caller
    fail_if (not (is_operator caller s)) unauthorized
    paused ← Switches.unpause s.paused
    ok (record s { paused = paused })

  -- `add_allocator` with `true`, `remove_allocator` with `false`: an absent flag reads `false`. The
  -- other roles are alike.
  unfoldable pub set_allocator : Address → Bool → Core W → Result (Core W)
  unfolding require_admin
  set_allocator allocator granted s = do
    require_admin env caller s
    ok (record s { authorized_allocator = update s.authorized_allocator allocator granted })

  unfoldable pub set_updater : Address → Bool → Core W → Result (Core W)
  unfolding require_admin
  set_updater updater granted s = do
    require_admin env caller s
    ok (record s { authorized_updater = update s.authorized_updater updater granted })

  unfoldable pub set_guardian : Address → Bool → Core W → Result (Core W)
  unfolding require_admin
  set_guardian guardian granted s = do
    require_admin env caller s
    ok (record s { authorized_guardian = update s.authorized_guardian guardian granted })

  unfoldable pub set_treasurer : Address → Bool → Core W → Result (Core W)
  unfolding require_admin
  set_treasurer treasurer granted s = do
    require_admin env caller s
    ok (record s { authorized_treasurer = update s.authorized_treasurer treasurer granted })

  unfoldable pub set_operator : Address → Bool → Core W → Result (Core W)
  unfolding require_admin
  set_operator operator granted s = do
    require_admin env caller s
    ok (record s { authorized_operator = update s.authorized_operator operator granted })

  unfoldable pub set_allocation_contract : Address → Core W → Result (Core W)
  unfolding require_admin
  set_allocation_contract addr s = do
    require_admin env caller s
    ok (record s { allocation_contract = some addr })

  unfoldable pub set_rate_limit : (function window_seconds max_calls : ℕ) → Core W → Result (Core W)
  unfolding require_admin
  set_rate_limit function window_seconds max_calls s = do
    require_admin env caller s
    limiter ← set_limit function window_seconds max_calls s.limiter
    ok (record s { limiter = limiter })

  unfoldable pub set_rate_limit_exempt : Address → Bool → Core W → Result (Core W)
  unfolding require_admin
  set_rate_limit_exempt address exempt s = do
    require_admin env caller s
    ok (record s { limiter = set_exempt address exempt s.limiter })

  unfoldable pub set_emergency_mode : Bool → Core W → Result (Core W)
  unfolding require_auth is_guardian
  set_emergency_mode enabled s = do
    require_auth env caller
    fail_if (not (is_guardian caller s)) unauthorized
    ok (record s { emergency_mode = enabled })

  unfoldable pub set_creation_fee_bps : ℕ → Core W → Result (Core W)
  unfolding require_auth is_treasurer
  set_creation_fee_bps bps s = do
    require_auth env caller
    fail_if (not (is_treasurer caller s)) unauthorized
    fail_if (ltb bps_max bps) invalid_fee_bps
    ok (record s { creation_fee_bps = bps })

  unfoldable pub set_fee_recipient : Address → Core W → Result (Core W)
  unfolding require_auth is_treasurer is_zero_address
  set_fee_recipient recipient s = do
    require_auth env caller
    fail_if (not (is_treasurer caller s)) unauthorized
    fail_if (is_zero_address recipient) zero_address_given
    ok (record s { fee_recipient = some recipient })

module _ {W : Type 0} (x : External W) (env : Env) (caller : Address) where
  unfoldable pub emergency_withdraw : (asset to : Address) → ℤ → Core W → Result (Core W)
  unfolding require_auth is_guardian require_emergency require_positive transfer_assets
  emergency_withdraw asset to amount s = do
    require_auth env caller
    fail_if (not (is_guardian caller s)) unauthorized
    require_emergency s.emergency_mode
    require_positive amount
    transfer_assets x env.this to asset amount s

  unfoldable pub withdraw_fees : (asset_address : Address) → ℤ → Core W → Result (Core W)
  unfolding require_no_reentrancy set_reentrancy_guard require_auth is_treasurer require_positive
      transfer_assets
  withdraw_fees asset_address amount s = do
    require_no_reentrancy s
    let entered = set_reentrancy_guard true s
    require_auth env caller
    fail_if (not (is_treasurer caller entered)) unauthorized
    require_positive amount
    recipient ← or_fail entered.fee_recipient fee_recipient_not_set
    let collected = entered.collected_fees asset_address
    fail_if (ltb_ℤ collected amount) insufficient_fees
    left ← Math.sub collected amount
    moved ←
        transfer_assets x env.this recipient asset_address amount
          (record entered { collected_fees = update entered.collected_fees asset_address left })
    ok (set_reentrancy_guard false moved)
