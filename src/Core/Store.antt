-- ===== src/Core/Store.antt =====
-- The internal helpers of contracts/commitment_core/src/lib.rs and its role checks.
use commitlabs_contracts.Prelude.{
  Bool, false, not, ◌||◌, Option, none, some, ◌==◌, if◌then◌else◌, update, mem, remove_first,
  nat_key,
}
use commitlabs_contracts.Prelude.Int.{ℤ, ltb_ℤ}
use commitlabs_contracts.Shared.Outcome.{
  Result, ok, panic, ◌>>=◌, ◌>>◌, require, not_authorized, call_failed,
}
use commitlabs_contracts.Core.Types.{
  Address, zero_address, Bytes, bytes_key, reentrancy_detected, unauthorized, not_initialized,
  not_authorized_updater, insufficient_balance, fail_if, or_fail, Commitment, Env, External, Core,
}

-- `address.require_auth()`
unfoldable pub require_auth : Env → Address → Result (Unit {0})
require_auth env who = require (env.signed who) not_authorized

unfoldable pub is_zero_address : Address → Bool
is_zero_address address = address == zero_address

-- A stored address that is present and is the given one.
abbrev pub is_the : Option Address → Address → Bool
is_the none address = false
is_the (some a) address = address == a

module _ {W : Type 0} where
  unfoldable pub require_no_reentrancy : Core W → Result (Unit {0})
  require_no_reentrancy s = fail_if s.reentrancy_guard reentrancy_detected

  unfoldable pub set_reentrancy_guard : Bool → Core W → Core W
  set_reentrancy_guard value s = record s { reentrancy_guard = value }

  unfoldable pub require_admin : Env → Address → Core W → Result (Unit {0})
  unfolding require_auth
  require_admin env caller s = do
    require_auth env caller
    admin ← or_fail s.admin not_initialized
    fail_if (not (caller == admin)) unauthorized

  unfoldable pub is_updater : Address → Core W → Bool
  is_updater address s = is_the s.admin address || s.authorized_updater address

  unfoldable pub require_authorized_updater : Env → Address → Core W → Result (Unit {0})
  unfolding require_auth
  require_authorized_updater env caller s = do
    require_auth env caller
    fail_if (not (is_the s.admin caller || s.authorized_updater caller)) not_authorized_updater

  unfoldable pub is_allocator : Address → Core W → Bool
  is_allocator address s =
      is_the s.admin address
      || (is_the s.allocation_contract address || s.authorized_allocator address)

  unfoldable pub is_guardian : Address → Core W → Bool
  is_guardian address s = is_the s.admin address || s.authorized_guardian address

  unfoldable pub is_treasurer : Address → Core W → Bool
  is_treasurer address s = is_the s.admin address || s.authorized_treasurer address

  unfoldable pub is_operator : Address → Core W → Bool
  is_operator address s = is_the s.admin address || s.authorized_operator address

  unfoldable pub set_commitment : Commitment → Core W → Core W
  set_commitment c s = record s { commitment = update s.commitment c.commitment_id (some c) }

  unfoldable pub remove_from_owner_commitments : Address → Bytes → Core W → Core W
  remove_from_owner_commitments owner commitment_id s =
      let commitments = s.owner_commitments owner in
      if mem commitment_id commitments
      then (record s {
        owner_commitments =
            update s.owner_commitments owner (remove_first commitment_id commitments);
      })
      else s

  unfoldable pub check_sufficient_balance :
      External W → (owner asset_address : Address) → ℤ → Core W → Result (Unit {0})
  check_sufficient_balance x owner asset_address amount s =
      fail_if (ltb_ℤ (x.balance asset_address owner s.world) amount) insufficient_balance

  -- What a call of another contract leaves of the state, if it succeeds.
  abbrev pub called : Option W → Core W → Result (Core W)
  called none s = panic call_failed
  called (some w) s = ok (record s { world = w })

  unfoldable pub transfer_assets :
      External W → (from to asset_address : Address) → ℤ → Core W → Result (Core W)
  transfer_assets x from to asset_address amount s =
      called (x.transfer asset_address from to amount s.world) s
