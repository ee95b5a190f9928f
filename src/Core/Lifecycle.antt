-- ===== src/Core/Lifecycle.antt =====
-- The lifecycle operations of contracts/commitment_core/src/lib.rs. A failing branch of the source
-- resets the reentrancy flag before it panics; the panic discards that write with all others.
mod Rules
unfoldable pub use Rules.{
  create_symbol, update_value_symbol, allocate_symbol, validate_type, validate_rules,
  checked_or_fail, loss_of_value, new_commitment, creation_fee_of,
}
use commitlabs_contracts.Prelude.{
  ℕ, ◌+◌, true, false, not, none, some, [], ◌∷◌, ◌++◌, ltb, ◌==◌, if◌then◌else◌, update, nat_key,
  is_some,
}
use commitlabs_contracts.Prelude.Int.{ℤ, pos, ltb_ℤ, leb_ℤ, ◌+ℤ◌, ◌-ℤ◌}
use commitlabs_contracts.Shared.Outcome
use commitlabs_contracts.Shared.Outcome.{
  Result, ok, panic, ◌>>=◌, ◌>>◌, require, reject_if, or_panic, safe_loss_above_limit,
  safe_penalty_below_limit, balanced_loss_above_limit, balanced_penalty_below_limit,
  aggressive_penalty_below_limit, commitment_type_invalid, already_initialized, call_failed,
}
use commitlabs_contracts.Shared.Math
use commitlabs_contracts.Shared.Math.{checked, loss_percent, penalty_amount}
use commitlabs_contracts.Shared.Fees.{fee_from_bps}
use commitlabs_contracts.Shared.Time.{checked_calculate_expiration, checked_u64}
use commitlabs_contracts.Shared.Validation.{
  require_positive, require_non_negative, require_valid_duration, require_valid_percent,
}
use commitlabs_contracts.Shared.RateLimiting.{check}
use commitlabs_contracts.Shared.Switches.{require_not_paused, require_not_emergency}
use commitlabs_contracts.Core.Id.{generate_commitment_id}
use commitlabs_contracts.Core.Types.{
  Address, Bytes, bytes_key, commitment_not_found, unauthorized, not_active, not_expired,
  already_settled, not_initialized, zero_address_given, expiration_overflow,
  duplicate_commitment_id, invalid_amount, insufficient_balance, fail_if, or_fail, CommitmentType,
  safe, balanced, aggressive, other, Status, active, violated, settled, is_active, is_settled,
  CommitmentRules, Commitment, Env, External, Core,
}
use commitlabs_contracts.Core.Store.{
  require_auth, is_zero_address, require_no_reentrancy, set_reentrancy_guard,
  require_authorized_updater, is_allocator, set_commitment, remove_from_owner_commitments,
  check_sufficient_balance, called, transfer_assets,
}

module _ {W : Type 0} where
  -- The writes of `create_commitment` up to the transfer, from the checked values on.
  unfoldable pub record_commitment : Commitment → (total : ℕ) (updated_tvl : ℤ) → Core W → Core W
  unfolding set_commitment
  record_commitment c total updated_tvl s =
      let s = set_commitment c s in
      record s {
        owner_commitments =
            update s.owner_commitments c.owner
              (s.owner_commitments c.owner ++ (c.commitment_id ∷ []));
        total_commitments = total;
        total_value_locked = updated_tvl;
        all_commitment_ids = s.all_commitment_ids ++ (c.commitment_id ∷ []);
      }

  -- `if creation_fee > 0 { … }`
  unfoldable pub collect_creation_fee : Address → ℤ → Core W → Result (Core W)
  collect_creation_fee asset_address creation_fee s =
      if ltb_ℤ (pos 0) creation_fee
      then (checked_or_fail (s.collected_fees asset_address +ℤ creation_fee) >>= λ updated_fees.
          ok (record s { collected_fees = update s.collected_fees asset_address updated_fees }))
      else ok s

  -- `if penalty > 0 { … }`, with the plain `+` that the release profile checks.
  unfoldable pub collect_penalty : Address → ℤ → Core W → Result (Core W)
  collect_penalty asset_address penalty s =
      if ltb_ℤ (pos 0) penalty
      then (checked (s.collected_fees asset_address +ℤ penalty) Outcome.arithmetic_overflow
          >>= λ fees. ok (record s { collected_fees = update s.collected_fees asset_address fees }))
      else ok s

module _ {W : Type 0} (x : External W) (env : Env) where
  -- `call_nft_mint`, whose result is the token id, and the second `set_commitment`.
  unfoldable pub mint_nft : (nft_contract : Address) → Commitment → Core W → Result (Core W)
  unfolding set_commitment
  mint_nft nft_contract c s =
      let rules = c.rules in
      elim (x.mint nft_contract env.this c.owner c.commitment_id rules.duration_days
        rules.max_loss_percent rules.commitment_type c.amount c.asset_address
        rules.early_exit_penalty s.world) [
          | none ↦ panic call_failed
          | some (token_id, w) ↦
              ok (set_commitment (record c { nft_token_id = token_id }) (record s { world = w }))
        ]

  -- From the balance check to the end: the id, the writes, the transfer and the NFT.
  unfoldable pub create_checked :
      Address
      → (amount creation_fee net_amount : ℤ) → Address
      → CommitmentRules
      → (expires_at : ℕ) → Core W
      → Result (Core W)
  unfolding check_sufficient_balance record_commitment transfer_assets collect_creation_fee mint_nft
      set_reentrancy_guard
  create_checked owner amount creation_fee net_amount asset_address rules expires_at s = do
    check_sufficient_balance x owner asset_address amount s
    nft_contract ← or_fail s.nft_contract not_initialized
    let id = generate_commitment_id s.total_commitments
    fail_if (is_some (s.commitment id)) duplicate_commitment_id
    total ← or_panic (checked_u64 (s.total_commitments + 1)) Outcome.arithmetic_overflow
    updated_tvl ← checked_or_fail (s.total_value_locked +ℤ net_amount)
    let c = new_commitment env owner net_amount asset_address rules id expires_at
    moved ←
        transfer_assets x owner env.this asset_address amount
          (record_commitment c total updated_tvl s)
    charged ← collect_creation_fee asset_address creation_fee moved
    minted ← mint_nft nft_contract c charged
    ok (set_reentrancy_guard false minted)

  unfoldable pub create_commitment :
      Address → ℤ → Address → CommitmentRules → Core W → Result (Core W)
  unfolding require_no_reentrancy set_reentrancy_guard require_not_paused require_not_emergency
      require_auth is_zero_address require_positive
  create_commitment owner amount asset_address rules s = do
    require_no_reentrancy s
    let entered = set_reentrancy_guard true s
    require_not_paused entered.paused
    require_not_emergency entered.emergency_mode
    require_auth env owner
    fail_if (is_zero_address owner) zero_address_given
    limiter ← check env.now owner create_symbol entered.limiter
    require_positive amount
    validate_rules rules
    creation_fee ← creation_fee_of amount entered.creation_fee_bps
    net_amount ← checked_or_fail (amount -ℤ creation_fee)
    expires_at ←
        or_fail (checked_calculate_expiration env.now rules.duration_days) expiration_overflow
    create_checked owner amount creation_fee net_amount asset_address rules expires_at
        (record entered { limiter = limiter })

  unfoldable pub update_value : Address → Bytes → ℤ → Core W → Result (Core W)
  unfolding require_authorized_updater require_non_negative loss_of_value set_commitment
  update_value caller commitment_id new_value s = do
    require_authorized_updater env caller s
    limiter ← check env.now caller update_value_symbol s.limiter
    require_non_negative new_value
    commitment ← or_fail (s.commitment commitment_id) commitment_not_found
    fail_if (not (is_active commitment.status)) not_active
    loss_percent ← loss_of_value commitment.amount new_value
    let violates = ltb_ℤ (pos commitment.rules.max_loss_percent) loss_percent
    lowered ← checked_or_fail (s.total_value_locked -ℤ commitment.current_value)
    updated_tvl ← checked_or_fail (lowered +ℤ new_value)
    let updated =
        set_commitment
          (record commitment {
            current_value = new_value;
            status = if violates then violated else commitment.status;
          })
          s
    ok (record updated { limiter = limiter; total_value_locked = updated_tvl })

  unfoldable pub settle : Bytes → Core W → Result (Core W)
  unfolding require_no_reentrancy set_reentrancy_guard require_not_paused set_commitment
      remove_from_owner_commitments transfer_assets
  settle commitment_id s = do
    require_no_reentrancy s
    let entered = set_reentrancy_guard true s
    require_not_paused entered.paused
    commitment ← or_fail (entered.commitment commitment_id) commitment_not_found
    fail_if (ltb env.now commitment.expires_at) not_expired
    fail_if (is_settled commitment.status) already_settled
    fail_if (not (is_active commitment.status)) not_active
    let settlement_amount = commitment.current_value
    let owner = commitment.owner
    let marked = set_commitment (record commitment { status = settled }) entered
    let removed = remove_from_owner_commitments owner commitment_id marked
    let tvl = removed.total_value_locked
    new_tvl ← (if ltb_ℤ settlement_amount tvl then Math.sub tvl settlement_amount else ok (pos 0))
    moved ←
        transfer_assets x env.this owner commitment.asset_address settlement_amount
          (record removed { total_value_locked = new_tvl })
    nft_contract ← or_fail moved.nft_contract not_initialized
    told ← called (x.settle nft_contract env.this commitment.nft_token_id moved.world) moved
    ok (set_reentrancy_guard false told)

  -- `if returned > 0 { … }`
  unfoldable pub return_assets : (owner asset_address : Address) → ℤ → Core W → Result (Core W)
  unfolding transfer_assets
  return_assets owner asset_address returned s =
      if ltb_ℤ (pos 0) returned
      then transfer_assets x env.this owner asset_address returned s
      else ok s

  unfoldable pub early_exit : Bytes → Address → Core W → Result (Core W)
  unfolding require_no_reentrancy set_reentrancy_guard require_not_paused set_commitment
      require_auth collect_penalty return_assets
  early_exit commitment_id caller s = do
    require_no_reentrancy s
    let entered = set_reentrancy_guard true s
    require_not_paused entered.paused
    commitment ← or_fail (entered.commitment commitment_id) commitment_not_found
    require_auth env caller
    fail_if (not (commitment.owner == caller)) unauthorized
    fail_if (not (is_active commitment.status)) not_active
    penalty ← penalty_amount commitment.current_value commitment.rules.early_exit_penalty
    returned ← Math.sub commitment.current_value penalty
    let original_val = commitment.current_value
    charged ← collect_penalty commitment.asset_address penalty entered
    let marked =
        set_commitment (record commitment { status = Status.early_exit; current_value = pos 0 })
          charged
    tvl ← checked (marked.total_value_locked -ℤ original_val) Outcome.arithmetic_overflow
    moved ←
        return_assets commitment.owner commitment.asset_address returned
          (record marked { total_value_locked = tvl })
    nft_contract ← or_fail moved.nft_contract not_initialized
    told ← called (x.mark_inactive nft_contract env.this commitment.nft_token_id moved.world) moved
    ok (set_reentrancy_guard false told)

  unfoldable pub allocate : Address → Bytes → (target_pool : Address) → ℤ → Core W → Result (Core W)
  unfolding require_no_reentrancy set_reentrancy_guard require_not_paused set_commitment
      require_auth is_allocator transfer_assets
  allocate caller commitment_id target_pool amount s = do
    require_no_reentrancy s
    let entered = set_reentrancy_guard true s
    require_not_paused entered.paused
    require_auth env caller
    fail_if (not (is_allocator caller entered)) unauthorized
    limiter ← check env.now target_pool allocate_symbol entered.limiter
    fail_if (leb_ℤ amount (pos 0)) invalid_amount
    commitment ← or_fail (entered.commitment commitment_id) commitment_not_found
    fail_if (not (is_active commitment.status)) not_active
    fail_if (ltb_ℤ commitment.current_value amount) insufficient_balance
    value ← Math.sub commitment.current_value amount
    let updated = set_commitment (record commitment { current_value = value }) entered
    moved ←
        transfer_assets x env.this target_pool commitment.asset_address amount
          (record updated { limiter = limiter })
    updated_tvl ← checked_or_fail (moved.total_value_locked -ℤ amount)
    ok (set_reentrancy_guard false (record moved { total_value_locked = updated_tvl }))
