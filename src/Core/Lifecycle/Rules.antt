-- ===== src/Core/Lifecycle/Rules.antt =====
-- The rules of a commitment in contracts/commitment_core/src/lib.rs: their validation, the creation
-- fee, the loss that is compared with them, and the record that a creation stores.
use commitlabs_contracts.Prelude.{ℕ, ltb, if◌then◌else◌, nat_key}
use commitlabs_contracts.Prelude.Int.{ℤ, pos, ltb_ℤ}
use commitlabs_contracts.Shared.Outcome
use commitlabs_contracts.Shared.Outcome.{
  Result, ok, panic, ◌>>=◌, ◌>>◌, require, reject_if, or_panic, safe_loss_above_limit,
  safe_penalty_below_limit, balanced_loss_above_limit, balanced_penalty_below_limit,
  aggressive_penalty_below_limit, commitment_type_invalid, already_initialized, call_failed,
}
use commitlabs_contracts.Shared.Math.{checked, loss_percent}
use commitlabs_contracts.Shared.Fees.{fee_from_bps}
use commitlabs_contracts.Shared.Validation.{require_valid_duration, require_valid_percent}
use commitlabs_contracts.Core.Types.{
  Address, Bytes, bytes_key, CommitmentType, safe, balanced, aggressive, other, active,
  CommitmentRules, Commitment, Env,
}

-- The function names under which calls are counted.
abbrev pub create_symbol : ℕ
create_symbol = 0

abbrev pub update_value_symbol : ℕ
update_value_symbol = 1

abbrev pub allocate_symbol : ℕ
allocate_symbol = 2

-- The limits of each commitment type; a string that is none of the three is refused.
unfoldable pub validate_type :
    CommitmentType → (max_loss_percent early_exit_penalty : ℕ) → Result (Unit {0})
validate_type safe loss penalty = do
  reject_if (ltb 10 loss) safe_loss_above_limit
  reject_if (ltb penalty 15) safe_penalty_below_limit
validate_type balanced loss penalty = do
  reject_if (ltb 30 loss) balanced_loss_above_limit
  reject_if (ltb penalty 10) balanced_penalty_below_limit
validate_type aggressive loss penalty = reject_if (ltb penalty 5) aggressive_penalty_below_limit
validate_type (other s) loss penalty = panic commitment_type_invalid

unfoldable pub validate_rules : CommitmentRules → Result (Unit {0})
unfolding validate_type require_valid_duration require_valid_percent
validate_rules rules = do
  require_valid_duration rules.duration_days
  require_valid_percent rules.max_loss_percent
  validate_type rules.commitment_type rules.max_loss_percent rules.early_exit_penalty

-- A checked `i128` operation whose failure is the contract's `ArithmeticOverflow`.
abbrev pub checked_or_fail : ℤ → Result ℤ
checked_or_fail z = checked z (Outcome.contract_error 24)

-- The loss that `update_value` and the violation checks compare with the rules.
unfoldable pub loss_of_value : ℤ → ℤ → Result ℤ
loss_of_value amount value = if ltb_ℤ (pos 0) amount then loss_percent amount value else ok (pos 0)

-- The commitment that `create_commitment` builds.
abbrev pub new_commitment :
    Env
    → Address
    → (net_amount : ℤ) → Address
    → CommitmentRules
    → (id : Bytes) → (expires_at : ℕ) → Commitment
new_commitment env owner net_amount asset_address rules id expires_at = record {
  commitment_id = id;
  owner = owner;
  nft_token_id = 0;
  rules = rules;
  amount = net_amount;
  asset_address = asset_address;
  created_at = env.now;
  expires_at = expires_at;
  current_value = net_amount;
  status = active;
}

unfoldable pub creation_fee_of : ℤ → ℕ → Result ℤ
creation_fee_of amount creation_fee_bps =
    if ltb 0 creation_fee_bps then fee_from_bps amount creation_fee_bps else ok (pos 0)
