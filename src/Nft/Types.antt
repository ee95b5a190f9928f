-- ===== src/Nft/Types.antt =====
-- The data types of contracts/commitment_nft/src/lib.rs and its storage.
use commitlabs_contracts.Prelude.{ℕ, Bool, Option, List}
use commitlabs_contracts.Prelude.Int.{ℤ}
use commitlabs_contracts.Shared.Outcome.{Result, reject_if, or_panic, contract_error}
use commitlabs_contracts.Core.Types.{Address, Bytes, CommitmentType}

pub data ContractError : Type 0 where
  not_initialized already_initialized token_not_found invalid_token_id : ContractError
  not_owner not_authorized transfer_not_allowed already_settled not_expired : ContractError
  invalid_duration invalid_max_loss invalid_commitment_type invalid_amount : ContractError
  reentrancy_detected invalid_wasm_hash invalid_version already_migrated : ContractError
  transfer_to_zero_address nft_locked expiration_overflow : ContractError
  invalid_commitment_id invalid_address : ContractError

abbrev pub error_code : ContractError → ℕ
error_code not_initialized = 1
error_code already_initialized = 2
error_code token_not_found = 3
error_code invalid_token_id = 4
error_code not_owner = 5
error_code not_authorized = 6
error_code transfer_not_allowed = 7
error_code already_settled = 8
error_code not_expired = 9
error_code invalid_duration = 10
error_code invalid_max_loss = 11
error_code invalid_commitment_type = 12
error_code invalid_amount = 13
error_code reentrancy_detected = 14
error_code invalid_wasm_hash = 15
error_code invalid_version = 16
error_code already_migrated = 17
error_code transfer_to_zero_address = 18
error_code nft_locked = 19
error_code expiration_overflow = 20
error_code invalid_commitment_id = 21
error_code invalid_address = 22

-- An `Err` fails the invocation, so the host discards its writes as it does for a panic.
abbrev pub fail_if : Bool → ContractError → Result (Unit {0})
fail_if test e = reject_if test (contract_error (error_code e))

abbrev pub or_fail : {A : Type 0} → Option A → ContractError → Result A
or_fail o e = or_panic o (contract_error (error_code e))

pub record CommitmentMetadata : Type 0 where
  pub commitment_id : Bytes
  pub duration_days : ℕ
  pub max_loss_percent : ℕ
  pub commitment_type : CommitmentType
  pub created_at : ℕ
  pub expires_at : ℕ
  pub initial_amount : ℤ
  pub asset_address : Address
  pub early_exit_penalty : ℕ

pub record CommitmentNft : Type 0 where
  pub owner : Address
  pub token_id : ℕ
  pub metadata : CommitmentMetadata
  pub is_active : Bool
  pub early_exit_penalty : ℕ

-- The storage, one field for each `DataKey` but the unused `ActiveStatus`, with the two flags of the
-- shared helpers. A key that the code reads by `unwrap_or` is its value with that default; the others
-- are options.
pub record Nfts : Type 0 where
  pub admin : Option Address
  pub token_counter : ℕ
  pub nft : ℕ → Option CommitmentNft
  pub owner_balance : Address → ℕ
  pub owner_tokens : Address → List ℕ
  pub token_ids : List ℕ
  pub core_contract : Option Address
  pub authorized_minter : Address → Bool
  pub reentrancy_guard : Bool
  pub version : ℕ
  pub commitment_id_index : Bytes → Option ℕ
  pub paused : Bool
  pub emergency_mode : Bool
