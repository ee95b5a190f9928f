-- ===== src/Transform/Types.antt =====
-- The data types of contracts/commitment_transformation/src/lib.rs, its storage, and what it calls.
use commitlabs_contracts.Prelude.{ℕ, Bool, Option, List}
use commitlabs_contracts.Prelude.Int.{ℤ}
use commitlabs_contracts.Shared.Outcome.{Result, reject_if, or_panic, contract_error}
use commitlabs_contracts.Core.Types.{Address, Bytes, Commitment}

pub data TransformationError : Type 0 where
  invalid_amount invalid_tranche_ratios invalid_fee_bps unauthorized : TransformationError
  not_initialized already_initialized commitment_not_found transformation_not_found :
      TransformationError
  invalid_state reentrancy_detected fee_recipient_not_set insufficient_fees : TransformationError

abbrev pub error_code : TransformationError → ℕ
error_code invalid_amount = 1
error_code invalid_tranche_ratios = 2
error_code invalid_fee_bps = 3
error_code unauthorized = 4
error_code not_initialized = 5
error_code already_initialized = 6
error_code commitment_not_found = 7
error_code transformation_not_found = 8
error_code invalid_state = 9
error_code reentrancy_detected = 10
error_code fee_recipient_not_set = 11
error_code insufficient_fees = 12

-- `fail` panics with the error's message, for which its number stands.
abbrev pub fail_if : Bool → TransformationError → Result (Unit {0})
fail_if test e = reject_if test (contract_error (error_code e))

abbrev pub or_fail : {A : Type 0} → Option A → TransformationError → Result A
or_fail o e = or_panic o (contract_error (error_code e))

pub data TrancheStatus : Type 0 where
  active closed : TrancheStatus

pub record RiskTranche : Type 0 where
  pub tranche_id : Bytes
  pub transformation_id : Bytes
  pub commitment_id : Bytes
  pub risk_level : Bytes
  pub amount : ℤ
  pub share_bps : ℕ
  pub created_at : ℕ
  pub status : TrancheStatus
  pub updated_at : ℕ

pub record TrancheSet : Type 0 where
  pub transformation_id : Bytes
  pub commitment_id : Bytes
  pub owner : Address
  pub total_value : ℤ
  pub tranches : List RiskTranche
  pub fee_paid : ℤ
  pub created_at : ℕ

pub record CollateralizedAsset : Type 0 where
  pub asset_id : Bytes
  pub commitment_id : Bytes
  pub owner : Address
  pub collateral_amount : ℤ
  pub asset_address : Address
  pub created_at : ℕ

pub record SecondaryInstrument : Type 0 where
  pub instrument_id : Bytes
  pub commitment_id : Bytes
  pub owner : Address
  pub instrument_type : Bytes
  pub amount : ℤ
  pub created_at : ℕ

pub record ProtocolGuarantee : Type 0 where
  pub guarantee_id : Bytes
  pub commitment_id : Bytes
  pub guarantee_type : Bytes
  pub terms_hash : Bytes
  pub created_at : ℕ

-- The contracts that are called: token contracts, and the core contract for a commitment. Their state is
-- `W`, and a call that fails gives `none`.
pub record Others (W : Type 0) : Type 0 where
  pub transfer : (token from to : Address) → ℤ → W → Option W
  pub get_commitment : (core_contract : Address) → Bytes → W → Option Commitment

-- The storage, one field for each `DataKey`, with the state of the other contracts. A key that the code
-- reads by `unwrap_or` is its value with that default; the others are options.
pub record Transformation (W : Type 0) : Type 0 where
  pub admin : Option Address
  pub core_contract : Option Address
  pub transformation_fee_bps : ℕ
  pub reentrancy_guard : Bool
  pub tranche_set : Bytes → Option TrancheSet
  pub tranche : Bytes → Option RiskTranche
  pub collateralized_asset : Bytes → Option CollateralizedAsset
  pub secondary_instrument : Bytes → Option SecondaryInstrument
  pub protocol_guarantee : Bytes → Option ProtocolGuarantee
  pub commitment_tranche_sets : Bytes → List Bytes
  pub commitment_collateral : Bytes → List Bytes
  pub commitment_instruments : Bytes → List Bytes
  pub commitment_guarantees : Bytes → List Bytes
  pub authorized_transformer : Address → Bool
  pub tranche_set_counter : ℕ
  pub fee_recipient : Option Address
  pub collected_fees : Address → ℤ
  pub world : W
