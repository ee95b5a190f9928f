-- ===== src/Core/Types.antt =====
-- The data types of contracts/commitment_core/src/lib.rs, its storage, and the contracts it calls.
use commitlabs_contracts.Prelude.{
  ℕ, Bool, true, false, ◌&&◌, ◌≡◌, refl, Option, List, [], ◌∷◌, ◌==◌, Key, arith,
}
use commitlabs_contracts.Prelude.Int.{ℤ}
use commitlabs_contracts.Shared.Outcome.{Result, panic, ok, contract_error, or_panic}
use commitlabs_contracts.Shared.RateLimiting.{Limiter}

-- An account or contract address. They are only compared.
abbrev pub Address : Type 0
Address = ℕ

-- The account that `is_zero_address` writes out, `GAAA…AWHF`.
abbrev pub zero_address : Address
zero_address = 0

-- A commitment id, as its ASCII bytes.
abbrev pub Bytes : Type 0
Bytes = List ℕ

abbrev pub bytes_eq : Bytes → Bytes → Bool
bytes_eq [] [] = true
bytes_eq (a ∷ as') (b ∷ bs) = a == b && bytes_eq as' bs
bytes_eq _ _ = false

pub bytes_eq_refl : (k : Bytes) → bytes_eq k k ≡ true
bytes_eq_refl [] = refl
bytes_eq_refl (a ∷ k) = ground (arith, bytes_eq_refl k)

pub bytes_eq_sound : (j k : Bytes) → bytes_eq j k ≡ true → j ≡ k
bytes_eq_sound [] [] h = refl
bytes_eq_sound (a ∷ j) (b ∷ k) h = ground (arith, bytes_eq_sound j k)
bytes_eq_sound _ _ h = cc

instance abbrev pub bytes_key : Key Bytes
bytes_key = record { beq = bytes_eq; beq_refl = bytes_eq_refl; beq_sound = bytes_eq_sound }

pub data CommitmentError : Type 0 where
  invalid_duration invalid_max_loss_percent invalid_commitment_type : CommitmentError
  invalid_amount insufficient_balance transfer_failed minting_failed : CommitmentError
  commitment_not_found unauthorized already_initialized already_settled : CommitmentError
  reentrancy_detected not_active invalid_status not_initialized not_expired : CommitmentError
  value_update_violation not_authorized_updater zero_address_given : CommitmentError
  expiration_overflow invalid_fee_bps fee_recipient_not_set insufficient_fees : CommitmentError
  arithmetic_overflow duplicate_commitment_id : CommitmentError

-- The discriminants, from 1 in the order of declaration.
abbrev pub error_code : CommitmentError → ℕ
error_code invalid_duration = 1
error_code invalid_max_loss_percent = 2
error_code invalid_commitment_type = 3
error_code invalid_amount = 4
error_code insufficient_balance = 5
error_code transfer_failed = 6
error_code minting_failed = 7
error_code commitment_not_found = 8
error_code unauthorized = 9
error_code already_initialized = 10
error_code already_settled = 11
error_code reentrancy_detected = 12
error_code not_active = 13
error_code invalid_status = 14
error_code not_initialized = 15
error_code not_expired = 16
error_code value_update_violation = 17
error_code not_authorized_updater = 18
error_code zero_address_given = 19
error_code expiration_overflow = 20
error_code invalid_fee_bps = 21
error_code fee_recipient_not_set = 22
error_code insufficient_fees = 23
error_code arithmetic_overflow = 24
error_code duplicate_commitment_id = 25

-- `fail`: it panics, so the error event that it emits is discarded with the invocation.
abbrev pub fail {ℓ} : {A : Type ℓ} → CommitmentError → Result A
fail e = panic (contract_error (error_code e))

abbrev pub fail_if : Bool → CommitmentError → Result (Unit {0})
fail_if true e = fail e
fail_if false e = ok tt

abbrev pub or_fail {ℓ} : {A : Type ℓ} → Option A → CommitmentError → Result A
or_fail o e = or_panic o (contract_error (error_code e))

-- The string `rules.commitment_type`: one of the three that are accepted, or any other.
pub data CommitmentType : Type 0 where
  safe balanced aggressive : CommitmentType
  other : Bytes → CommitmentType

-- The string `commitment.status`, of which the contract writes these four.
pub data Status : Type 0 where
  active violated settled early_exit : Status

abbrev pub is_active : Status → Bool
is_active active = true
is_active _ = false

abbrev pub is_settled : Status → Bool
is_settled settled = true
is_settled _ = false

pub record CommitmentRules : Type 0 where
  pub duration_days : ℕ
  pub max_loss_percent : ℕ
  pub commitment_type : CommitmentType
  pub early_exit_penalty : ℕ
  pub min_fee_threshold : ℤ
  pub grace_period_days : ℕ

pub record Commitment : Type 0 where
  pub commitment_id : Bytes
  pub owner : Address
  pub nft_token_id : ℕ
  pub rules : CommitmentRules
  pub amount : ℤ
  pub asset_address : Address
  pub created_at : ℕ
  pub expires_at : ℕ
  pub current_value : ℤ
  pub status : Status

-- What an invocation is given by the host: the ledger timestamp, who signed, and the contract's own
-- address.
pub record Env : Type 0 where
  pub now : ℕ
  pub signed : Address → Bool
  pub this : Address

-- The contracts that are called: any token, and the NFT contract. Their state is `W`, and a call
-- that fails gives `none`.
pub record External (W : Type 0) : Type 0 where
  pub balance : (token who : Address) → W → ℤ
  pub transfer : (token from to : Address) → ℤ → W → Option W
  pub mint :
      (nft caller owner : Address) (commitment_id : Bytes) (duration_days max_loss_percent : ℕ)
      → CommitmentType
      → ℤ
      → (asset_address : Address) (early_exit_penalty : ℕ) → W
      → Option (ℕ × W)
  pub settle : (nft caller : Address) (token_id : ℕ) → W → Option W
  pub mark_inactive : (nft caller : Address) (token_id : ℕ) → W → Option W

-- The instance storage, one field for each `DataKey`, with the flags of the shared helpers and the
-- state of the other contracts. A key that the code reads by `unwrap_or` is its value with that
-- default; the others are options.
pub record Core (W : Type 0) : Type 0 where
  pub admin : Option Address
  pub nft_contract : Option Address
  pub allocation_contract : Option Address
  pub commitment : Bytes → Option Commitment
  pub owner_commitments : Address → List Bytes
  pub total_commitments : ℕ
  pub reentrancy_guard : Bool
  pub total_value_locked : ℤ
  pub authorized_allocator : Address → Bool
  pub authorized_updater : Address → Bool
  pub authorized_guardian : Address → Bool
  pub authorized_treasurer : Address → Bool
  pub authorized_operator : Address → Bool
  pub all_commitment_ids : List Bytes
  pub fee_recipient : Option Address
  pub creation_fee_bps : ℕ
  pub collected_fees : Address → ℤ
  pub paused : Bool
  pub emergency_mode : Bool
  pub limiter : Limiter
  pub world : W
