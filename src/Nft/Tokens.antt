-- ===== src/Nft/Tokens.antt =====
-- Minting, transfers and the lifecycle of tokens of contracts/commitment_nft/src/lib.rs.
use commitlabs_contracts.Prelude.{
  ℕ, ◌+◌, ◌-◌, ◌*◌, ◌%◌, ◌^◌, Bool, true, false, not, none, some, List, [], ◌∷◌, ◌++◌, ltb, ◌==◌,
  ◌||◌, if◌then◌else◌, update, remove_first, nat_key,
}
use commitlabs_contracts.Prelude.Int.{ℤ, pos, pos_part, ltb_ℤ}
use commitlabs_contracts.Shared.Outcome
use commitlabs_contracts.Shared.Outcome.{Result, ok, ◌>>=◌, ◌>>◌, or_panic}
use commitlabs_contracts.Shared.Math
use commitlabs_contracts.Shared.Time.{checked_u64}
use commitlabs_contracts.Shared.Switches.{require_not_emergency, require_not_paused}
use commitlabs_contracts.Shared.Collect.{collect}
use commitlabs_contracts.Core.Types.{
  Address, Bytes, bytes_key, CommitmentType, safe, balanced, aggressive, other, Env,
}
use commitlabs_contracts.Core.Store.{require_auth, is_zero_address, is_the}
use commitlabs_contracts.Nft.Types.{
  Nfts, CommitmentNft, CommitmentMetadata, fail_if, or_fail, not_initialized, not_authorized,
  reentrancy_detected, transfer_to_zero_address, invalid_address, invalid_duration,
  invalid_max_loss, invalid_commitment_type, invalid_amount, expiration_overflow, token_not_found,
  not_owner, nft_locked, already_settled, not_expired,
}
use commitlabs_contracts.Nft.Id.{format_commitment_id}
use commitlabs_contracts.Nft.Store.{require_core_contract_caller}

abbrev pub is_valid_commitment_type : CommitmentType → Bool
is_valid_commitment_type safe = true
is_valid_commitment_type balanced = true
is_valid_commitment_type aggressive = true
is_valid_commitment_type (other kind) = false

-- The guard must be down and is set, and there must be no emergency.
unfoldable pub enter : Nfts → Result Nfts
unfolding require_not_emergency
enter s = do
  fail_if s.reentrancy_guard reentrancy_detected
  require_not_emergency s.emergency_mode
  ok (record s { reentrancy_guard = true })

abbrev pub leave : Nfts → Nfts
leave s = record s { reentrancy_guard = false }

-- `SafeMath::add(token_id as i128, 1) as u32`
unfoldable pub next_token_id : ℕ → Result ℕ
next_token_id token_id = do next ← Math.add (pos token_id) (pos 1); ok (pos_part next % 2 ^ 32)

-- `balance + 1` on `u32`, whose overflow the release profile checks.
unfoldable pub one_more : ℕ → Result ℕ
one_more balance =
    or_panic (if ltb (balance + 1) (2 ^ 32) then some (balance + 1) else none)
      Outcome.arithmetic_overflow

module _ (env : Env) where
  -- The writes of `mint`, which gives the token's id.
  unfoldable pub store_minted :
      (owner : Address) (duration_days max_loss_percent : ℕ) (commitment_type : CommitmentType)
      (initial_amount : ℤ) (asset_address : Address) (early_exit_penalty expires_at : ℕ)
      → Nfts
      → Result (ℕ × Nfts)
  unfolding next_token_id one_more
  store_minted owner duration_days max_loss_percent commitment_type initial_amount asset_address
        early_exit_penalty expires_at s =
      do
        let token_id = s.token_counter
        next ← next_token_id token_id
        let id = format_commitment_id token_id
        let metadata : CommitmentMetadata = record {
          commitment_id = id;
          duration_days = duration_days;
          max_loss_percent = max_loss_percent;
          commitment_type = commitment_type;
          created_at = env.now;
          expires_at = expires_at;
          initial_amount = initial_amount;
          asset_address = asset_address;
          early_exit_penalty = early_exit_penalty;
        }
        let nft : CommitmentNft = record {
          owner = owner;
          token_id = token_id;
          metadata = metadata;
          is_active = true;
          early_exit_penalty = early_exit_penalty;
        }
        balance ← one_more (s.owner_balance owner)
        ok (
          token_id,
          leave (record s {
            token_counter = next;
            commitment_id_index = update s.commitment_id_index id (some token_id);
            nft = update s.nft token_id (some nft);
            owner_balance = update s.owner_balance owner balance;
            owner_tokens = update s.owner_tokens owner (s.owner_tokens owner ++ (token_id ∷ []));
            token_ids = s.token_ids ++ (token_id ∷ []);
          }),
        )

  unfoldable pub mint :
      (caller owner : Address) (commitment_id : Bytes) (duration_days max_loss_percent : ℕ)
      (commitment_type : CommitmentType) (initial_amount : ℤ) (asset_address : Address)
      (early_exit_penalty : ℕ)
      → Nfts
      → Result (ℕ × Nfts)
  unfolding enter require_not_paused require_auth is_zero_address
  mint caller owner commitment_id duration_days max_loss_percent commitment_type initial_amount
        asset_address early_exit_penalty s =
      do
        entered ← enter s
        require_not_paused entered.paused
        admin ← or_fail entered.admin not_initialized
        fail_if
            (not (
              caller == admin
              || is_the entered.core_contract caller
              || entered.authorized_minter caller))
            not_authorized
        require_auth env caller
        fail_if (is_zero_address owner) transfer_to_zero_address
        fail_if (is_zero_address asset_address) invalid_address
        fail_if (duration_days == 0) invalid_duration
        fail_if (ltb 100 max_loss_percent) invalid_max_loss
        fail_if (not (is_valid_commitment_type commitment_type)) invalid_commitment_type
        fail_if (ltb_ℤ initial_amount (pos 0)) invalid_amount
        duration_seconds ← or_fail (checked_u64 (duration_days * 86400)) expiration_overflow
        expires_at ← or_fail (checked_u64 (env.now + duration_seconds)) expiration_overflow
        store_minted owner duration_days max_loss_percent commitment_type initial_amount
            asset_address early_exit_penalty expires_at entered

  unfoldable pub transfer : (from to : Address) (token_id : ℕ) → Nfts → Result Nfts
  unfolding enter require_not_paused require_auth is_zero_address one_more
  transfer from to token_id s = do
    entered ← enter s
    require_not_paused entered.paused
    require_auth env from
    fail_if (to == from) transfer_to_zero_address
    fail_if (is_zero_address to) transfer_to_zero_address
    nft ← or_fail (entered.nft token_id) token_not_found
    fail_if (not (nft.owner == from)) not_owner
    fail_if nft.is_active nft_locked
    let from_balance = entered.owner_balance from
    let to_balance = entered.owner_balance to
    let lowered =
        if ltb 0 from_balance
        then update entered.owner_balance from (from_balance - 1)
        else entered.owner_balance
    raised ← one_more to_balance
    let taken = update entered.owner_tokens from (remove_first token_id (entered.owner_tokens from))
    ok (
        leave (record entered {
          nft = update entered.nft token_id (some (record nft { owner = to }));
          owner_balance = update lowered to raised;
          owner_tokens = update taken to (taken to ++ (token_id ∷ []));
        }))

  unfoldable pub mark_inactive : (caller : Address) (token_id : ℕ) → Nfts → Result Nfts
  unfolding enter require_not_paused require_core_contract_caller
  mark_inactive caller token_id s = do
    entered ← enter s
    require_core_contract_caller env caller entered
    require_not_paused entered.paused
    nft ← or_fail (entered.nft token_id) token_not_found
    fail_if (not nft.is_active) already_settled
    ok (
        leave (record entered {
          nft = update entered.nft token_id (some (record nft { is_active = false }));
        }))

  unfoldable pub settle : (caller : Address) (token_id : ℕ) → Nfts → Result Nfts
  unfolding enter require_not_paused require_core_contract_caller
  settle caller token_id s = do
    entered ← enter s
    require_core_contract_caller env caller entered
    require_not_paused entered.paused
    nft ← or_fail (entered.nft token_id) token_not_found
    fail_if (not nft.is_active) already_settled
    fail_if (ltb env.now nft.metadata.expires_at) not_expired
    ok (
        leave (record entered {
          nft = update entered.nft token_id (some (record nft { is_active = false }));
        }))

unfoldable pub get_commitment_by_id : (commitment_id : Bytes) → Nfts → Result CommitmentNft
get_commitment_by_id commitment_id s = do
  token_id ← or_fail (s.commitment_id_index commitment_id) token_not_found
  or_fail (s.nft token_id) token_not_found

unfoldable pub get_all_metadata : Nfts → List CommitmentNft
unfolding collect
get_all_metadata s = collect s.nft s.token_ids

unfoldable pub get_nfts_by_owner : (owner : Address) → Nfts → List CommitmentNft
unfolding collect
get_nfts_by_owner owner s = collect s.nft (s.owner_tokens owner)
