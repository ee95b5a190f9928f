-- ===== src/Nft/Effects.antt =====
-- What the operations on tokens require and change when they succeed.
use commitlabs_contracts.Prelude.{
  ℕ, ◌+◌, ◌-◌, ◌*◌, ◌^◌, ◌≤◌, ◌<◌, ◌≡◌, true, false, some, is_some, [], ◌∷◌, ◌++◌, arith, ltb, ◌==◌,
  if◌then◌else◌, update, remove_first, nat_key,
}
use commitlabs_contracts.Prelude.Int.{ℤ, pos, ◌≤ℤ◌, ◌+ℤ◌}
use commitlabs_contracts.Shared.Outcome.{ok}
use commitlabs_contracts.Shared.Math
use commitlabs_contracts.Core.Types.{Address, Bytes, bytes_key, CommitmentType, Env}
use commitlabs_contracts.Core.Store.{is_the, is_zero_address}
use commitlabs_contracts.Nft.Types.{Nfts, CommitmentNft}
use commitlabs_contracts.Nft.Id.{format_commitment_id}
use commitlabs_contracts.Nft.Tokens.{
  next_token_id, store_minted, mint, transfer, mark_inactive, settle, is_valid_commitment_type,
}

pub next_token_id_small : (id : ℕ) → id + 1 < 2 ^ 32 → next_token_id id ≡ ok (id + 1)
unfolding next_token_id Math.add ◌+ℤ◌
next_token_id_small id small = ground arith

-- The parts of the storage that are about tokens.
abbrev pub KeepsTokens : Nfts → Nfts → Type 0
KeepsTokens s s' =
    (s'.token_counter ≡ s.token_counter)
    × (s'.nft ≡ s.nft)
    × (s'.owner_balance ≡ s.owner_balance)
    × (s'.owner_tokens ≡ s.owner_tokens)
    × (s'.token_ids ≡ s.token_ids)
    × (s'.commitment_id_index ≡ s.commitment_id_index)
    × (s'.reentrancy_guard ≡ s.reentrancy_guard)

module _ (env : Env) (s s' : Nfts) where
  module _ (owner : Address) (duration loss : ℕ) (kind : CommitmentType) (amount : ℤ)
      (asset : Address) (penalty expires : ℕ) where
    -- The token that `mint` stores.
    abbrev pub minted : CommitmentNft
    minted = record {
      owner = owner;
      token_id = s.token_counter;
      metadata = record {
        commitment_id = format_commitment_id s.token_counter;
        duration_days = duration;
        max_loss_percent = loss;
        commitment_type = kind;
        created_at = env.now;
        expires_at = expires;
        initial_amount = amount;
        asset_address = asset;
        early_exit_penalty = penalty;
      };
      is_active = true;
      early_exit_penalty = penalty;
    }

    pub store_minted_effect :
        (id : ℕ)
        → s.token_counter + 1 < 2 ^ 32
        → store_minted env owner duration loss kind amount asset penalty expires s ≡ ok (id, s')
        → (id ≡ s.token_counter)
          × (s'.token_counter ≡ s.token_counter + 1)
          × (s'.commitment_id_index
              ≡ update s.commitment_id_index
                  (format_commitment_id s.token_counter)
                  (some s.token_counter))
          × (s'.nft ≡ update s.nft s.token_counter (some minted))
          × (s'.owner_balance ≡ update s.owner_balance owner (s.owner_balance owner + 1))
          × (s'.owner_tokens
              ≡ update s.owner_tokens owner (s.owner_tokens owner ++ (s.token_counter ∷ [])))
          × (s'.token_ids ≡ s.token_ids ++ (s.token_counter ∷ []))
          × (s'.reentrancy_guard ≡ false)
          × (s'.admin ≡ s.admin)
    unfolding store_minted
    store_minted_effect id small e = ground (arith, next_token_id_small s.token_counter small)

  -- A successful `mint` passed every check, and stores the token.
  pub mint_stores :
      (caller owner : Address) (given : Bytes) (duration loss : ℕ) (kind : CommitmentType)
      (amount : ℤ) (asset : Address) (penalty id : ℕ)
      → mint env caller owner given duration loss kind amount asset penalty s ≡ ok (id, s')
      → (is_some s.admin ≡ true)
        × (env.signed caller ≡ true)
        × (1 ≤ duration)
        × (loss ≤ 100)
        × (pos 0 ≤ℤ amount)
        × (is_valid_commitment_type kind ≡ true)
        × (is_zero_address asset ≡ false)
        × (is_zero_address owner ≡ false)
        × (store_minted env owner duration loss kind amount asset penalty
              (env.now + duration * 86400)
              (record s { reentrancy_guard = true })
            ≡ ok (id, s'))
  unfolding mint
  mint_stores caller owner given duration loss kind amount asset penalty id e = ground arith

  module _ (token_id : ℕ) (n : CommitmentNft) (found : s.nft token_id ≡ some n) where
    abbrev Retired : Type 0
    Retired =
        (s'.nft ≡ update s.nft token_id (some (record n { is_active = false })))
        × (s'.token_counter ≡ s.token_counter)
        × (s'.owner_balance ≡ s.owner_balance)
        × (s'.owner_tokens ≡ s.owner_tokens)
        × (s'.token_ids ≡ s.token_ids)
        × (s'.commitment_id_index ≡ s.commitment_id_index)
        × (s'.reentrancy_guard ≡ false)
        × (s'.admin ≡ s.admin)

    pub mark_inactive_effect :
        (caller : Address)
        → mark_inactive env caller token_id s ≡ ok s'
        → (env.signed caller ≡ true)
          × (is_the s.core_contract caller ≡ true)
          × (n.is_active ≡ true)
          × Retired
    unfolding mark_inactive
    mark_inactive_effect caller e = ground arith

    pub settle_effect :
        (caller : Address)
        → settle env caller token_id s ≡ ok s'
        → (env.signed caller ≡ true)
          × (is_the s.core_contract caller ≡ true)
          × (n.is_active ≡ true)
          × (n.metadata.expires_at ≤ env.now)
          × Retired
    unfolding settle
    settle_effect caller e = ground arith

    pub transfer_guards :
        (from to : Address)
        → transfer env from to token_id s ≡ ok s'
        → (env.signed from ≡ true)
          × ((to == from) ≡ false)
          × (n.owner ≡ from)
          × (n.is_active ≡ false)
          × (is_zero_address to ≡ false)
    unfolding transfer
    transfer_guards from to e = ground arith

    pub transfer_writes :
        (from to : Address)
        → transfer env from to token_id s ≡ ok s'
        → (s'.nft ≡ update s.nft token_id (some (record n { owner = to })))
          × (s'.token_counter ≡ s.token_counter)
          × (s'.owner_balance
              ≡ update
                  (if ltb 0 (s.owner_balance from)
                    then update s.owner_balance from (s.owner_balance from - 1)
                    else s.owner_balance)
                  to
                  (s.owner_balance to + 1))
          × (s'.owner_tokens
              ≡ update
                  (update s.owner_tokens from (remove_first token_id (s.owner_tokens from)))
                  to
                  (update s.owner_tokens from (remove_first token_id (s.owner_tokens from)) to
                    ++ (token_id ∷ [])))
          × (s'.token_ids ≡ s.token_ids)
          × (s'.commitment_id_index ≡ s.commitment_id_index)
          × (s'.reentrancy_guard ≡ false)
          × (s'.admin ≡ s.admin)
    unfolding transfer
    transfer_writes from to e = ground arith
