-- ===== src/Core/Creation.antt =====
-- What a successful creation of a commitment requires and writes.
use commitlabs_contracts.Prelude.{
  ℕ, ◌+◌, ◌^◌, ◌<◌, ◌≡◌, ◌≢◌, true, false, none, some, [], ◌∷◌, ◌++◌, arith, update, nat_key,
}
use commitlabs_contracts.Prelude.Int.{ℤ, pos, ◌≤ℤ◌, ◌+ℤ◌, ◌-ℤ◌}
use commitlabs_contracts.Shared.Outcome.{ok}
use commitlabs_contracts.Shared.RateLimiting.{Limiter, check}
use commitlabs_contracts.Shared.Time.{checked_calculate_expiration}
use commitlabs_contracts.Core.Id.{generate_commitment_id}
use commitlabs_contracts.Core.Types.{
  Address, zero_address, bytes_key, CommitmentRules, Commitment, Env, External, Core, active,
}
use commitlabs_contracts.Core.Lifecycle.{
  create_checked, create_commitment, create_symbol, creation_fee_of, validate_rules,
}

module _ {W : Type 0} (env : Env) (s : Core W) (owner : Address) (net : ℤ) (asset : Address)
    (rules : CommitmentRules) (expires_at : ℕ) where
  -- The record that a creation writes first, field by field, and the one with its NFT.
  abbrev pub made : Commitment
  made = record {
    commitment_id = generate_commitment_id s.total_commitments;
    owner = owner;
    nft_token_id = 0;
    rules = rules;
    amount = net;
    asset_address = asset;
    created_at = env.now;
    expires_at = expires_at;
    current_value = net;
    status = active;
  }

  abbrev pub created : ℕ → Commitment
  created token = record made { nft_token_id = token }

-- The state in which the checks of `create_commitment` hand over.
abbrev pub entered : {W : Type 0} → Core W → Limiter → Core W
entered s limiter = record s { reentrancy_guard = true; limiter = limiter }

module _ {W : Type 0} (x : External W) (env : Env) (s s' : Core W) where
  module _ (owner : Address) (amount fee net : ℤ) (asset : Address) (rules : CommitmentRules)
      (expires_at : ℕ) where
    -- When the NFT contract is set, the payment moves and the NFT contract mints a token, the checked part
    -- of a creation, if it succeeds, found the id of the counter free. It stores under that id an active
    -- commitment whose amount and current value are the net amount, with the given owner, asset, rules
    -- and expiry, created now, first with the token number 0 and then with that of the token, appends the id to the list of all ids and counts it, within 64 bits, adds the net
    -- amount to the locked total and ends with the reentrancy flag down.
    pub create_checked_writes :
        {nft token : ℕ} {w w' : W}
        → s.nft_contract ≡ some nft
        → x.transfer asset owner env.this amount s.world ≡ some w
        → x.mint nft env.this owner
            (generate_commitment_id s.total_commitments)
            rules.duration_days
            rules.max_loss_percent
            rules.commitment_type
            net
            asset
            rules.early_exit_penalty
            w
          ≡ some (token, w')
        → create_checked x env owner amount fee net asset rules expires_at s ≡ ok s'
        → let m = made env s owner net asset rules expires_at in
          (s.commitment m.commitment_id ≡ none)
          × (s'.commitment
              ≡ update
                  (update s.commitment m.commitment_id (some m))
                  m.commitment_id
                  (some (record m { nft_token_id = token })))
          × (s'.all_commitment_ids ≡ s.all_commitment_ids ++ (m.commitment_id ∷ []))
          × (s'.total_commitments ≡ s.total_commitments + 1)
          × (s.total_commitments + 1 < 2 ^ 64)
          × (s'.total_value_locked ≡ s.total_value_locked +ℤ net)
          × (s'.reentrancy_guard ≡ false)
    unfolding create_checked
    create_checked_writes known paid minted e = ground arith

  module _ (owner : Address) (amount : ℤ) (asset : Address) (rules : CommitmentRules) where
    -- A creation that succeeds passed the guards, and is the checked part with the fee taken off.
    pub create_commitment_enters :
        {fee : ℤ} {expires_at : ℕ} {limiter : Limiter}
        → check env.now owner create_symbol s.limiter ≡ ok limiter
        → creation_fee_of amount s.creation_fee_bps ≡ ok fee
        → checked_calculate_expiration env.now rules.duration_days ≡ some expires_at
        → create_commitment x env owner amount asset rules s ≡ ok s'
        → (s.reentrancy_guard ≡ false)
          × (s.paused ≡ false)
          × (s.emergency_mode ≡ false)
          × (env.signed owner ≡ true)
          × (owner ≢ zero_address)
          × (pos 1 ≤ℤ amount)
          × (validate_rules rules ≡ ok tt)
          × (create_checked x env owner amount fee
                (amount -ℤ fee)
                asset
                rules
                expires_at
                (entered s limiter)
              ≡ ok s')
    unfolding create_commitment
    create_commitment_enters counted charged dated e = ground arith
