-- ===== src/Core/Effects.antt =====
-- What each successful lifecycle operation of the core contract requires, writes and calls.
use commitlabs_contracts.Prelude.{
  ◌≤◌, ◌≡◌, true, false, Option, none, some, arith, update, remove_first, if◌then◌else◌, nat_key,
  mem,
}
use commitlabs_contracts.Prelude.Int.{ℤ, pos, ◌≤ℤ◌, ◌+ℤ◌, ◌-ℤ◌, ltb_ℤ}
use commitlabs_contracts.Shared.Outcome.{ok}
use commitlabs_contracts.Shared.Math.{penalty_amount}
use commitlabs_contracts.Shared.Math
use commitlabs_contracts.Core.Types.{
  Address, Bytes, bytes_key, Commitment, Env, External, Core, active, violated, settled, Status,
}
use commitlabs_contracts.Core.Store.{is_updater, is_allocator}
use commitlabs_contracts.Core.Lifecycle.{settle, early_exit, allocate, update_value, loss_of_value}

-- One call of another contract after another.
abbrev pub then_call {ℓ} : {A : Type ℓ} → Option A → (A → Option A) → Option A
then_call none f = none
then_call (some w) f = f w

module _ {W : Type 0} (x : External W) (env : Env) (s s' : Core W) (id : Bytes)
    (c : Commitment) where
  settle_guards :
      s.commitment id ≡ some c
      → settle x env id s ≡ ok s'
      → (s.reentrancy_guard ≡ false)
        × (s.paused ≡ false)
        × (c.expires_at ≤ env.now)
        × (c.status ≡ active)
  unfolding settle
  settle_guards found e = ground arith

  module _ {nft : Address} (found : s.commitment id ≡ some c) (known : s.nft_contract ≡ some nft)
      (calm : s.reentrancy_guard ≡ false) (running : s.paused ≡ false)
      (due : c.expires_at ≤ env.now) (live : c.status ≡ active)
      (e : settle x env id s ≡ ok s') where
    settle_pays :
        (s'.reentrancy_guard ≡ false)
        × (then_call
              (x.transfer c.asset_address env.this c.owner c.current_value s.world)
              (x.settle nft env.this c.nft_token_id)
            ≡ some s'.world)
    unfolding settle Math.sub
    settle_pays = ground arith

    settle_writes :
        (s'.commitment ≡ update s.commitment c.commitment_id (some (record c { status = settled })))
        × (s'.all_commitment_ids ≡ s.all_commitment_ids)
        × (s'.total_commitments ≡ s.total_commitments)
        × (s'.owner_commitments c.owner ≡ (
            if mem id (s.owner_commitments c.owner)
            then remove_first id (s.owner_commitments c.owner)
            else s.owner_commitments c.owner))
    unfolding settle Math.sub
    settle_writes = ground arith

    settle_lowers : s'.total_value_locked ≡ (
        if ltb_ℤ c.current_value s.total_value_locked
        then s.total_value_locked -ℤ c.current_value
        else pos 0)
    unfolding settle Math.sub
    settle_lowers = ground arith

  -- With an NFT contract set, a settlement that succeeds was made outside any other guarded call, unpaused, at or after the
  -- expiry, of an active commitment. It marks the record settled, takes its value off the locked
  -- total (which stops at zero), drops the id from the owner's list and leaves the lists of ids
  -- alone; it pays the value to the owner and then tells the NFT contract.
  pub settle_effect :
      {nft : Address}
      → s.commitment id ≡ some c
      → s.nft_contract ≡ some nft
      → settle x env id s ≡ ok s'
      → (s.reentrancy_guard ≡ false)
        × (s.paused ≡ false)
        × (c.expires_at ≤ env.now)
        × (c.status ≡ active)
        × (s'.commitment
            ≡ update s.commitment c.commitment_id (some (record c { status = settled })))
        × (s'.all_commitment_ids ≡ s.all_commitment_ids)
        × (s'.total_commitments ≡ s.total_commitments)
        × (s'.total_value_locked ≡ (
            if ltb_ℤ c.current_value s.total_value_locked
            then s.total_value_locked -ℤ c.current_value
            else pos 0))
        × (s'.owner_commitments c.owner ≡ (
            if mem id (s.owner_commitments c.owner)
            then remove_first id (s.owner_commitments c.owner)
            else s.owner_commitments c.owner))
        × (s'.reentrancy_guard ≡ false)
        × (then_call
              (x.transfer c.asset_address env.this c.owner c.current_value s.world)
              (x.settle nft env.this c.nft_token_id)
            ≡ some s'.world)
  settle_effect found known e =
      let (calm, running, due, live) = settle_guards found e in
      let (commitments, ids, total, owners) = settle_writes found known calm running due live e in
      let (guard, world) = settle_pays found known calm running due live e in
      (
        calm,
        running,
        due,
        live,
        commitments,
        ids,
        total,
        settle_lowers found known calm running due live e,
        owners,
        guard,
        world,
      )

  -- Where the penalty on the value and the rest of it are defined, an early exit of a stored commitment
  -- that succeeds was made outside any other guarded call, unpaused, by the owner, who signed, of an active commitment.
  -- It adds the penalty to the collected fees of the asset when it is positive, marks the record as
  -- exited with value zero and takes the whole value off the locked total.
  pub early_exit_effect :
      {caller : Address} {penalty returned : ℤ}
      → s.commitment id ≡ some c
      → penalty_amount c.current_value c.rules.early_exit_penalty ≡ ok penalty
      → Math.sub c.current_value penalty ≡ ok returned
      → early_exit x env id caller s ≡ ok s'
      → (s.reentrancy_guard ≡ false)
        × (s.paused ≡ false)
        × (env.signed caller ≡ true)
        × (c.owner ≡ caller)
        × (c.status ≡ active)
        × (s'.commitment
            ≡ update s.commitment c.commitment_id
                (some (record c { status = Status.early_exit; current_value = pos 0 })))
        × (s'.all_commitment_ids ≡ s.all_commitment_ids)
        × (s'.total_commitments ≡ s.total_commitments)
        × (s'.total_value_locked ≡ s.total_value_locked -ℤ c.current_value)
        × (s'.collected_fees c.asset_address ≡ (
            if ltb_ℤ (pos 0) penalty
            then s.collected_fees c.asset_address +ℤ penalty
            else s.collected_fees c.asset_address))
        × (s'.reentrancy_guard ≡ false)
  unfolding early_exit
  early_exit_effect found split rest e = ground arith

  -- An allocation from a stored commitment that succeeds was made outside any other guarded call,
  -- unpaused, by a signed allocator, of a positive amount that an
  -- active commitment holds. It takes the amount off the record's value and off the locked total,
  -- pays it to the pool and changes nothing else of the record.
  pub allocate_effect :
      {caller pool : Address} {amount : ℤ}
      → s.commitment id ≡ some c
      → allocate x env caller id pool amount s ≡ ok s'
      → (s.reentrancy_guard ≡ false)
        × (s.paused ≡ false)
        × (env.signed caller ≡ true)
        × (is_allocator caller s ≡ true)
        × (c.status ≡ active)
        × (pos 1 ≤ℤ amount)
        × (amount ≤ℤ c.current_value)
        × (s'.commitment
            ≡ update s.commitment c.commitment_id
                (some (record c { current_value = c.current_value -ℤ amount })))
        × (s'.all_commitment_ids ≡ s.all_commitment_ids)
        × (s'.total_commitments ≡ s.total_commitments)
        × (s'.total_value_locked ≡ s.total_value_locked -ℤ amount)
        × (x.transfer c.asset_address env.this pool amount s.world ≡ some s'.world)
        × (s'.reentrancy_guard ≡ false)
  unfolding allocate Math.sub
  allocate_effect found e = ground arith

  -- Where the loss against the committed amount is defined, a value update of a stored commitment that
  -- succeeds was made by a signed updater, of an active commitment, to a value that is not negative. It writes the value,
  -- marks the record violated exactly when the loss exceeds the rules' limit, moves the locked total
  -- by the difference and calls no other contract.
  pub update_value_effect :
      {caller : Address} (value : ℤ) {loss : ℤ}
      → s.commitment id ≡ some c
      → loss_of_value c.amount value ≡ ok loss
      → update_value x env caller id value s ≡ ok s'
      → (env.signed caller ≡ true)
        × (is_updater caller s ≡ true)
        × (c.status ≡ active)
        × (pos 0 ≤ℤ value)
        × (s'.commitment
            ≡ update s.commitment c.commitment_id (
                some (record c {
                  current_value = value;
                  status = if ltb_ℤ (pos c.rules.max_loss_percent) loss then violated else active;
                })))
        × (s'.all_commitment_ids ≡ s.all_commitment_ids)
        × (s'.total_commitments ≡ s.total_commitments)
        × (s'.total_value_locked ≡ s.total_value_locked -ℤ c.current_value +ℤ value)
        × (s'.world ≡ s.world)
  unfolding update_value is_updater
  update_value_effect value found lost e = ground arith
