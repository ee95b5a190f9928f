-- ===== src/Core/Invariant/Wiring.antt =====
-- What the calls of the core contract leave of its wiring, and those about roles, switches, limits
-- and fees of its ledger.
use commitlabs_contracts.Prelude.{◌≡◌, true, ◌⊎◌, arith, is_some}
use commitlabs_contracts.Prelude.Int.{ℤ}
use commitlabs_contracts.Shared.Outcome.{ok}
use commitlabs_contracts.Shared.RateLimiting.{set_limit}
use commitlabs_contracts.Core.Types.{
  Address, Bytes, bytes_key, CommitmentRules, Env, External, Core,
}
use commitlabs_contracts.Core.Lifecycle.{
  settle, early_exit, allocate, update_value, create_commitment, create_checked,
}
use commitlabs_contracts.Core.Governance
use commitlabs_contracts.Core.Contract.{Call, invoke}

-- The admin and the NFT contract are set together, and before that nothing was created.
pub record IsSetUp {W : Type 0} (s : Core W) : Type 0 where
  pub linked : is_some s.admin ≡ is_some s.nft_contract
  pub started : (is_some s.admin ≡ true) ⊎ (s.total_commitments ≡ 0)

-- What a call that neither creates nor initialises leaves of it.
abbrev pub KeepsSetUp : {W : Type 0} → Core W → Core W → Type 0
KeepsSetUp s s' =
    (s'.admin ≡ s.admin)
    × (s'.nft_contract ≡ s.nft_contract)
    × (s'.total_commitments ≡ s.total_commitments)

-- And of the ledger, if it is a call about roles, switches, limits or fees.
abbrev pub KeepsLedger : {W : Type 0} → Core W → Core W → Type 0
KeepsLedger s s' =
    (s'.commitment ≡ s.commitment)
    × (s'.all_commitment_ids ≡ s.all_commitment_ids)
    × (s'.total_commitments ≡ s.total_commitments)
    × (s'.total_value_locked ≡ s.total_value_locked)

module _ {W : Type 0} {s : Core W} where
  pub IsSetUp-same : (s' : Core W) → KeepsSetUp s s' → IsSetUp s → IsSetUp s'
  IsSetUp-same s' (ea, en, et) u = record {
    linked = rw (ea, en) u.linked;
    started = rw (ea, et) u.started;
  }

-- The calls about roles, switches, limits and fees.
abbrev pub IsGovernance : Call → Type 0
IsGovernance (Call.initialize a n) = ⊥
IsGovernance (Call.create_commitment o a t r) = ⊥
IsGovernance (Call.update_value c i v) = ⊥
IsGovernance (Call.settle i) = ⊥
IsGovernance (Call.early_exit i c) = ⊥
IsGovernance (Call.allocate c i p a) = ⊥
IsGovernance _ = Unit

module _ {W : Type 0} (x : External W) (env : Env) (s s' : Core W) where
  pub governance_keeps :
      (call : Call)
      → IsGovernance call
      → invoke x env call s ≡ ok s'
      → KeepsSetUp s s' × KeepsLedger s s'
  unfolding invoke Governance.pause Governance.unpause Governance.set_allocator
      Governance.set_updater Governance.set_guardian Governance.set_treasurer
      Governance.set_operator Governance.set_allocation_contract Governance.set_rate_limit
      Governance.set_rate_limit_exempt Governance.set_emergency_mode Governance.emergency_withdraw
      Governance.set_creation_fee_bps Governance.set_fee_recipient Governance.withdraw_fees
      set_limit
  governance_keeps (Call.initialize a n) g e = absurd g
  governance_keeps call g e = ground arith

  -- Neither do the lifecycle calls change the wiring, but for the counter.
  pub settle_keeps : (id : Bytes) → settle x env id s ≡ ok s' → KeepsSetUp s s'
  unfolding settle
  settle_keeps id e = ground arith

  pub early_exit_keeps :
      (id : Bytes) (caller : Address) → early_exit x env id caller s ≡ ok s' → KeepsSetUp s s'
  unfolding early_exit
  early_exit_keeps id caller e = ground arith

  pub allocate_keeps :
      (caller : Address) (id : Bytes) (pool : Address) (amount : ℤ)
      → allocate x env caller id pool amount s ≡ ok s'
      → KeepsSetUp s s'
  unfolding allocate
  allocate_keeps caller id pool amount e = ground arith

  pub update_value_keeps :
      (caller : Address) (id : Bytes) (value : ℤ)
      → update_value x env caller id value s ≡ ok s'
      → KeepsSetUp s s'
  unfolding update_value
  update_value_keeps caller id value e = ground arith

  pub create_commitment_keeps :
      (owner : Address) (amount : ℤ) (asset : Address) (rules : CommitmentRules)
      → create_commitment x env owner amount asset rules s ≡ ok s'
      → (s'.admin ≡ s.admin) × (s'.nft_contract ≡ s.nft_contract) × (is_some s.nft_contract ≡ true)
  unfolding create_commitment create_checked
  create_commitment_keeps owner amount asset rules e = ground arith
