-- ===== src/Core/Contract.antt =====
-- The entry points of the core contract as one type of calls, and sequences of calls.
use commitlabs_contracts.Prelude.{ℕ, Bool, false, none, List, [], ◌∷◌}
use commitlabs_contracts.Prelude.Int.{ℤ, pos}
use commitlabs_contracts.Shared.Outcome.{Result, ok, panic}
use commitlabs_contracts.Core.Types.{Address, Bytes, CommitmentRules, Env, External, Core}
use commitlabs_contracts.Core.Lifecycle
use commitlabs_contracts.Core.Governance

-- The entry points that can write. `add_authorized_contract` and `remove_authorized_contract` are
-- other names of those for allocators.
pub data Call : Type 0 where
  initialize : (admin nft_contract : Address) → Call
  create_commitment :
      (owner : Address) (amount : ℤ) (asset_address : Address) → CommitmentRules → Call
  update_value : (caller : Address) → Bytes → ℤ → Call
  settle : Bytes → Call
  early_exit : Bytes → (caller : Address) → Call
  allocate : (caller : Address) → Bytes → (target_pool : Address) → ℤ → Call
  pause unpause : (caller : Address) → Call
  set_allocator set_updater set_guardian set_treasurer set_operator :
      (caller who : Address) (granted : Bool) → Call
  set_allocation_contract : (caller addr : Address) → Call
  set_rate_limit : (caller : Address) (function window_seconds max_calls : ℕ) → Call
  set_rate_limit_exempt : (caller address : Address) (exempt : Bool) → Call
  set_emergency_mode : (caller : Address) (enabled : Bool) → Call
  emergency_withdraw : (caller asset to : Address) → ℤ → Call
  set_creation_fee_bps : (caller : Address) (bps : ℕ) → Call
  set_fee_recipient : (caller recipient : Address) → Call
  withdraw_fees : (caller asset_address : Address) → ℤ → Call

module _ {W : Type 0} where
  unfoldable pub invoke : External W → Env → Call → Core W → Result (Core W)
  invoke x env (Call.initialize admin nft) s = Governance.initialize admin nft s
  invoke x env (Call.create_commitment owner amount asset rules) s =
      Lifecycle.create_commitment x env owner amount asset rules s
  invoke x env (Call.update_value caller id value) s =
      Lifecycle.update_value x env caller id value s
  invoke x env (Call.settle id) s = Lifecycle.settle x env id s
  invoke x env (Call.early_exit id caller) s = Lifecycle.early_exit x env id caller s
  invoke x env (Call.allocate caller id pool amount) s =
      Lifecycle.allocate x env caller id pool amount s
  invoke x env (Call.pause caller) s = Governance.pause env caller s
  invoke x env (Call.unpause caller) s = Governance.unpause env caller s
  invoke x env (Call.set_allocator caller who granted) s =
      Governance.set_allocator env caller who granted s
  invoke x env (Call.set_updater caller who granted) s =
      Governance.set_updater env caller who granted s
  invoke x env (Call.set_guardian caller who granted) s =
      Governance.set_guardian env caller who granted s
  invoke x env (Call.set_treasurer caller who granted) s =
      Governance.set_treasurer env caller who granted s
  invoke x env (Call.set_operator caller who granted) s =
      Governance.set_operator env caller who granted s
  invoke x env (Call.set_allocation_contract caller addr) s =
      Governance.set_allocation_contract env caller addr s
  invoke x env (Call.set_rate_limit caller f w m) s = Governance.set_rate_limit env caller f w m s
  invoke x env (Call.set_rate_limit_exempt caller a b) s =
      Governance.set_rate_limit_exempt env caller a b s
  invoke x env (Call.set_emergency_mode caller enabled) s =
      Governance.set_emergency_mode env caller enabled s
  invoke x env (Call.emergency_withdraw caller asset to amount) s =
      Governance.emergency_withdraw x env caller asset to amount s
  invoke x env (Call.set_creation_fee_bps caller bps) s =
      Governance.set_creation_fee_bps env caller bps s
  invoke x env (Call.set_fee_recipient caller who) s = Governance.set_fee_recipient env caller who s
  invoke x env (Call.withdraw_fees caller asset amount) s =
      Governance.withdraw_fees x env caller asset amount s

  -- A call that panics leaves the state as it was.
  abbrev pub after : Core W → Result (Core W) → Core W
  after s (ok s') = s'
  after s (panic p) = s

  unfoldable pub run : External W → List (Env × Call) → Core W → Core W
  run x [] s = s
  run x ((env, call) ∷ rest) s = run x rest (after s (invoke x env call s))

  -- The storage of a contract that was just deployed: every key is absent.
  abbrev pub deployed : W → Core W
  deployed w = record {
    admin = none;
    nft_contract = none;
    allocation_contract = none;
    commitment = λ _. none;
    owner_commitments = λ _. [];
    total_commitments = 0;
    reentrancy_guard = false;
    total_value_locked = pos 0;
    authorized_allocator = λ _. false;
    authorized_updater = λ _. false;
    authorized_guardian = λ _. false;
    authorized_treasurer = λ _. false;
    authorized_operator = λ _. false;
    all_commitment_ids = [];
    fee_recipient = none;
    creation_fee_bps = 0;
    collected_fees = λ _. pos 0;
    paused = false;
    emergency_mode = false;
    limiter = record { config = λ _. none; state = λ _ _. none; exempt = λ _. false };
    world = w;
  }
