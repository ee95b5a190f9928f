-- ===== src/Nft/Contract.antt =====
-- The entry points of contracts/commitment_nft/src/lib.rs that write, as calls, and runs.
use commitlabs_contracts.Prelude.{ℕ, Bool, false, none, List, [], ◌∷◌}
use commitlabs_contracts.Prelude.Int.{ℤ}
use commitlabs_contracts.Shared.Outcome.{Result, ok, panic}
use commitlabs_contracts.Core.Types.{Address, Bytes, CommitmentType, Env}
use commitlabs_contracts.Nft.Types.{Nfts}
use commitlabs_contracts.Nft.Store
use commitlabs_contracts.Nft.Tokens

pub data Call : Type 0 where
  initialize : (admin : Address) → Call
  pause unpause : Call
  set_core_contract : (core_contract : Address) → Call
  add_authorized_contract remove_authorized_contract : (caller contract_address : Address) → Call
  set_admin : (caller new_admin : Address) → Call
  upgrade : (caller : Address) (new_wasm_hash : ℕ) → Call
  migrate : (caller : Address) (from_version : ℕ) → Call
  set_emergency_mode : (caller : Address) (enabled : Bool) → Call
  mint :
      (caller owner : Address) (commitment_id : Bytes) (duration_days max_loss_percent : ℕ)
      (commitment_type : CommitmentType) (initial_amount : ℤ) (asset_address : Address)
      (early_exit_penalty : ℕ)
      → Call
  transfer : (from to : Address) (token_id : ℕ) → Call
  mark_inactive settle : (caller : Address) (token_id : ℕ) → Call

-- The new storage of a call that gives a value too.
abbrev pub new_state : Result (ℕ × Nfts) → Result Nfts
new_state (ok (id, s)) = ok s
new_state (panic p) = panic p

unfoldable pub invoke : Env → Call → Nfts → Result Nfts
invoke env (Call.initialize a) s = Store.initialize env a s
invoke env Call.pause s = Store.pause env s
invoke env Call.unpause s = Store.unpause env s
invoke env (Call.set_core_contract c) s = Store.set_core_contract env c s
invoke env (Call.add_authorized_contract w c) s = Store.add_authorized_contract env w c s
invoke env (Call.remove_authorized_contract w c) s = Store.remove_authorized_contract env w c s
invoke env (Call.set_admin w a) s = Store.set_admin env w a s
invoke env (Call.upgrade w h) s = Store.upgrade env w h s
invoke env (Call.migrate w v) s = Store.migrate env w v s
invoke env (Call.set_emergency_mode w b) s = Store.set_emergency_mode env w b s
invoke env (Call.mint w o c d l k a t p) s = new_state (Tokens.mint env w o c d l k a t p s)
invoke env (Call.transfer f t id) s = Tokens.transfer env f t id s
invoke env (Call.mark_inactive w id) s = Tokens.mark_inactive env w id s
invoke env (Call.settle w id) s = Tokens.settle env w id s

-- A call that fails leaves the state as it was.
abbrev pub after : Nfts → Result Nfts → Nfts
after s (ok s') = s'
after s (panic p) = s

unfoldable pub run : List (Env × Call) → Nfts → Nfts
unfolding invoke
run [] s = s
run ((env, call) ∷ rest) s = run rest (after s (invoke env call s))

-- The storage of a contract that was just deployed: every key is absent.
abbrev pub deployed : Nfts
deployed = record {
  admin = none;
  token_counter = 0;
  nft = λ _. none;
  owner_balance = λ _. 0;
  owner_tokens = λ _. [];
  token_ids = [];
  core_contract = none;
  authorized_minter = λ _. false;
  reentrancy_guard = false;
  version = 0;
  commitment_id_index = λ _. none;
  paused = false;
  emergency_mode = false;
}
