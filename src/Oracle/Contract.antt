-- ===== src/Oracle/Contract.antt =====
-- The entry points of contracts/price_oracle/src/lib.rs that write, as calls, and runs.
use commitlabs_contracts.Prelude.{ℕ, false, none, List, [], ◌∷◌}
use commitlabs_contracts.Prelude.Int.{ℤ}
use commitlabs_contracts.Shared.Outcome.{Result, ok, panic}
use commitlabs_contracts.Core.Types.{Address, Env}
use commitlabs_contracts.Oracle.Types.{Oracle}
use commitlabs_contracts.Oracle.Store
use commitlabs_contracts.Oracle.Prices

pub data Call : Type 0 where
  initialize : (admin : Address) → Call
  add_oracle remove_oracle : (caller oracle_address : Address) → Call
  set_price : (caller asset : Address) (price : ℤ) (decimals : ℕ) → Call
  set_max_staleness : (caller : Address) (seconds : ℕ) → Call
  set_admin : (caller new_admin : Address) → Call
  upgrade : (caller : Address) (new_wasm_hash : ℕ) → Call
  migrate : (caller : Address) (from_version : ℕ) → Call

unfoldable pub invoke : Env → Call → Oracle → Result Oracle
invoke env (Call.initialize a) s = Store.initialize a s
invoke env (Call.add_oracle w o) s = Store.add_oracle env w o s
invoke env (Call.remove_oracle w o) s = Store.remove_oracle env w o s
invoke env (Call.set_price w a p d) s = Prices.set_price env w a p d s
invoke env (Call.set_max_staleness w n) s = Store.set_max_staleness env w n s
invoke env (Call.set_admin w a) s = Store.set_admin env w a s
invoke env (Call.upgrade w h) s = Store.upgrade env w h s
invoke env (Call.migrate w v) s = Store.migrate env w v s

-- A call that fails leaves the state as it was.
abbrev pub after : Oracle → Result Oracle → Oracle
after s (ok s') = s'
after s (panic p) = s

unfoldable pub run : List (Env × Call) → Oracle → Oracle
unfolding invoke
run [] s = s
run ((env, call) ∷ rest) s = run rest (after s (invoke env call s))

-- The storage of a contract that was just deployed: every key is absent.
abbrev pub deployed : Oracle
deployed = record {
  admin = none;
  max_staleness_seconds = none;
  oracle_whitelist = λ _. false;
  price = λ _. none;
  oracle_config = none;
  version = 0;
}
