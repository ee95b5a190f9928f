-- ===== src/TimeLock/Contract.antt =====
-- The entry points of contracts/time_lock/src/lib.rs as calls, and runs of them.
use commitlabs_contracts.Prelude.{ℕ, none, List, [], ◌∷◌}
use commitlabs_contracts.Shared.Outcome.{Result, ok, panic, ◌>>=◌}
use commitlabs_contracts.TimeLock
use commitlabs_contracts.TimeLock.{ActionType, TimeLock, Host}

-- A call of one of the entry points that write.
pub data Call : Type 0 where
  initialize : (admin : ℕ) → Call
  queue_action : ActionType → (target : ℕ) → List ℕ → (delay : ℕ) → Call
  execute_action : (action_id : ℕ) → Call
  cancel_action : (action_id : ℕ) → Call

unfoldable pub invoke : Host → Call → TimeLock → Result TimeLock
invoke env (Call.initialize admin) s = TimeLock.initialize admin s
invoke env (Call.queue_action kind target data_bytes delay) s =
    TimeLock.queue_action env kind target data_bytes delay s >>= λ (id, s'). ok s'
invoke env (Call.execute_action id) s = TimeLock.execute_action env id s
invoke env (Call.cancel_action id) s = TimeLock.cancel_action env id s

abbrev pub after : TimeLock → Result TimeLock → TimeLock
after s (ok s') = s'
after s (panic p) = s

unfoldable pub run : List (Host × Call) → TimeLock → TimeLock
unfolding invoke
run [] s = s
run ((env, call) ∷ rest) s = run rest (after s (invoke env call s))

abbrev pub deployed : TimeLock
deployed = record { admin = none; action_counter = none; action = λ _. none; action_ids = none }
