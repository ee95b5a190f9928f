-- ===== src/TimeLock/Tests.antt =====
-- Concrete runs of the timelock.
use commitlabs_contracts.Prelude.{
  ℕ, ◌+◌, ◌≤◌, ◌≡◌, refl, true, false, some, List, [], ◌∷◌, mem, nat_key,
}
use commitlabs_contracts.Shared.Outcome.{ok}
use commitlabs_contracts.TimeLock.{
  fee_change, upgrade, get_delay, QueuedAction, TimeLock, Host, initialize, queue_action,
  execute_action, cancel_action, get_executable_actions,
}
use commitlabs_contracts.TimeLock.Contract.{Call, invoke, after, run, deployed}
use commitlabs_contracts.TimeLock.Invariant.{IsOrderly}
use commitlabs_contracts.TimeLock.Reachable.{run-IsOrderly}
use commitlabs_contracts.TimeLock.Fate.{executed_after_delay, run_final}
use commitlabs_contracts.TimeLock.Listing.{is_ok, get_executable_actions_lem}

abbrev at : ℕ → Host
at t = record { now = t; signed = λ _. true }

-- Two actions are queued at time 1000, and the second is cancelled.
abbrev calls : List (Host × Call)
calls =
    (at 1000, Call.initialize 7)
    ∷ (at 1000, Call.queue_action fee_change 8 [] 86400)
    ∷ (at 1000, Call.queue_action upgrade 8 (65 ∷ []) 259200)
    ∷ (at 2000, Call.cancel_action 2)
    ∷ []

abbrev lock : TimeLock
lock = run calls deployed

abbrev first : QueuedAction
first = record {
  id = 1;
  action_type = fee_change;
  target = 8;
  data_bytes = [];
  queued_at = 1000;
  executable_at = 87400;
  executed = false;
  cancelled = false;
}

abbrev second : QueuedAction
second = record {
  id = 2;
  action_type = upgrade;
  target = 8;
  data_bytes = 65 ∷ [];
  queued_at = 1000;
  executable_at = 260200;
  executed = false;
  cancelled = true;
}

first_stored : lock.action 1 ≡ some first
unfolding run invoke initialize queue_action cancel_action
first_stored = refl

second_stored : lock.action 2 ≡ some second
unfolding run invoke initialize queue_action cancel_action
second_stored = refl

abbrev executed_lock : TimeLock
executed_lock = after lock (invoke (at 90000) (Call.execute_action 1) lock)

executes_first : invoke (at 90000) (Call.execute_action 1) lock ≡ ok executed_lock
unfolding run invoke initialize queue_action cancel_action execute_action
executes_first = refl

first_executed : executed_lock.action 1 ≡ some (record first { executed = true })
unfolding run invoke initialize queue_action cancel_action execute_action
first_executed = refl

run-IsOrderly_example : IsOrderly lock
run-IsOrderly_example = run-IsOrderly calls

executed_after_delay_example : (1000 + get_delay fee_change ≤ 90000) × (false ≡ false)
executed_after_delay_example =
    executed_after_delay calls (at 90000) (Call.execute_action 1) executed_lock 1 first
      (record first { executed = true }) executes_first first_stored refl first_executed refl

run_final_example : (run ((at 300000, Call.execute_action 2) ∷ []) lock).action 2 ≡ some second
run_final_example =
    run_final ((at 300000, Call.execute_action 2) ∷ []) lock 2 second (run-IsOrderly calls)
      second_stored refl

executable_example :
    mem 1 (get_executable_actions 90000 lock) ≡ is_ok (execute_action (at 90000) 1 lock)
executable_example = get_executable_actions_lem lock (run-IsOrderly calls) (at 90000) 1

admin_known : lock.admin ≡ some 7
unfolding run invoke initialize queue_action cancel_action
admin_known = refl
