-- ===== src/TimeLock.antt =====
-- contracts/time_lock/src/lib.rs: the queue of delayed governance actions. An `Err` fails the
-- invocation as a panic does, so the host discards its writes; it is the panic of its number.

pub mod Tests
pub mod Contract
pub mod Invariant
pub mod Reachable
pub mod Fate
pub mod Listing
use commitlabs_contracts.Prelude.{
  ℕ, ◌+◌, ◌^◌, Bool, true, false, not, ◌&&◌, Option, none, some, is_some, List, [], ◌∷◌, ◌++◌, ltb,
  leb, if◌then◌else◌, update, unwrap_or, nat_key,
}
use commitlabs_contracts.Shared.Outcome.{
  Result, ok, panic, ◌>>=◌, ◌>>◌, require, reject_if, or_panic, contract_error, already_initialized,
  unwrap_none, not_authorized,
}
use commitlabs_contracts.Shared.Time.{checked_u64}

-- 30 days in seconds
abbrev pub max_delay : ℕ
max_delay = 2592000

pub data ActionType : Type 0 where
  admin_change parameter_change upgrade fee_change : ActionType

-- The minimum delay of an action type, in seconds.
unfoldable pub get_delay : ActionType → ℕ
get_delay admin_change = 172800
get_delay parameter_change = 86400
get_delay upgrade = 259200
get_delay fee_change = 86400

pub record QueuedAction : Type 0 where
  pub id : ℕ
  pub action_type : ActionType
  pub target : ℕ
  pub data_bytes : List ℕ
  pub queued_at : ℕ
  pub executable_at : ℕ
  pub executed : Bool
  pub cancelled : Bool

pub data Error : Type 0 where
  unauthorized action_not_found action_already_executed action_cancelled delay_not_met : Error
  delay_too_short delay_too_long action_already_cancelled cannot_cancel_executed_action : Error
  invalid_action_type arithmetic_overflow : Error

abbrev pub error_code : Error → ℕ
error_code unauthorized = 1
error_code action_not_found = 2
error_code action_already_executed = 3
error_code action_cancelled = 4
error_code delay_not_met = 5
error_code delay_too_short = 6
error_code delay_too_long = 7
error_code action_already_cancelled = 8
error_code cannot_cancel_executed_action = 9
error_code invalid_action_type = 10
error_code arithmetic_overflow = 11

-- The storage, one field for each `StorageKey`.
pub record TimeLock : Type 0 where
  pub admin : Option ℕ
  pub action_counter : Option ℕ
  pub action : ℕ → Option QueuedAction
  pub action_ids : Option (List ℕ)

-- The ledger timestamp and who signed the invocation.
pub record Host : Type 0 where
  pub now : ℕ
  pub signed : ℕ → Bool

abbrev pub fail_if : Bool → Error → Result (Unit {0})
fail_if test e = reject_if test (contract_error (error_code e))

abbrev pub or_fail : {A : Type 0} → Option A → Error → Result A
or_fail o e = or_panic o (contract_error (error_code e))

unfoldable pub initialize : (admin : ℕ) → TimeLock → Result TimeLock
initialize admin s = do
  reject_if (is_some s.admin) already_initialized
  ok (record s { admin = some admin; action_counter = some 0; action_ids = some [] })

module _ (env : Host) where
  -- The stored admin, who must have signed.
  unfoldable pub require_admin : TimeLock → Result (Unit {0})
  require_admin s = do
    admin ← or_panic s.admin unwrap_none
    require (env.signed admin) not_authorized

  unfoldable pub queue_action :
      ActionType → (target : ℕ) → List ℕ → (delay : ℕ) → TimeLock → Result (ℕ × TimeLock)
  unfolding require_admin get_delay
  queue_action action_type target data_bytes delay s = do
    require_admin s
    fail_if (ltb delay (get_delay action_type)) delay_too_short
    fail_if (ltb max_delay delay) delay_too_long
    previous ← or_panic s.action_counter unwrap_none
    counter ← or_fail (checked_u64 (previous + 1)) arithmetic_overflow
    executable_at ← or_fail (checked_u64 (env.now + delay)) arithmetic_overflow
    let queued : QueuedAction = record {
      id = counter;
      action_type = action_type;
      target = target;
      data_bytes = data_bytes;
      queued_at = env.now;
      executable_at = executable_at;
      executed = false;
      cancelled = false;
    }
    action_ids ← or_panic s.action_ids unwrap_none
    ok (
      counter,
      record s {
        action_counter = some counter;
        action = update s.action counter (some queued);
        action_ids = some (action_ids ++ (counter ∷ []));
      },
    )

  unfoldable pub execute_action : (action_id : ℕ) → TimeLock → Result TimeLock
  execute_action action_id s = do
    action ← or_fail (s.action action_id) action_not_found
    fail_if action.executed action_already_executed
    fail_if action.cancelled action_cancelled
    fail_if (ltb env.now action.executable_at) delay_not_met
    ok (record s { action = update s.action action_id (some (record action { executed = true })) })

  unfoldable pub cancel_action : (action_id : ℕ) → TimeLock → Result TimeLock
  unfolding require_admin
  cancel_action action_id s = do
    require_admin s
    action ← or_fail (s.action action_id) action_not_found
    fail_if action.executed cannot_cancel_executed_action
    fail_if action.cancelled action_already_cancelled
    ok (record s { action = update s.action action_id (some (record action { cancelled = true })) })

unfoldable pub get_action : (action_id : ℕ) → TimeLock → Result QueuedAction
get_action action_id s = or_fail (s.action action_id) action_not_found

unfoldable pub get_all_actions : TimeLock → List ℕ
get_all_actions s = unwrap_or s.action_ids []

-- `for id in ids.iter() { if let Some(action) = … { if test { out.push_back(id) } } }`
unfoldable pub select : (QueuedAction → Bool) → (ℕ → Option QueuedAction) → List ℕ → List ℕ
select test stored [] = []
select test stored (id ∷ ids) =
    let out = select test stored ids in
    elim (stored id) [ none ↦ out | some action ↦ if test action then id ∷ out else out ]

unfoldable pub get_pending_actions : TimeLock → List ℕ
unfolding select get_all_actions
get_pending_actions s =
    select (λ action. not action.executed && not action.cancelled) s.action (get_all_actions s)

unfoldable pub get_executable_actions : (now : ℕ) → TimeLock → List ℕ
unfolding select get_pending_actions
get_executable_actions now s =
    select (λ action. leb action.executable_at now) s.action (get_pending_actions s)
