-- ===== src/TimeLock/Listing.antt =====
-- The listings of the timelock: which actions are pending, and which can be executed.
use commitlabs_contracts.Prelude.{
  ℕ, ◌+◌, ◌^◌, ◌≡◌, refl, Bool, true, false, not, ◌&&◌, Option, none, some, List, [], ◌∷◌, arith,
  ltb, leb, mem, nat_key,
}
use commitlabs_contracts.Shared.Outcome.{Result, ok, panic}
use commitlabs_contracts.TimeLock.{
  ActionType, get_delay, max_delay, QueuedAction, TimeLock, Host, require_admin, queue_action,
  execute_action, get_all_actions, select, get_pending_actions, get_executable_actions,
}
use commitlabs_contracts.TimeLock.Invariant.{IsOrderly, count}

abbrev pub is_ok : {A : Type 0} → Result A → Bool
is_ok (ok a) = true
is_ok (panic p) = false

-- Whether an id holds an action that passes a test.
abbrev pub holds : (QueuedAction → Bool) → Option QueuedAction → Bool
holds test none = false
holds test (some a) = test a

mem-select :
    (test : QueuedAction → Bool) (stored : ℕ → Option QueuedAction) (id : ℕ) (ids : List ℕ)
    → mem id (select test stored ids) ≡ (mem id ids && holds test (stored id))
unfolding select
mem-select test stored id [] = refl
mem-select test stored id (x ∷ ids) = ground (arith, mem-select test stored id ids)

module _ (s : TimeLock) (v : IsOrderly s) where
  -- The pending actions of a valid timelock are exactly the ids that hold an action that is neither
  -- executed nor cancelled.
  pub get_pending_actions_lem :
      (id : ℕ)
      → mem id (get_pending_actions s)
        ≡ holds (λ a. not a.executed && not a.cancelled) (s.action id)
  unfolding get_pending_actions
  get_pending_actions_lem id = ground (
    arith,
    v.listed id,
    mem-select (λ a. not a.executed && not a.cancelled) s.action id (get_all_actions s),
  )

  -- In a valid timelock an id is listed as executable exactly if executing it at that time succeeds,
  -- whoever makes the call.
  pub get_executable_actions_lem :
      (env : Host) (id : ℕ)
      → mem id (get_executable_actions env.now s) ≡ is_ok (execute_action env id s)
  unfolding get_executable_actions execute_action
  get_executable_actions_lem env id = ground (
    arith,
    get_pending_actions_lem id,
    mem-select (λ a. leb a.executable_at env.now) s.action id (get_pending_actions s),
  )

  -- In a valid timelock with an admin, queueing succeeds exactly if the admin signed, the delay lies
  -- between the minimum of the action's type and 30 days, and neither the next id nor the execution
  -- time overflows 64 bits.
  pub queue_action_succeeds :
      (env : Host) (kind : ActionType) (target : ℕ) (bytes : List ℕ) (delay admin : ℕ)
      → s.admin ≡ some admin
      → is_ok (queue_action env kind target bytes delay s) ≡ (
          env.signed admin
          && (leb (get_delay kind) delay
              && (leb delay max_delay
                  && (ltb (count s + 1) (2 ^ 64) && ltb (env.now + delay) (2 ^ 64)))))
  unfolding queue_action require_admin
  queue_action_succeeds env kind target bytes delay admin known =
      ground (arith, v.wired, v.wired_ids)
