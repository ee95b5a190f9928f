-- ===== src/TimeLock/Invariant.antt =====
-- What holds of every reachable timelock, and how a call may change a queued action.
use commitlabs_contracts.Prelude.{
  ℕ, ◌+◌, ◌≤◌, ◌≡◌, refl, true, false, ◌&&◌, Option, none, some, is_some, unwrap_or, List, [], ◌∷◌,
  ◌++◌, arith, ltb, leb, update, mem, nat_key,
}
use commitlabs_contracts.Shared.Outcome.{ok}
use commitlabs_contracts.TimeLock.{
  ActionType, get_delay, max_delay, QueuedAction, TimeLock, Host, require_admin, queue_action,
  execute_action, cancel_action, get_all_actions,
}
use commitlabs_contracts.TimeLock.Contract.{deployed}

-- A queued action as it may be stored under an id: its delay lies between its type's minimum and
-- the global maximum, and it is not both executed and cancelled.
pub record IsQueued (id : ℕ) (a : QueuedAction) : Type 0 where
  pub own_id : a.id ≡ id
  pub delayed : a.queued_at + get_delay a.action_type ≤ a.executable_at
  pub bounded : a.executable_at ≤ a.queued_at + max_delay
  pub one_fate : (a.executed && a.cancelled) ≡ false

abbrev pub IsStored : ℕ → Option QueuedAction → Type 0
IsStored id none = Unit
IsStored id (some a) = IsQueued id a

abbrev pub count : TimeLock → ℕ
count s = unwrap_or s.action_counter 0

-- The ids in use are exactly 1 to the counter, each holds a well-formed action, and the list of ids
-- names exactly those.
pub record IsOrderly (s : TimeLock) : Type 0 where
  pub stored : (id : ℕ) → IsStored id (s.action id)
  pub present : (id : ℕ) → is_some (s.action id) ≡ (ltb 0 id && leb id (count s))
  pub listed : (id : ℕ) → mem id (get_all_actions s) ≡ is_some (s.action id)
  pub wired : is_some s.action_counter ≡ is_some s.admin
  pub wired_ids : is_some s.action_ids ≡ is_some s.admin

-- How one call, made at `env`, may change what an id holds.
pub data Advances (env : Host) (o o' : Option QueuedAction) : Type 0 where
  stays : o' ≡ o → Advances env o o'
  queues :
      (a : QueuedAction)
      → o ≡ none
      → a.queued_at ≡ env.now
      → a.executed ≡ false
      → a.cancelled ≡ false
      → o' ≡ some a
      → Advances env o o'
  executes :
      (a : QueuedAction)
      → o ≡ some a
      → a.executed ≡ false
      → a.cancelled ≡ false
      → a.executable_at ≤ env.now
      → o' ≡ some (record a { executed = true })
      → Advances env o o'
  cancels :
      (a : QueuedAction)
      → o ≡ some a
      → a.executed ≡ false
      → a.cancelled ≡ false
      → o' ≡ some (record a { cancelled = true })
      → Advances env o o'

pub deployed-IsOrderly : IsOrderly deployed
unfolding get_all_actions
deployed-IsOrderly = record {
  stored = λ id. tt;
  present = λ id. none_used id;
  listed = λ id. refl;
  wired = refl;
  wired_ids = refl;
}
  where
    none_used : (id : ℕ) → false ≡ (ltb 0 id && leb id 0)
    none_used id = ground arith

-- A step that rewrites what one id holds and nothing else.
abbrev pub Rewrites : (s s' : TimeLock) (at : ℕ) → QueuedAction → Type 0
Rewrites s s' at a =
    (s'.action ≡ update s.action at (some a))
    × (s'.action_counter ≡ s.action_counter)
    × (s'.action_ids ≡ s.action_ids)
    × (s'.admin ≡ s.admin)

module _ (env : Host) (s : TimeLock) (at : ℕ) (s' : TimeLock) (a : QueuedAction)
    (found : s.action at ≡ some a) where
  pub execute_action_effect :
      execute_action env at s ≡ ok s'
      → (a.executed ≡ false)
        × (a.cancelled ≡ false)
        × (a.executable_at ≤ env.now)
        × Rewrites s s' at (record a { executed = true })
  unfolding execute_action
  execute_action_effect e = ground arith

  pub cancel_action_effect :
      cancel_action env at s ≡ ok s'
      → (a.executed ≡ false)
        × (a.cancelled ≡ false)
        × Rewrites s s' at (record a { cancelled = true })
  unfolding cancel_action require_admin
  cancel_action_effect e = ground arith

-- What `queue_action` writes: one action under the next id, which the list of ids gains.
pub queue_action_effect :
    (env : Host) (kind : ActionType) (target : ℕ) (bytes : List ℕ) (delay : ℕ) (s s' : TimeLock)
    (id : ℕ)
    → queue_action env kind target bytes delay s ≡ ok (id, s')
    → (id ≡ count s + 1)
      × (get_delay kind ≤ delay)
      × (delay ≤ max_delay)
      × (s'.action_counter ≡ some id)
      × (s'.admin ≡ s.admin)
      × (is_some s.action_ids ≡ true)
      × (is_some s.admin ≡ true)
      × (s'.action_ids ≡ some (get_all_actions s ++ (id ∷ [])))
      × (s'.action
          ≡ update s.action id (
              some (record {
                id = id;
                action_type = kind;
                target = target;
                data_bytes = bytes;
                queued_at = env.now;
                executable_at = env.now + delay;
                executed = false;
                cancelled = false;
              })))
unfolding queue_action require_admin get_all_actions
queue_action_effect env kind target bytes delay s s' id e = ground arith
