-- ===== src/TimeLock/Fate.antt =====
-- The life of a queued action: each call follows it, and an end of it is final.
use mathlib.Core.Path.{subst}
use commitlabs_contracts.Prelude.{
  ℕ, ◌+◌, ◌≤◌, ◌≡◌, refl, ◌∙◌, Bool, true, false, ◌||◌, Option, none, some, List, [], ◌∷◌, arith,
  ◌==◌, update, nat_key, Bool-cases, Option-cases, inl, inr,
}
use commitlabs_contracts.Shared.Outcome.{Result, ok, panic}
use commitlabs_contracts.TimeLock.{
  ActionType, get_delay, QueuedAction, TimeLock, Host, initialize, require_admin, queue_action,
  execute_action, cancel_action,
}
use commitlabs_contracts.TimeLock.Reachable.{written, queued_of, after-IsOrderly, run-IsOrderly}
use commitlabs_contracts.TimeLock.Invariant.{
  Advances, stays, queues, executes, cancels, IsQueued, IsStored, count, IsOrderly,
  execute_action_effect, cancel_action_effect, queue_action_effect,
}
use commitlabs_contracts.TimeLock.Contract.{Call, invoke, after, run, deployed}

module _ (env : Host) (s s' : TimeLock) (v : IsOrderly s) (id : ℕ) where
  rewrite-Advances :
      (at : ℕ) (a a' : QueuedAction)
      → s.action at ≡ some a
      → s'.action ≡ update s.action at (some a')
      → Advances env (some a) (some a')
      → Advances env (s.action id) (s'.action id)
  rewrite-Advances at a a' found acts step = elim (Bool-cases (at == id)) [
    | inl here ↦
        let e : at ≡ id = ground arith in
        let before : s.action id ≡ some a = subst (λ k. s.action k ≡ some a) e found in
        let now : s'.action id ≡ some a' = rw (acts, here) refl in rw (before, now) step
    | inr apart ↦ stays (rw (acts, apart) refl)
  ]

  execute-Advances :
      (at : ℕ) → execute_action env at s ≡ ok s' → Advances env (s.action id) (s'.action id)
  unfolding execute_action
  execute-Advances at e = elim (Option-cases (s.action at)) [
    | inl absent ↦ absurd (ground arith)
    | inr (a, found) ↦
        let (fresh, live, due, (acts, _, _, _)) = execute_action_effect env s at s' a found e in
        rewrite-Advances at a _ found acts (executes a refl fresh live due refl)
  ]

  cancel-Advances :
      (at : ℕ) → cancel_action env at s ≡ ok s' → Advances env (s.action id) (s'.action id)
  unfolding cancel_action require_admin
  cancel-Advances at e = elim (Option-cases (s.action at)) [
    | inl absent ↦ absurd (ground arith)
    | inr (a, found) ↦
        let (fresh, live, (acts, _, _, _)) = cancel_action_effect env s at s' a found e in
        rewrite-Advances at a _ found acts (cancels a refl fresh live refl)
  ]

  queue-Advances :
      (kind : ActionType) (target : ℕ) (bytes : List ℕ) (delay new : ℕ)
      → queue_action env kind target bytes delay s ≡ ok (new, s')
      → Advances env (s.action id) (s'.action id)
  queue-Advances kind target bytes delay new e =
      let (next, _, _, _, _, _, _, _, acts) =
        queue_action_effect env kind target bytes delay s s' new e in
      elim (Bool-cases (new == id)) [
        | inl here ↦
            queues (written env kind target bytes delay new) (unused next here) refl refl refl
              (rw (acts, here) refl)
        | inr apart ↦ stays (rw (acts, apart) refl)
      ]
    where
      unused : {new : ℕ} → new ≡ count s + 1 → (new == id) ≡ true → s.action id ≡ none
      unused next here = ground (arith, v.present id)

  initialize-Advances :
      (admin : ℕ) → initialize admin s ≡ ok s' → Advances env (s.action id) (s'.action id)
  unfolding initialize
  initialize-Advances admin e = stays (ground arith)

-- Every successful call on a valid timelock moves what an id holds along the life of an action: it
-- stays, or is queued at the current time under an unused id, or is executed or cancelled when it was
-- neither, and executed no earlier than its execution time.
pub invoke-Advances :
    (env : Host) (call : Call) (s s' : TimeLock) (id : ℕ)
    → IsOrderly s
    → invoke env call s ≡ ok s'
    → Advances env (s.action id) (s'.action id)
unfolding invoke
invoke-Advances env (Call.initialize admin) s s' id v e = initialize-Advances env s s' v id admin e
invoke-Advances env (Call.queue_action kind target bytes delay) s s' id v e =
    let (new, queued) = queued_of env kind target bytes delay s s' e in
    queue-Advances env s s' v id kind target bytes delay new queued
invoke-Advances env (Call.execute_action at) s s' id v e = execute-Advances env s s' v id at e
invoke-Advances env (Call.cancel_action at) s s' id v e = cancel-Advances env s s' v id at e

executed_later :
    (env : Host) (call : Call) (s s' : TimeLock) (id : ℕ) (a a' : QueuedAction)
    → IsOrderly s
    → invoke env call s ≡ ok s'
    → s.action id ≡ some a
    → a.executed ≡ false
    → s'.action id ≡ some a'
    → a'.executed ≡ true
    → (a.queued_at + get_delay a.action_type ≤ env.now) × (a.cancelled ≡ false)
executed_later env call s s' id a a' v e before fresh now done =
    let q : IsQueued id a = subst (λ o. IsStored id o) before (v.stored id) in
    go (invoke-Advances env call s s' id v e) q.delayed
  where
    go :
        Advances env (s.action id) (s'.action id)
        → a.queued_at + get_delay a.action_type ≤ a.executable_at
        → (a.queued_at + get_delay a.action_type ≤ env.now) × (a.cancelled ≡ false)
    go (stays same) wait = absurd (ground arith)
    go (queues b unused _ _ _ _) wait = absurd (ground arith)
    go (executes b was _ live due _) wait = ground arith
    go (cancels b was _ _ is) wait = absurd (ground arith)

-- After any calls of a newly deployed timelock, the call that turns an action that was not executed into
-- one that is comes at least the minimum delay of the action's type after the action was queued, and the
-- action was not cancelled.
pub executed_after_delay :
    (calls : List (Host × Call)) (env : Host) (call : Call) (s' : TimeLock) (id : ℕ)
    (a a' : QueuedAction)
    → invoke env call (run calls deployed) ≡ ok s'
    → (run calls deployed).action id ≡ some a
    → a.executed ≡ false
    → s'.action id ≡ some a'
    → a'.executed ≡ true
    → (a.queued_at + get_delay a.action_type ≤ env.now) × (a.cancelled ≡ false)
executed_after_delay calls env call s' id a a' e before fresh now done =
    executed_later env call (run calls deployed) s' id a a' (run-IsOrderly calls) e before fresh now
      done

-- Whether an action is executed or cancelled.
abbrev is_final : QueuedAction → Bool
is_final a = a.executed || a.cancelled

Advances-final :
    {env : Host} {o o' : Option QueuedAction} (a : QueuedAction)
    → o ≡ some a
    → is_final a ≡ true
    → Advances env o o'
    → o' ≡ some a
Advances-final a was final (stays same) = same ∙ was
Advances-final a was final (queues b unused _ _ _ _) = absurd (ground arith)
Advances-final a was final (executes b is fresh live _ _) = absurd (ground arith)
Advances-final a was final (cancels b is fresh live _) = absurd (ground arith)

after_final :
    (env : Host) (call : Call) (s : TimeLock) (id : ℕ) (a : QueuedAction) (r : Result TimeLock)
    → invoke env call s ≡ r
    → IsOrderly s
    → s.action id ≡ some a
    → is_final a ≡ true
    → (after s r).action id ≡ some a
after_final env call s id a (ok s') e v was final =
    Advances-final {env = env} a was final (invoke-Advances env call s s' id v e)
after_final env call s id a (panic p) e v was final = was

-- An executed or cancelled action of a valid timelock is kept unchanged by all further calls.
pub run_final :
    (calls : List (Host × Call)) (s : TimeLock) (id : ℕ) (a : QueuedAction)
    → IsOrderly s
    → s.action id ≡ some a
    → (a.executed || a.cancelled) ≡ true
    → (run calls s).action id ≡ some a
unfolding run
run_final [] s id a v was final = was
run_final ((env, call) ∷ rest) s id a v was final =
    run_final rest _ id a (after-IsOrderly env call s _ refl v)
      (after_final env call s id a _ refl v was final) final
