-- ===== src/TimeLock/Reachable.antt =====
-- Every reachable timelock is valid.
use mathlib.Core.Path.{subst}
use commitlabs_contracts.Prelude.{
  ℕ, ◌+◌, ◌≡◌, refl, sym, ap, ◌∙◌, false, ◌&&◌, some, is_some, List, [], ◌∷◌, arith, ltb, leb, ◌==◌,
  mem, nat_key, Bool-cases, Option-cases, inl, inr, mem-append,
}
use commitlabs_contracts.Shared.Outcome.{Result, ok, panic, Result-cases}
use commitlabs_contracts.TimeLock.{
  ActionType, QueuedAction, TimeLock, Host, initialize, require_admin, queue_action, execute_action,
  cancel_action, get_all_actions,
}
use commitlabs_contracts.TimeLock.Invariant.{
  IsQueued, IsStored, count, IsOrderly, deployed-IsOrderly, Rewrites, execute_action_effect,
  cancel_action_effect, queue_action_effect,
}
use commitlabs_contracts.TimeLock.Contract.{Call, invoke, after, run, deployed}

rewrite-IsOrderly :
    (s s' : TimeLock) (at : ℕ) (a a' : QueuedAction)
    → IsOrderly s
    → s.action at ≡ some a
    → Rewrites s s' at a'
    → (IsQueued at a → IsQueued at a')
    → IsOrderly s'
unfolding get_all_actions
rewrite-IsOrderly s s' at a a' v found (acts, counts, ids, adm) keeps = record {
  stored = λ id. elim (Bool-cases (at == id)) [
    | inl here ↦
        let e : at ≡ id = ground arith in
        let now : s'.action at ≡ some a' = rw acts (ground arith) in
        let old : IsQueued at a = subst (λ o. IsStored at o) found (v.stored at) in
        subst (λ k. IsStored k (s'.action k)) e (subst (λ o. IsStored at o) (sym now) (keeps old))
    | inr apart ↦ rw (acts, apart) (v.stored id)
  ];
  present = λ id. rw (counts, same id) (v.present id);
  listed = λ id. rw (ids, same id) (v.listed id);
  wired = rw (counts, adm) v.wired;
  wired_ids = rw (ids, adm) v.wired_ids;
}
  where
    same : (id : ℕ) → is_some (s'.action id) ≡ is_some (s.action id)
    same id = rw acts (ground arith)

abbrev pub written : Host → ActionType → (target : ℕ) → List ℕ → (delay id : ℕ) → QueuedAction
written env kind target bytes delay id = record {
  id = id;
  action_type = kind;
  target = target;
  data_bytes = bytes;
  queued_at = env.now;
  executable_at = env.now + delay;
  executed = false;
  cancelled = false;
}

queue-IsOrderly :
    (env : Host) (kind : ActionType) (target : ℕ) (bytes : List ℕ) (delay : ℕ) (s s' : TimeLock)
    (id : ℕ)
    → IsOrderly s
    → queue_action env kind target bytes delay s ≡ ok (id, s')
    → IsOrderly s'
unfolding get_all_actions
queue-IsOrderly env kind target bytes delay s s' new v e =
    let (next, least, most, counts, adm, had, wired, ids, acts) =
      queue_action_effect env kind target bytes delay s s' new e in
    record {
      stored = λ id. elim (Bool-cases (new == id)) [
        | inl here ↦
            let same : new ≡ id = ground arith in
            let now : s'.action new ≡ some (written env kind target bytes delay new) =
              rw acts (ground arith) in
            subst (λ k. IsStored k (s'.action k)) same
              (subst (λ o. IsStored new o) (sym now)
                (record {
                  own_id = refl;
                  delayed = omega (arith, least);
                  bounded = omega (arith, most);
                  one_fate = refl;
                }))
        | inr apart ↦ rw (acts, apart) (v.stored id)
      ];
      present = λ id. rw (acts, counts) (ground (arith, v.present id));
      listed = λ id.
          rw (ids, acts)
            (ground (arith, v.listed id, mem-append id (get_all_actions s) (new ∷ [])));
      wired = rw (counts, adm) (sym wired);
      wired_ids = rw (ids, adm) (sym wired);
    }

module _ (env : Host) (s s' : TimeLock) (v : IsOrderly s) where
  execute-IsOrderly : (at : ℕ) → execute_action env at s ≡ ok s' → IsOrderly s'
  unfolding execute_action
  execute-IsOrderly at e = elim (Option-cases (s.action at)) [
    | inl absent ↦ absurd (ground arith)
    | inr (a, found) ↦
        let (fresh, live, due, writes) = execute_action_effect env s at s' a found e in
        rewrite-IsOrderly s s' at a _ v found writes (λ q. record {
          own_id = q.own_id;
          delayed = q.delayed;
          bounded = q.bounded;
          one_fate = rw live refl;
        })
  ]

  cancel-IsOrderly : (at : ℕ) → cancel_action env at s ≡ ok s' → IsOrderly s'
  unfolding cancel_action require_admin
  cancel-IsOrderly at e = elim (Option-cases (s.action at)) [
    | inl absent ↦ absurd (ground arith)
    | inr (a, found) ↦
        let (fresh, live, writes) = cancel_action_effect env s at s' a found e in
        rewrite-IsOrderly s s' at a _ v found writes (λ q. record {
          own_id = q.own_id;
          delayed = q.delayed;
          bounded = q.bounded;
          one_fate = rw fresh refl;
        })
  ]

  initialize-IsOrderly : (admin : ℕ) → initialize admin s ≡ ok s' → IsOrderly s'
  unfolding initialize get_all_actions
  initialize-IsOrderly admin e =
      let (acts, counts, ids, adm, had, used) = parts e in
      record {
        stored = λ id. rw acts (v.stored id);
        present = λ id. rw (acts, counts) (v.present id ∙ ap (λ n. ltb 0 id && leb id n) used.0);
        listed = λ id. rw (acts, ids) (ap (λ l. mem id l) (sym used.1) ∙ v.listed id);
        wired = rw (counts, adm) refl;
        wired_ids = rw (ids, adm) refl;
      }
    where
      parts :
          initialize admin s ≡ ok s'
          → (s'.action ≡ s.action)
            × (s'.action_counter ≡ some 0)
            × (s'.action_ids ≡ some [])
            × (s'.admin ≡ some admin)
            × (is_some s.admin ≡ false)
            × ((count s ≡ 0) × (get_all_actions s ≡ []))
      parts e = ground (arith, v.wired, v.wired_ids)

-- What a successful `queue_action` call returned.
pub queued_of :
    (env : Host) (kind : ActionType) (target : ℕ) (bytes : List ℕ) (delay : ℕ) (s s' : TimeLock)
    → invoke env (Call.queue_action kind target bytes delay) s ≡ ok s'
    → (id : ℕ) × (queue_action env kind target bytes delay s ≡ ok (id, s'))
unfolding invoke
queued_of env kind target bytes delay s s' e =
    elim (Result-cases (queue_action env kind target bytes delay s)) [
      | inl ((id, t), queued) ↦ (id, ground arith)
      | inr (p, failed) ↦ absurd (ground arith)
    ]

-- A call that succeeds keeps a timelock valid.
pub invoke-IsOrderly :
    (env : Host) (call : Call) (s s' : TimeLock)
    → IsOrderly s
    → invoke env call s ≡ ok s'
    → IsOrderly s'
unfolding invoke
invoke-IsOrderly env (Call.initialize admin) s s' v e = initialize-IsOrderly env s s' v admin e
invoke-IsOrderly env (Call.queue_action kind target bytes delay) s s' v e =
    let (id, queued) = queued_of env kind target bytes delay s s' e in
    queue-IsOrderly env kind target bytes delay s s' id v queued
invoke-IsOrderly env (Call.execute_action id) s s' v e = execute-IsOrderly env s s' v id e
invoke-IsOrderly env (Call.cancel_action id) s s' v e = cancel-IsOrderly env s s' v id e

pub after-IsOrderly :
    (env : Host) (call : Call) (s : TimeLock) (r : Result TimeLock)
    → invoke env call s ≡ r
    → IsOrderly s
    → IsOrderly (after s r)
after-IsOrderly env call s (ok s') e v = invoke-IsOrderly env call s s' v e
after-IsOrderly env call s (panic p) e v = v

run_from : (calls : List (Host × Call)) (s : TimeLock) → IsOrderly s → IsOrderly (run calls s)
unfolding run
run_from [] s v = v
run_from ((env, call) ∷ rest) s v = run_from rest _ (after-IsOrderly env call s _ refl v)

-- After any calls to a newly deployed timelock, whoever signed them, at whatever times: the ids in
-- use are exactly 1 to the action counter, each is in the list of ids and no other is, and each
-- holds an action under its own id that is not both executed and cancelled and whose waiting time
-- lies between the minimum of its type and 30 days.
pub run-IsOrderly : (calls : List (Host × Call)) → IsOrderly (run calls deployed)
run-IsOrderly calls = run_from calls deployed deployed-IsOrderly
