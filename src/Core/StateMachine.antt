-- ===== src/Core/StateMachine.antt =====
-- The commitment state machine of docs/commitment_core/SEMANTICS.md, and that the contract follows it.
use mathlib.Core.Path.{subst}
use commitlabs_contracts.Prelude.{
  ◌≤◌, ◌≡◌, refl, sym, ap, ◌∙◌, true, false, Option, none, some, List, [], ◌∷◌, arith, update,
  Bool-cases, Option-cases, inl, inr, if◌then◌else◌,
}
use commitlabs_contracts.Prelude.Int.{ℤ, pos, ◌≤ℤ◌, ◌-ℤ◌, ltb_ℤ}
use commitlabs_contracts.Shared.Outcome.{Result, ok, panic, Result-cases}
use commitlabs_contracts.Shared.Math
use commitlabs_contracts.Shared.Math.{penalty_amount}
use commitlabs_contracts.Core.Types.{
  Address, Bytes, bytes_eq, bytes_eq_sound, bytes_key, CommitmentRules, Commitment, Env, External,
  Core, active, violated, settled, Status, is_active,
}
use commitlabs_contracts.Core.Lifecycle.{
  settle, early_exit, allocate, update_value, loss_of_value, create_commitment,
}
use commitlabs_contracts.Core.Effects.{
  settle_effect, early_exit_effect, allocate_effect, update_value_effect,
}
use commitlabs_contracts.Core.Contract.{Call, invoke, after, run, deployed}
use commitlabs_contracts.Core.Invariant.{IsValid}
use commitlabs_contracts.Core.Invariant.Created.{create_commitment-Adds}
use commitlabs_contracts.Core.Invariant.Wiring.{governance_keeps}
use commitlabs_contracts.Core.Invariant.Reachable.{
  IsSound, invoke-IsSound, run-IsSound, deployed-IsSound,
}
use commitlabs_contracts.Core.Governance

-- How one call, made at `env` by the named caller, may change what an id holds.
pub data Evolves (env : Env) (o o' : Option Commitment) : Type 0 where
  stays : o' ≡ o → Evolves env o o'
  starts : (c : Commitment) → o ≡ none → c.status ≡ active → o' ≡ some c → Evolves env o o'
  revalues :
      (c : Commitment) (value loss : ℤ)
      → o ≡ some c
      → c.status ≡ active
      → pos 0 ≤ℤ value
      → loss_of_value c.amount value ≡ ok loss
      → o'
        ≡ some (record c {
          current_value = value;
          status = if ltb_ℤ (pos c.rules.max_loss_percent) loss then violated else active;
        })
      → Evolves env o o'
  settles :
      (c : Commitment)
      → o ≡ some c
      → c.status ≡ active
      → c.expires_at ≤ env.now
      → o' ≡ some (record c { status = settled })
      → Evolves env o o'
  exits :
      (c : Commitment)
      → o ≡ some c
      → c.status ≡ active
      → env.signed c.owner ≡ true
      → o' ≡ some (record c { status = Status.early_exit; current_value = pos 0 })
      → Evolves env o o'
  allocates :
      (c : Commitment) (amount : ℤ)
      → o ≡ some c
      → c.status ≡ active
      → pos 1 ≤ℤ amount
      → amount ≤ℤ c.current_value
      → o' ≡ some (record c { current_value = c.current_value -ℤ amount })
      → Evolves env o o'

module _ {W : Type 0} (env : Env) {s : Core W} (v : IsValid s) where
  -- A write of one stored record is one step at its id and none at the others.
  write-Evolves :
      (f' : Bytes → Option Commitment) (at : Bytes) (c c' : Commitment)
      → s.commitment at ≡ some c
      → f' ≡ update s.commitment c.commitment_id (some c')
      → Evolves env (some c) (some c')
      → (id : Bytes) → Evolves env (s.commitment id) (f' id)
  write-Evolves f' at c c' found written step id = elim (Bool-cases (bytes_eq c.commitment_id id)) [
    | inl here ↦
        let own : at ≡ id = sym (v.stored at c found).0 ∙ bytes_eq_sound _ _ here in
        let before : s.commitment id ≡ some c = subst (λ k. s.commitment k ≡ some c) own found in
        let now : f' id ≡ some c' = rw (written, here) refl in rw (before, now) step
    | inr apart ↦ stays (rw (written, apart) refl)
  ]

module _ {W : Type 0} (x : External W) (env : Env) {s : Core W} (v : IsValid s) (s' : Core W)
    (id : Bytes) where
  settle-Evolves :
      (at : Bytes) → settle x env at s ≡ ok s' → Evolves env (s.commitment id) (s'.commitment id)
  unfolding settle
  settle-Evolves at e = elim (Option-cases (s.commitment at)) [
    | inl absent ↦ absurd (ground arith)
    | inr (c, found) ↦ elim (Option-cases s.nft_contract) [
      | inl unknown ↦ absurd (ground arith)
      | inr (nft, known) ↦
          let (_, _, due, live, ec, _, _, _, _, _, _) =
            settle_effect x env s s' at c found known e in
          write-Evolves env v s'.commitment at c _ found ec (settles c refl live due refl) id
    ]
  ]

  early_exit-Evolves :
      (at : Bytes) (caller : Address)
      → early_exit x env at caller s ≡ ok s'
      → Evolves env (s.commitment id) (s'.commitment id)
  unfolding early_exit
  early_exit-Evolves at caller e = elim (Option-cases (s.commitment at)) [
    | inl absent ↦ absurd (ground arith)
    | inr (c, found) ↦
        elim (Result-cases (penalty_amount c.current_value c.rules.early_exit_penalty)) [
          | inr (p, no_penalty) ↦ absurd (ground arith)
          | inl (penalty, split) ↦ elim (Result-cases (Math.sub c.current_value penalty)) [
            | inr (p, no_rest) ↦ absurd (ground arith)
            | inl (rest, rest_is) ↦
                let (_, _, signed, own, live, ec, _, _, _, _, _) =
                  early_exit_effect x env s s' at c found split rest_is e in
                write-Evolves env v s'.commitment at c _ found ec
                  (exits c refl live (ap env.signed own ∙ signed) refl) id
          ]
        ]
  ]

  allocate-Evolves :
      (caller : Address) (at : Bytes) (pool : Address) (amount : ℤ)
      → allocate x env caller at pool amount s ≡ ok s'
      → Evolves env (s.commitment id) (s'.commitment id)
  unfolding allocate
  allocate-Evolves caller at pool amount e = elim (Option-cases (s.commitment at)) [
    | inl absent ↦ absurd (ground arith)
    | inr (c, found) ↦
        let (_, _, _, _, live, positive, covered, ec, _, _, _, _, _) =
          allocate_effect x env s s' at c found e in
        write-Evolves env v s'.commitment at c _ found ec
          (allocates c amount refl live positive covered refl) id
  ]

  update_value-Evolves :
      (caller : Address) (at : Bytes) (value : ℤ)
      → update_value x env caller at value s ≡ ok s'
      → Evolves env (s.commitment id) (s'.commitment id)
  unfolding update_value
  update_value-Evolves caller at value e = elim (Option-cases (s.commitment at)) [
    | inl absent ↦ absurd (ground arith)
    | inr (c, found) ↦ elim (Result-cases (loss_of_value c.amount value)) [
      | inr (p, no_loss) ↦ absurd (ground arith)
      | inl (loss, lost) ↦
          let (_, _, live, worth, ec, _, _, _, _) =
            update_value_effect x env s s' at c value found lost e in
          write-Evolves env v s'.commitment at c _ found ec
            (revalues c value loss refl live worth lost refl) id
    ]
  ]

  create_commitment-Evolves :
      (owner : Address) (amount : ℤ) (asset : Address) (rules : CommitmentRules)
      → create_commitment x env owner amount asset rules s ≡ ok s'
      → Evolves env (s.commitment id) (s'.commitment id)
  create_commitment-Evolves owner amount asset rules e =
      let a = create_commitment-Adds x env s s' owner amount asset rules e in
      elim (Bool-cases (bytes_eq a.added.commitment_id id)) [
        | inl here ↦
            starts a.added (subst (λ k. s.commitment k ≡ none) (bytes_eq_sound _ _ here) a.was_free)
              a.its_status (rw (a.commitments, here) refl)
        | inr apart ↦ stays (rw (a.commitments, apart) refl)
      ]

module _ {W : Type 0} (x : External W) (env : Env) {s : Core W} (v : IsValid s) (s' : Core W)
    (id : Bytes) where
  -- Every successful call, in a state that keeps the ledger invariant, changes what an id holds by
  -- a step of the state machine at most.
  pub invoke-Evolves :
      (call : Call) → invoke x env call s ≡ ok s' → Evolves env (s.commitment id) (s'.commitment id)
  unfolding invoke Governance.initialize
  invoke-Evolves (Call.initialize a n) e = stays (initialize_keeps e)
    where
      initialize_keeps : Governance.initialize a n s ≡ ok s' → s'.commitment id ≡ s.commitment id
      initialize_keeps e = ground arith
  invoke-Evolves (Call.create_commitment o a t r) e =
      create_commitment-Evolves x env v s' id o a t r e
  invoke-Evolves (Call.update_value c i w) e = update_value-Evolves x env v s' id c i w e
  invoke-Evolves (Call.settle i) e = settle-Evolves x env v s' id i e
  invoke-Evolves (Call.early_exit i c) e = early_exit-Evolves x env v s' id i c e
  invoke-Evolves (Call.allocate c i p a) e = allocate-Evolves x env v s' id c i p a e
  invoke-Evolves call e = stays (ap (λ f. f id) (governance_keeps x env s s' call tt e).1.0)

-- A step leaves a record that is not active as it is.
Evolves-terminal :
    {env : Env} {o o' : Option Commitment} {c : Commitment}
    → Evolves env o o'
    → o ≡ some c
    → is_active c.status ≡ false
    → o' ≡ some c
Evolves-terminal (stays e) found done = e ∙ found
Evolves-terminal (starts d empty _ _) found done = cc
Evolves-terminal (revalues d value loss e live _ _ _) found done = absurd (ground arith)
Evolves-terminal (settles d e live _ _) found done = absurd (ground arith)
Evolves-terminal (exits d e live _ _) found done = absurd (ground arith)
Evolves-terminal (allocates d amount e live _ _ _) found done = absurd (ground arith)

module _ {W : Type 0} (x : External W) (id : Bytes) (c : Commitment) where
  run-Evolves-terminal :
      (calls : List (Env × Call)) (s : Core W)
      → IsSound s
      → s.commitment id ≡ some c
      → is_active c.status ≡ false
      → (run x calls s).commitment id ≡ some c
  unfolding run
  run-Evolves-terminal [] s u found done = found
  run-Evolves-terminal ((env, call) ∷ rest) s u found done =
      let (u', kept) = step refl in
      run-Evolves-terminal rest (after s (invoke x env call s)) u' kept done
    where
      step :
          {r : Result (Core W)}
          → invoke x env call s ≡ r
          → IsSound (after s r) × ((after s r).commitment id ≡ some c)
      step {r = ok s'} e = (
        invoke-IsSound x env s u s' call e,
        Evolves-terminal (invoke-Evolves x env u.0 s' id call e) found done,
      )
      step {r = panic p} e = (u, found)

  -- A commitment that is violated, settled or exited after some history of a newly deployed contract
  -- keeps its record, whatever is called later: no status leads back, and its value never changes.
  pub run_terminal :
      (before later : List (Env × Call)) (w : W)
      → (run x before (deployed w)).commitment id ≡ some c
      → is_active c.status ≡ false
      → (run x later (run x before (deployed w))).commitment id ≡ some c
  run_terminal before later w found done =
      run-Evolves-terminal later (run x before (deployed w))
        (run-IsSound x before (deployed w) (deployed-IsSound w)) found done
