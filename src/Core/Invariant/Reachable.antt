-- ===== src/Core/Invariant/Reachable.antt =====
-- The ledger invariant over all calls and all histories of the core contract.
use commitlabs_contracts.Prelude.{
  ◌≡◌, refl, sym, ap, ◌∙◌, inl, inr, Option, none, some, List, [], ◌∷◌, arith, sum_over, Distinct,
}
use commitlabs_contracts.Prelude.Int.{pos}
use commitlabs_contracts.Shared.Outcome.{Result, ok, panic}
use commitlabs_contracts.Core.Id.{generate_commitment_id}
use commitlabs_contracts.Core.Types.{Address, Bytes, bytes_key, Commitment, Env, External, Core}
use commitlabs_contracts.Core.Governance
use commitlabs_contracts.Core.Contract.{Call, invoke, after, run, deployed}
use commitlabs_contracts.Core.Invariant.{
  IsValid, IsValid-same, all_ids-Distinct, next_id_free, locked_at, ids_below, IsStored,
}
use commitlabs_contracts.Core.Invariant.Preserved.{
  settle-IsValid, early_exit-IsValid, allocate-IsValid, update_value-IsValid,
}
use commitlabs_contracts.Core.Invariant.Created.{create_commitment-Adds, Adds-IsValid}
use commitlabs_contracts.Core.Invariant.Wiring.{
  IsSetUp, IsSetUp-same, governance_keeps, settle_keeps, early_exit_keeps, allocate_keeps,
  update_value_keeps, create_commitment_keeps, IsGovernance, KeepsSetUp,
}

abbrev pub IsSound : {W : Type 0} → Core W → Type 0
IsSound s = IsValid s × IsSetUp s

module _ {W : Type 0} (x : External W) (env : Env) (s : Core W) (u : IsSound s) (s' : Core W) where
  governance-IsSound : (call : Call) → IsGovernance call → invoke x env call s ≡ ok s' → IsSound s'
  governance-IsSound call g e =
      let (kept, ec, ea, et, ev) = keeps in
      (IsValid-same u.0 s' ec ea et ev, IsSetUp-same s' kept u.1)
    where
      keeps :
          KeepsSetUp s s'
          × (s'.commitment ≡ s.commitment)
          × (s'.all_commitment_ids ≡ s.all_commitment_ids)
          × (s'.total_commitments ≡ s.total_commitments)
          × (s'.total_value_locked ≡ s.total_value_locked)
      keeps = let k = governance_keeps x env s s' call g e in (k.0, k.1.0, k.1.1, k.1.2, k.1.3)

  initialize-IsSound : (a n : Address) → Governance.initialize a n s ≡ ok s' → IsSound s'
  unfolding Governance.initialize
  initialize-IsSound a n e =
      let (new, ec, ea, et, ev, admin_is, nft_is) = writes in
      let zero_total : s.total_commitments ≡ 0 = ground (arith, u.1.started) in
      let no_ids : s.all_commitment_ids ≡ [] = u.0.ids ∙ ap ids_below zero_total in
      let no_value : s.total_value_locked ≡ pos 0 =
        u.0.tvl ∙ ap (λ l. pos (sum_over (locked_at s.commitment) l)) no_ids in
      (
        IsValid-same u.0 s' ec (ea ∙ sym no_ids) (et ∙ sym zero_total) (ev ∙ sym no_value),
        record { linked = rw (admin_is, nft_is) refl; started = inl (rw admin_is refl) },
      )
    where
      writes :
          (s.admin ≡ none)
          × (s'.commitment ≡ s.commitment)
          × (s'.all_commitment_ids ≡ [])
          × (s'.total_commitments ≡ 0)
          × (s'.total_value_locked ≡ pos 0)
          × (s'.admin ≡ some a)
          × (s'.nft_contract ≡ some n)
      writes = ground arith

  -- Every successful call keeps the ledger invariant.
  pub invoke-IsSound : (call : Call) → invoke x env call s ≡ ok s' → IsSound s'
  unfolding invoke
  invoke-IsSound (Call.initialize a n) e = initialize-IsSound a n e
  invoke-IsSound (Call.create_commitment o a t r) e =
      let (ea, en, known) = create_commitment_keeps x env s s' o a t r e in
      (
        Adds-IsValid u.0 (create_commitment-Adds x env s s' o a t r e),
        record { linked = rw (ea, en) u.1.linked; started = inl (rw ea (u.1.linked ∙ known)) },
      )
  invoke-IsSound (Call.update_value c i v) e = (
    update_value-IsValid x env u.0 s' c i v e,
    IsSetUp-same s' (update_value_keeps x env s s' c i v e) u.1,
  )
  invoke-IsSound (Call.settle i) e =
      (settle-IsValid x env u.0 s' i e, IsSetUp-same s' (settle_keeps x env s s' i e) u.1)
  invoke-IsSound (Call.early_exit i c) e = (
    early_exit-IsValid x env u.0 s' i c e,
    IsSetUp-same s' (early_exit_keeps x env s s' i c e) u.1,
  )
  invoke-IsSound (Call.allocate c i p a) e = (
    allocate-IsValid x env u.0 s' c i p a e,
    IsSetUp-same s' (allocate_keeps x env s s' c i p a e) u.1,
  )
  invoke-IsSound call e = governance-IsSound call tt e

-- What an id holds: nothing, or a record that is stored as it should be.
abbrev pub IsStoredAt : List Bytes → Bytes → Option Commitment → Type 0
IsStoredAt all id none = Unit
IsStoredAt all id (some c) = IsStored all id c

stored_at :
    {W : Type 0} {s : Core W}
    → IsValid s
    → (id : Bytes) → IsStoredAt s.all_commitment_ids id (s.commitment id)
stored_at {s = s} v id = at (s.commitment id) refl
  where
    at : (o : Option Commitment) → s.commitment id ≡ o → IsStoredAt s.all_commitment_ids id o
    at none e = tt
    at (some c) e = v.stored id c e

pub deployed-IsSound : {W : Type 0} (w : W) → IsSound (deployed w)
deployed-IsSound w = (
  record { stored = λ id c e. absurd (cc); ids = refl; counted = omega arith; tvl = refl },
  record { linked = refl; started = inr refl },
)

module _ {W : Type 0} (x : External W) where
  pub run-IsSound : (calls : List (Env × Call)) (s : Core W) → IsSound s → IsSound (run x calls s)
  unfolding run
  run-IsSound [] s u = u
  run-IsSound ((env, call) ∷ rest) s u =
      run-IsSound rest (after s (invoke x env call s)) (step refl)
    where
      step : {r : Result (Core W)} → invoke x env call s ≡ r → IsSound (after s r)
      step {r = ok s'} e = invoke-IsSound x env s u s' call e
      step {r = panic p} e = u

  -- After any sequence of calls on a newly deployed contract, whatever the other contracts do and
  -- whichever calls fail: the locked total is the sum of the values of the active and violated
  -- commitments that are listed, the listed ids are those of the counters from zero on, in order
  -- and without repetition, every stored commitment lies under its own listed id with a value that
  -- is not negative, and the next id is free.
  pub run_ledger :
      (calls : List (Env × Call)) (w : W) (id : Bytes)
      → let s = run x calls (deployed w) in
        (s.total_value_locked ≡ pos (sum_over (locked_at s.commitment) s.all_commitment_ids))
        × (s.all_commitment_ids ≡ ids_below s.total_commitments)
        × Distinct s.all_commitment_ids
        × IsStoredAt s.all_commitment_ids id (s.commitment id)
        × (s.commitment (generate_commitment_id s.total_commitments) ≡ none)
  run_ledger calls w id =
      let (v, _) = run-IsSound calls (deployed w) (deployed-IsSound w) in
      (v.tvl, v.ids, all_ids-Distinct v, stored_at v id, next_id_free v)
