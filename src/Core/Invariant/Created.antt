-- ===== src/Core/Invariant/Created.antt =====
-- Creation keeps the ledger invariant, and the id that it makes is always free.
use mathlib.Core.Path.{fun_ext}
use commitlabs_contracts.Prelude.{
  ℕ, zero, suc, ◌+◌, ◌*◌, ◌/◌, ◌-◌, ◌≤◌, ◌≡◌, refl, ◌∙◌, Option, none, some, [], ◌∷◌, ◌++◌, ◌<◌,
  ◌^◌, arith, update, Option-cases, inl, inr,
}
use commitlabs_contracts.Prelude.Int.{ℤ, pos, negsuc, pos_part, ◌≤ℤ◌, ◌+ℤ◌, ◌-ℤ◌}
use commitlabs_contracts.Shared.Outcome.{ok, Result-cases}
use commitlabs_contracts.Shared.Fees.Laws.{fee_from_bps_ok, fee_of-le}
use commitlabs_contracts.Shared.RateLimiting.{check}
use commitlabs_contracts.Shared.Time.{checked_calculate_expiration}
use commitlabs_contracts.Shared.RateLimiting.{Limiter}
use commitlabs_contracts.Core.Id.{generate_commitment_id}
use commitlabs_contracts.Core.Types.{
  Address, Bytes, bytes_key, CommitmentRules, Commitment, Env, External, Core, active,
}
use commitlabs_contracts.Core.Lifecycle.{
  create_checked, create_commitment, create_symbol, creation_fee_of,
}
use commitlabs_contracts.Core.Creation.{
  made, entered, create_checked_writes, create_commitment_enters,
}
use commitlabs_contracts.Core.Invariant.{IsValid, IsValid-add}

update-update :
    (f : Bytes → Option Commitment) (k : Bytes) (a b : Option Commitment)
    → update (update f k a) k b ≡ update f k b
update-update f k a b = fun_ext λ j. ground arith

-- A fee that was computed leaves a net amount that is not negative.
pub net_of_fee :
    (amount : ℤ) (bps : ℕ) {fee : ℤ}
    → pos 1 ≤ℤ amount
    → creation_fee_of amount bps ≡ ok fee
    → (n : ℕ) × (amount -ℤ fee ≡ pos n) × (n ≤ pos_part amount)
unfolding creation_fee_of ◌-ℤ◌
net_of_fee (negsuc k) bps h e = absurd (omega arith)
net_of_fee (pos k) zero h e = (k, ground arith, omega arith)
net_of_fee (pos k) (suc b) {fee} h e =
    let known : (suc b ≤ 10000) × (fee ≡ pos (k * suc b / 10000)) =
      fee_from_bps_ok k (suc b) (ground arith) in
    let small = fee_of-le k (suc b) known.0 in
    (k - k * suc b / 10000, rw known.1 (ground arith), omega arith)

-- What a creation adds: a new active record under the next id, and its value in the total.
pub record Adds {W : Type 0} (s s' : Core W) : Type 0 where
  pub added : Commitment
  pub value : ℕ
  pub its_id : added.commitment_id ≡ generate_commitment_id s.total_commitments
  pub its_status : added.status ≡ active
  pub its_value : added.current_value ≡ pos value
  pub was_free : s.commitment added.commitment_id ≡ none
  pub commitments : s'.commitment ≡ update s.commitment added.commitment_id (some added)
  pub all_ids : s'.all_commitment_ids ≡ s.all_commitment_ids ++ (added.commitment_id ∷ [])
  pub total : s'.total_commitments ≡ s.total_commitments + 1
  pub in_range : s.total_commitments + 1 < 2 ^ 64
  pub tvl : s'.total_value_locked ≡ s.total_value_locked +ℤ pos value

module _ {W : Type 0} (x : External W) (env : Env) (s s' : Core W) (owner : Address) (amount : ℤ)
    (asset : Address) (rules : CommitmentRules) where
  create_checked-Adds :
      (fee net : ℤ) (n expires_at : ℕ)
      → net ≡ pos n
      → create_checked x env owner amount fee net asset rules expires_at s ≡ ok s'
      → Adds s s'
  unfolding create_checked
  create_checked-Adds fee net n expires_at worth e = elim (Option-cases s.nft_contract) [
    | inl unknown ↦ absurd (ground arith)
    | inr (nft, known) ↦ elim (Option-cases (x.transfer asset owner env.this amount s.world)) [
      | inl unpaid ↦ absurd (ground arith)
      | inr (w, paid) ↦
          let c = made env s owner net asset rules expires_at in
          elim (Option-cases (
            x.mint nft env.this owner c.commitment_id rules.duration_days rules.max_loss_percent
              rules.commitment_type net asset rules.early_exit_penalty w)) [
                | inl unminted ↦ absurd (ground arith)
                | inr ((token, w'), minted) ↦
                    let (free, ec, ea, et, small, ev, _) =
                      create_checked_writes x env s s' owner amount fee net asset rules expires_at
                        known paid minted e in
                    record {
                      added = record c { nft_token_id = token };
                      value = n;
                      its_id = refl;
                      its_status = refl;
                      its_value = worth;
                      was_free = free;
                      commitments = ec ∙ update-update _ _ _ _;
                      all_ids = ea;
                      total = et;
                      in_range = small;
                      tvl = rw worth at ev;
                    }
              ]
    ]
  ]

module _ {W : Type 0} (x : External W) (env : Env) (s s' : Core W) (owner : Address) (amount : ℤ)
    (asset : Address) (rules : CommitmentRules) where
  pub create_commitment-Adds :
      create_commitment x env owner amount asset rules s ≡ ok s' → Adds s s'
  unfolding create_commitment
  create_commitment-Adds e = elim (Result-cases (check env.now owner create_symbol s.limiter)) [
    | inr (p, refused) ↦ absurd (ground arith)
    | inl (limiter, counted) ↦ elim (Result-cases (creation_fee_of amount s.creation_fee_bps)) [
      | inr (p, no_fee) ↦ absurd (ground arith)
      | inl (fee, charged) ↦
          elim (Option-cases (checked_calculate_expiration env.now rules.duration_days)) [
            | inl undated ↦ absurd (ground arith)
            | inr (t, dated) ↦
                let (_, _, _, _, _, positive, _, checked) =
                  create_commitment_enters x env s s' owner amount asset rules counted charged dated
                    e in
                let (n, net, _) = net_of_fee amount s.creation_fee_bps positive charged in
                of_entered limiter (
                  create_checked-Adds x env (entered s limiter) s' owner amount asset rules fee
                    (amount -ℤ fee) n t net checked)
          ]
    ]
  ]
    where
      of_entered : (limiter : Limiter) → Adds (entered s limiter) s' → Adds s s'
      of_entered limiter a = record {
        added = a.added;
        value = a.value;
        its_id = a.its_id;
        its_status = a.its_status;
        its_value = a.its_value;
        was_free = a.was_free;
        commitments = a.commitments;
        all_ids = a.all_ids;
        total = a.total;
        in_range = a.in_range;
        tvl = a.tvl;
      }

pub Adds-IsValid : {W : Type 0} {s s' : Core W} → IsValid s → Adds s s' → IsValid s'
Adds-IsValid {s' = s'} v a =
    IsValid-add v s' a.added.commitment_id a.added a.value a.its_id refl a.its_status a.its_value
      a.commitments a.all_ids a.total a.in_range a.tvl
