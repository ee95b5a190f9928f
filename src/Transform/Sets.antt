-- ===== src/Transform/Sets.antt =====
-- What `create_tranches` stores.
use mathlib.Core.Path.{subst}
use commitlabs_contracts.Prelude.{
  ℕ, ◌+◌, ◌*◌, ◌/◌, ◌-◌, ◌≤◌, ◌<◌, ◌≡◌, refl, ◌∙◌, true, false, some, List, [], ◌∷◌, length, arith,
  ◌==◌, update, inl, inr,
}
use commitlabs_contracts.Prelude.Int.{ℤ, pos, ◌-ℤ◌}
use commitlabs_contracts.Shared.Outcome
use commitlabs_contracts.Shared.Outcome.{Result, ok, panic, Result-cases, ◌>>=◌, ◌>>◌}
use commitlabs_contracts.Shared.Math.{checked}
use commitlabs_contracts.Shared.Fees.{fee_from_bps}
use commitlabs_contracts.Shared.Fees.Laws.{fee_from_bps_ok, fee_of-le}
use commitlabs_contracts.Core.Types.{Address, Bytes, bytes_key, Commitment, Env}
use commitlabs_contracts.Transform.Types.{Transformation, Others, RiskTranche, TrancheSet}
use commitlabs_contracts.Transform.Store.{
  format_tranformation_id, next_counter, require_owner_or_protocol,
}
use commitlabs_contracts.Transform.Tranches.{sum_bps, make_tranches, collect_fee, create_tranches}
use commitlabs_contracts.Transform.Shares.{total, amounts, sum_bps_lem, make_tranches_lem}

-- The fee, the tranches and a remainder of less than one unit a tranche make up the value.
abbrev pub MakesUp : (value fee : ℕ) → List RiskTranche → Type 0
MakesUp value fee ts = (amounts ts + fee ≤ value) × (value < amounts ts + fee + length ts)

makes_up :
    (v fee : ℕ) (bs : List ℕ) (ts : List RiskTranche)
    → fee ≤ v
    → total bs ≡ 10000
    → (length bs == 0) ≡ false
    → (amounts ts * 10000 ≤ (v - fee) * total bs)
      × ((v - fee) * total bs ≤ amounts ts * 10000 + 9999 * length bs)
      × (length ts ≡ length bs)
    → MakesUp v fee ts
makes_up v fee bs ts small whole some_share (low, high, long) =
    let lower : amounts ts * 10000 ≤ (v - fee) * 10000 = rw whole at low in
    let higher : (v - fee) * 10000 ≤ amounts ts * 10000 + 9999 * length bs = rw whole at high in
    let positive : 1 ≤ length bs = ground arith in
    (omega (arith, lower, small), omega (arith, higher, small, long, positive))

net_of :
    (v fee : ℕ) {net : ℤ}
    → fee ≤ v
    → checked (pos v -ℤ pos fee) Outcome.arithmetic_overflow ≡ ok net
    → net ≡ pos (v - fee)
unfolding ◌-ℤ◌
net_of v fee small e = ground arith

module _ {W : Type 0} (env : Env) (x : Others W) (s s' : Transformation W) where
  module _ (caller : Address) (cid : Bytes) (v : ℕ) (bs : List ℕ) (risks : List Bytes)
      (asset : Address) (id : Bytes) (c : Commitment) (sum : ℕ) (fee : ℤ)
      (may : require_owner_or_protocol env caller x cid s ≡ ok c) (added : sum_bps 0 bs ≡ ok sum)
      (charged : fee_from_bps (pos v) s.transformation_fee_bps ≡ ok fee)
      (e : create_tranches env x caller cid (pos v) bs risks asset s ≡ ok (id, s')) where
    shares_fit : (sum ≡ 10000) × (length bs ≡ length risks) × ((length bs == 0) ≡ false)
    unfolding create_tranches
    shares_fit = ground arith

    -- The set that is stored, with the net value that was shared out.
    stored_set :
        (set : TrancheSet) × (net : ℤ) × (counter : ℕ) × (s'.tranche_set id ≡ some set)
        × (set.fee_paid ≡ fee)
        × (checked (pos v -ℤ fee) Outcome.arithmetic_overflow ≡ ok net)
        × (make_tranches env counter id cid net 0 bs risks ≡ ok set.tranches)
    unfolding create_tranches
    stored_set =
        elim (Result-cases
          (collect_fee env x caller asset fee (record s { reentrancy_guard = true }))) [
            | inr (p, failed) ↦ absurd (ground arith)
            | inl (paid, took) ↦ elim (Result-cases (next_counter paid.tranche_set_counter)) [
              | inr (p, failed) ↦ absurd (ground arith)
              | inl (next, counted) ↦
                  elim (Result-cases (checked (pos v -ℤ fee) Outcome.arithmetic_overflow)) [
                    | inr (p, failed) ↦ absurd (ground arith)
                    | inl (net, left) ↦ shared paid next net took counted left
                  ]
            ]
          ]
      where
        shared :
            (paid : Transformation W) (next : ℕ) (net : ℤ)
            → collect_fee env x caller asset fee (record s { reentrancy_guard = true }) ≡ ok paid
            → next_counter paid.tranche_set_counter ≡ ok next
            → checked (pos v -ℤ fee) Outcome.arithmetic_overflow ≡ ok net
            → (set : TrancheSet) × (net : ℤ) × (counter : ℕ) × (s'.tranche_set id ≡ some set)
              × (set.fee_paid ≡ fee)
              × (checked (pos v -ℤ fee) Outcome.arithmetic_overflow ≡ ok net)
              × (make_tranches env counter id cid net 0 bs risks ≡ ok set.tranches)
        shared paid next net took counted left =
            let name = format_tranformation_id (b't' ∷ b'r' ∷ []) paid.tranche_set_counter in
            elim (Result-cases
              (make_tranches env paid.tranche_set_counter name cid net 0 bs risks)) [
                | inr (p, failed) ↦ absurd (ground arith)
                | inl (ts, made) ↦
                    let same : name ≡ id = ground arith in
                    let set : TrancheSet = record {
                      transformation_id = name;
                      commitment_id = cid;
                      owner = c.owner;
                      total_value = pos v;
                      tranches = ts;
                      fee_paid = fee;
                      created_at = env.now;
                    } in
                    let writes : s'.tranche_set ≡ update paid.tranche_set name (some set) =
                      ground arith in
                    (
                      set,
                      net,
                      paid.tranche_set_counter,
                      rw writes (rw same (rw (bytes_key.beq_refl id) refl)),
                      refl,
                      left,
                      subst
                          (λ k.
                            make_tranches env paid.tranche_set_counter k cid net 0 bs risks ≡ ok ts)
                          same made,
                    )
              ]

  -- A successful `create_tranches` for a positive value stores, under the id that it gives, a set with a
  -- tranche for each share, whose amounts with the fee make up the value but for a remainder of less than
  -- one unit a tranche; the fee is the configured rate of the value, at most 10000 basis points.
  pub create_tranches_lem :
      (caller : Address) (commitment_id : Bytes) (v : ℕ) (bs : List ℕ) (risks : List Bytes)
      (asset : Address) (id : Bytes)
      → create_tranches env x caller commitment_id (pos v) bs risks asset s ≡ ok (id, s')
      → (set : TrancheSet) × (s'.tranche_set id ≡ some set)
        × (s.transformation_fee_bps ≤ 10000)
        × (set.fee_paid ≡ pos (v * s.transformation_fee_bps / 10000))
        × (length set.tranches ≡ length bs)
        × MakesUp v (v * s.transformation_fee_bps / 10000) set.tranches
  unfolding create_tranches
  create_tranches_lem caller cid v bs risks asset id e =
      elim (Result-cases (require_owner_or_protocol env caller x cid s)) [
        | inr (p, failed) ↦ absurd (ground arith)
        | inl (c, may) ↦ elim (Result-cases (sum_bps 0 bs)) [
          | inr (p, failed) ↦ absurd (ground arith)
          | inl (sum, added) ↦ elim (Result-cases (fee_from_bps (pos v) s.transformation_fee_bps)) [
            | inr (p, failed) ↦ absurd (ground arith)
            | inl (fee, charged) ↦
                let (set, net, counter, stored, cost, left, made) =
                  stored_set caller cid v bs risks asset id c sum fee may added charged e in
                let (whole, same, some_share) =
                  shares_fit caller cid v bs risks asset id c sum fee may added charged e in
                let (rate, exact) = fee_from_bps_ok v s.transformation_fee_bps charged in
                let small = fee_of-le v s.transformation_fee_bps rate in
                let rest : net ≡ pos (v - v * s.transformation_fee_bps / 10000) =
                  net_of v (v * s.transformation_fee_bps / 10000) small (
                    subst (λ f. checked (pos v -ℤ f) Outcome.arithmetic_overflow ≡ ok net) exact
                      left) in
                let shares =
                  make_tranches_lem env counter id cid (v - v * s.transformation_fee_bps / 10000) 0
                    bs risks set.tranches same
                    (subst (λ n. make_tranches env counter id cid n 0 bs risks ≡ ok set.tranches)
                      rest made) in
                let all : total bs ≡ 10000 = omega (arith, sum_bps_lem 0 bs added, whole) in
                (
                  set,
                  stored,
                  rate,
                  cost ∙ exact,
                  shares.2,
                  makes_up v (v * s.transformation_fee_bps / 10000) bs set.tranches small all
                      some_share shares,
                )
          ]
        ]
      ]
