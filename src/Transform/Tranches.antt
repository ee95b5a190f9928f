-- ===== src/Transform/Tranches.antt =====
-- `create_tranches` of contracts/commitment_transformation/src/lib.rs.
use commitlabs_contracts.Prelude.{
  ℕ, ◌+◌, ◌*◌, ◌^◌, not, Option, none, some, List, [], ◌∷◌, ◌++◌, length, ltb, ◌==◌, ◌||◌, update,
  nat_key, if◌then◌else◌,
}
use commitlabs_contracts.Prelude.Int.{ℤ, pos, ltb_ℤ, ◌+ℤ◌, ◌-ℤ◌, ◌*ℤ◌, ◌/ℤ◌}
use commitlabs_contracts.Shared.Outcome
use commitlabs_contracts.Shared.Outcome.{Result, ok, ◌>>=◌, ◌>>◌, or_panic}
use commitlabs_contracts.Shared.Math
use commitlabs_contracts.Shared.Fees.{fee_from_bps}
use commitlabs_contracts.Shared.Validation.{require_positive}
use commitlabs_contracts.Core.Types.{Address, Bytes, bytes_key, Env}
use commitlabs_contracts.Transform.Types.{
  Transformation, Others, RiskTranche, TrancheSet, active, fail_if, or_fail, invalid_tranche_ratios,
}
use commitlabs_contracts.Transform.Store.{
  format_tranformation_id, next_counter, transferred, enter, leave, require_owner_or_protocol,
}

-- The loop that adds the shares on `u32`.
unfoldable pub sum_bps : (sum : ℕ) → List ℕ → Result ℕ
sum_bps sum [] = ok sum
sum_bps sum (bps ∷ rest) = do
  next ←
      or_fail (if ltb (sum + bps) (2 ^ 32) then some (sum + bps) else none) invalid_tranche_ratios
  sum_bps next rest

-- `(net_value * bps as i128) / 10000`
unfoldable pub tranche_amount : (net_value : ℤ) (bps : ℕ) → Result ℤ
tranche_amount net_value bps = do
  product ← Math.checked (net_value *ℤ pos bps) Outcome.arithmetic_overflow
  ok (product /ℤ pos 10000)

module _ (env : Env) (counter : ℕ) (transformation_id commitment_id : Bytes) (net_value : ℤ) where
  -- The loop over the shares and the risk levels, from its turn `i` on: the tranches.
  unfoldable pub make_tranches : (i : ℕ) → List ℕ → List Bytes → Result (List RiskTranche)
  unfolding tranche_amount
  make_tranches i [] risks = ok []
  make_tranches i (bps ∷ rest) [] = ok []
  make_tranches i (bps ∷ rest) (risk ∷ risks) = do
    amount ← tranche_amount net_value bps
    number ←
        or_panic (if ltb (counter * 10 + i) (2 ^ 64) then some (counter * 10 + i) else none)
          Outcome.arithmetic_overflow
    let made : RiskTranche = record {
      tranche_id = format_tranformation_id (b't' ∷ []) number;
      transformation_id = transformation_id;
      commitment_id = commitment_id;
      risk_level = risk;
      amount = amount;
      share_bps = bps;
      created_at = env.now;
      status = active;
      updated_at = env.now;
    }
    others ← make_tranches (i + 1) rest risks
    ok (made ∷ others)

-- Each tranche is stored under its id.
unfoldable pub store_tranches :
    List RiskTranche → (Bytes → Option RiskTranche) → Bytes → Option RiskTranche
store_tranches [] stored = stored
store_tranches (made ∷ rest) stored =
    store_tranches rest (update stored made.tranche_id (some made))

module _ {W : Type 0} (env : Env) (x : Others W) where
  -- `if fee_amount > 0 { … }`
  unfoldable pub collect_fee :
      (caller fee_asset : Address) (fee_amount : ℤ) → Transformation W → Result (Transformation W)
  collect_fee caller fee_asset fee_amount s =
      if ltb_ℤ (pos 0) fee_amount
      then (transferred (x.transfer fee_asset caller env.this fee_amount s.world) s >>= λ paid.
          Math.checked (paid.collected_fees fee_asset +ℤ fee_amount) Outcome.arithmetic_overflow
          >>= λ total.
              ok (record paid { collected_fees = update paid.collected_fees fee_asset total }))
      else ok s

  unfoldable pub create_tranches :
      (caller : Address) (commitment_id : Bytes) (total_value : ℤ) (tranche_share_bps : List ℕ)
      (risk_levels : List Bytes) (fee_asset : Address)
      → Transformation W
      → Result (Bytes × Transformation W)
  unfolding require_owner_or_protocol enter require_positive collect_fee make_tranches next_counter
  create_tranches caller commitment_id total_value tranche_share_bps risk_levels fee_asset s = do
    commitment ← require_owner_or_protocol env caller x commitment_id s
    entered ← enter s
    require_positive total_value
    fail_if (not (length tranche_share_bps == length risk_levels) || length tranche_share_bps == 0)
        invalid_tranche_ratios
    sum ← sum_bps 0 tranche_share_bps
    fail_if (not (sum == 10000)) invalid_tranche_ratios
    fee_amount ← fee_from_bps total_value entered.transformation_fee_bps
    paid ← collect_fee caller fee_asset fee_amount entered
    let counter = paid.tranche_set_counter
    let transformation_id = format_tranformation_id (b't' ∷ b'r' ∷ []) counter
    next ← next_counter counter
    net_value ← Math.checked (total_value -ℤ fee_amount) Outcome.arithmetic_overflow
    tranches ←
        make_tranches env counter transformation_id commitment_id net_value 0 tranche_share_bps
          risk_levels
    let set : TrancheSet = record {
      transformation_id = transformation_id;
      commitment_id = commitment_id;
      owner = commitment.owner;
      total_value = total_value;
      tranches = tranches;
      fee_paid = fee_amount;
      created_at = env.now;
    }
    ok (
      transformation_id,
      leave (record paid {
        tranche_set_counter = next;
        tranche = store_tranches tranches paid.tranche;
        tranche_set = update paid.tranche_set transformation_id (some set);
        commitment_tranche_sets =
            update paid.commitment_tranche_sets commitment_id
              (paid.commitment_tranche_sets commitment_id ++ (transformation_id ∷ []));
      }),
    )
