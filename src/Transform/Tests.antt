-- ===== src/Transform/Tests.antt =====
-- A commitment of 1001 units is split into two tranches at a fee of 1 percent.
use commitlabs_contracts.Prelude.{
  ℕ, ◌*◌, ◌/◌, ◌≤◌, ◌≡◌, refl, Bool, true, false, none, some, [], ◌∷◌, length, arith, ◌==◌,
}
use commitlabs_contracts.Prelude.Int.{pos, ◌*ℤ◌, ◌-ℤ◌, ◌/ℤ◌, ◌+ℤ◌}
use commitlabs_contracts.Shared.Outcome.{Result, ok, panic}
use commitlabs_contracts.Shared.Fees.{fee_from_bps}
use commitlabs_contracts.Core.Types
use commitlabs_contracts.Core.Types.{Address, Bytes, Commitment, Env, safe}
use commitlabs_contracts.Transform.Types.{Transformation, Others, TrancheSet}
use commitlabs_contracts.Transform.Tranches
use commitlabs_contracts.Transform.Sets.{MakesUp, create_tranches_lem}

abbrev at : ℕ → Address → Env
at t who = record { now = t; signed = λ a. a == who; this = 90 }

abbrev commitment : Commitment
commitment = record {
  commitment_id = 67 ∷ [];
  owner = 3;
  nft_token_id = 0;
  rules = record {
    duration_days = 30;
    max_loss_percent = 10;
    commitment_type = safe;
    early_exit_penalty = 5;
    min_fee_threshold = pos 0;
    grace_period_days = 0;
  };
  amount = pos 1001;
  asset_address = 70;
  created_at = 10;
  expires_at = 2592010;
  current_value = pos 1001;
  status = Types.active;
}

-- The core contract has this commitment, and transfers succeed.
abbrev others : Others (Unit {0})
others = record {
  transfer = λ token from to amount w. some w;
  get_commitment = λ core id w. some commitment;
}

abbrev before : Transformation (Unit {0})
before = record {
  admin = some 1;
  core_contract = some 50;
  transformation_fee_bps = 100;
  reentrancy_guard = false;
  tranche_set = λ _. none;
  tranche = λ _. none;
  collateralized_asset = λ _. none;
  secondary_instrument = λ _. none;
  protocol_guarantee = λ _. none;
  commitment_tranche_sets = λ _. [];
  commitment_collateral = λ _. [];
  commitment_instruments = λ _. [];
  commitment_guarantees = λ _. [];
  authorized_transformer = λ _. false;
  tranche_set_counter = 0;
  fee_recipient = none;
  collected_fees = λ _. pos 0;
  world = tt;
}

abbrev made : Result (Bytes × Transformation (Unit {0}))
made =
    Tranches.create_tranches (at 20 3) others 3 (67 ∷ []) (pos 1001) (6000 ∷ 4000 ∷ [])
      ((115 ∷ []) ∷ (101 ∷ []) ∷ []) 70 before

abbrev value_of : Result (Bytes × Transformation (Unit {0})) → Bytes × Transformation (Unit {0})
value_of (ok r) = r
value_of (panic p) = ([], before)

abbrev is_ok : Result (Bytes × Transformation (Unit {0})) → Bool
is_ok (ok r) = true
is_ok (panic p) = false

is_ok-value_of :
    (r : Result (Bytes × Transformation (Unit {0}))) → is_ok r ≡ true → r ≡ ok (value_of r)
is_ok-value_of (ok r) h = refl
is_ok-value_of (panic p) h = absurd (ground arith)

it_is_made : is_ok made ≡ true
unfolding Tranches.create_tranches Tranches.sum_bps fee_from_bps ◌*ℤ◌ ◌/ℤ◌ ◌+ℤ◌ ◌-ℤ◌
it_is_made = refl

create_tranches_lem_example :
    (set : TrancheSet) × ((value_of made).1.tranche_set (value_of made).0 ≡ some set)
    × (100 ≤ 10000)
    × (set.fee_paid ≡ pos (1001 * 100 / 10000))
    × (length set.tranches ≡ 2)
    × MakesUp 1001 (1001 * 100 / 10000) set.tranches
create_tranches_lem_example =
    create_tranches_lem (at 20 3) others before (value_of made).1 3 (67 ∷ []) 1001
      (6000 ∷ 4000 ∷ []) ((115 ∷ []) ∷ (101 ∷ []) ∷ []) 70 (value_of made).0
      (is_ok-value_of made it_is_made)
