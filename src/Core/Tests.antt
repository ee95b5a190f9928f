-- ===== src/Core/Tests.antt =====
-- Concrete runs of the core contract, over a token that keeps balances.
use commitlabs_contracts.Prelude.{
  ℕ, ◌+◌, ◌^◌, ◌≤◌, ◌<◌, min, ◌≡◌, refl, true, ◌&&◌, ◌||◌, none, some, List, [], ◌∷◌, ◌++◌, arith,
  ltb, leb, if◌then◌else◌, update, nat_key, sum_over, Distinct, take, drop, length,
}
use commitlabs_contracts.Prelude.Int.{ℤ, pos, ltb_ℤ, ◌+ℤ◌, ◌-ℤ◌, ◌*ℤ◌, ◌/ℤ◌}
use commitlabs_contracts.Shared.Outcome.{ok}
use commitlabs_contracts.Core.Types.{
  Address, Bytes, bytes_key, balanced, active, settled, CommitmentRules, Commitment, Env, External,
  Core,
}
use commitlabs_contracts.Core.Id.{
  generate_commitment_id, digit_loop, parse_commitment_id, parse-generate,
}
use commitlabs_contracts.Core.Lifecycle
use commitlabs_contracts.Core.Governance
use commitlabs_contracts.Shared.RateLimiting.{check}
use commitlabs_contracts.Shared.Time.{checked_calculate_expiration}
use commitlabs_contracts.Shared.Math
use commitlabs_contracts.Shared.Math.{penalty_amount}
use commitlabs_contracts.Shared.Math.Laws.{loss_of}
use commitlabs_contracts.Core.Effects.{
  then_call, settle_effect, early_exit_effect, allocate_effect, update_value_effect,
}
use commitlabs_contracts.Core.Creation.{create_checked_writes}
use commitlabs_contracts.Core.StateMachine.{Evolves, invoke-Evolves, run_terminal}
use commitlabs_contracts.Core.Invariant.Reachable.{run-IsSound, deployed-IsSound}
use commitlabs_contracts.Core.Views.{
  get_owner_commitments, get_owner_commitments_lem, check_violations,
}
use commitlabs_contracts.Core.Guards.{early_exit_penalty-le, check_violations_lem}
use commitlabs_contracts.Core.Contract.{Call, invoke, after, run, deployed}
use commitlabs_contracts.Core.Invariant.{locked_at, ids_below}
use commitlabs_contracts.Core.Invariant.Reachable.{IsStoredAt, run_ledger}

abbrev World : Type 0
World = Address → ℤ

abbrev move : Address → Address → ℤ → World → World
move from to amount w =
    let paid = update w from (w from -ℤ amount) in update paid to (paid to +ℤ amount)

-- One token, and an NFT contract that gives every commitment the token number 5.
abbrev ledger : External World
ledger = record {
  balance = λ token who w. w who;
  transfer = λ token from to amount w.
      if ltb_ℤ (w from) amount then none else some (move from to amount w);
  mint = λ nft caller owner id days loss kind amount asset penalty w. some (5, w);
  settle = λ nft caller token w. some w;
  mark_inactive = λ nft caller token w. some w;
}

abbrev env_at : ℕ → Env
env_at t = record { now = t; signed = λ _. true; this = 100 }

abbrev rules : CommitmentRules
rules = record {
  duration_days = 30;
  max_loss_percent = 20;
  commitment_type = balanced;
  early_exit_penalty = 10;
  min_fee_threshold = pos 0;
  grace_period_days = 0;
}

abbrev funds : World
funds who = pos 5000

-- A contract with an admin, on which account 3 commits 1000 of token 9.
abbrev opening : List (Env × Call)
opening =
    (env_at 0, Call.initialize 1 2) ∷ (env_at 10, Call.create_commitment 3 (pos 1000) 9 rules) ∷ []

abbrev id_zero : Bytes
id_zero = b'C' ∷ b'O' ∷ b'M' ∷ b'M' ∷ b'I' ∷ b'T' ∷ b'_' ∷ b'0' ∷ []

abbrev booked : Core World
booked = run ledger opening (deployed funds)

abbrev held : Commitment
held = record {
  commitment_id = id_zero;
  owner = 3;
  nft_token_id = 5;
  rules = rules;
  amount = pos 1000;
  asset_address = 9;
  created_at = 10;
  expires_at = 2592010;
  current_value = pos 1000;
  status = active;
}

held_stored : booked.commitment id_zero ≡ some held
unfolding run invoke Governance.initialize Lifecycle.create_commitment check
    Lifecycle.validate_rules Lifecycle.creation_fee_of ◌-ℤ◌ checked_calculate_expiration
    Lifecycle.create_checked ◌+ℤ◌ generate_commitment_id
held_stored = refl

nft_known : booked.nft_contract ≡ some 2
unfolding run invoke Governance.initialize Lifecycle.create_commitment check
    Lifecycle.validate_rules Lifecycle.creation_fee_of ◌-ℤ◌ checked_calculate_expiration
    Lifecycle.create_checked ◌+ℤ◌ generate_commitment_id
nft_known = refl

abbrev settled_state : Core World
settled_state = after booked (Lifecycle.settle ledger (env_at 2592010) id_zero booked)

settles : Lifecycle.settle ledger (env_at 2592010) id_zero booked ≡ ok settled_state
unfolding run invoke Governance.initialize Lifecycle.create_commitment check
    Lifecycle.validate_rules Lifecycle.creation_fee_of ◌-ℤ◌ checked_calculate_expiration
    Lifecycle.create_checked ◌+ℤ◌ generate_commitment_id Lifecycle.settle Math.sub
settles = refl

abbrev exited_state : Core World
exited_state = after booked (Lifecycle.early_exit ledger (env_at 500) id_zero 3 booked)

exits : Lifecycle.early_exit ledger (env_at 500) id_zero 3 booked ≡ ok exited_state
unfolding run invoke Governance.initialize Lifecycle.create_commitment check
    Lifecycle.validate_rules Lifecycle.creation_fee_of ◌-ℤ◌ checked_calculate_expiration
    Lifecycle.create_checked ◌+ℤ◌ generate_commitment_id Lifecycle.early_exit Math.sub
    penalty_amount Math.percent Math.mul ◌*ℤ◌ Math.div ◌/ℤ◌
exits = refl

penalty : penalty_amount (pos 1000) 10 ≡ ok (pos 100)
unfolding penalty_amount Math.percent Math.mul ◌*ℤ◌ Math.div ◌/ℤ◌
penalty = refl

rest : Math.sub (pos 1000) (pos 100) ≡ ok (pos 900)
unfolding Math.sub ◌-ℤ◌
rest = refl

abbrev allocated_state : Core World
allocated_state =
    after booked (Lifecycle.allocate ledger (env_at 500) 1 id_zero 44 (pos 300) booked)

allocates :
    Lifecycle.allocate ledger (env_at 500) 1 id_zero 44 (pos 300) booked ≡ ok allocated_state
unfolding run invoke Governance.initialize Lifecycle.create_commitment check
    Lifecycle.validate_rules Lifecycle.creation_fee_of ◌-ℤ◌ checked_calculate_expiration
    Lifecycle.create_checked ◌+ℤ◌ generate_commitment_id Lifecycle.allocate Math.sub
allocates = refl

abbrev revalued_state : Core World
revalued_state =
    after booked (Lifecycle.update_value ledger (env_at 500) 1 id_zero (pos 700) booked)

revalues : Lifecycle.update_value ledger (env_at 500) 1 id_zero (pos 700) booked ≡ ok revalued_state
unfolding run invoke Governance.initialize Lifecycle.create_commitment check
    Lifecycle.validate_rules Lifecycle.creation_fee_of ◌-ℤ◌ checked_calculate_expiration
    Lifecycle.create_checked ◌+ℤ◌ generate_commitment_id Lifecycle.update_value
    Lifecycle.loss_of_value Math.loss_percent Math.sub Math.percent_from Math.mul ◌*ℤ◌ Math.div ◌/ℤ◌
revalues = refl

lost : Lifecycle.loss_of_value (pos 1000) (pos 700) ≡ ok (pos 30)
unfolding Lifecycle.loss_of_value Math.loss_percent Math.sub ◌-ℤ◌ Math.percent_from Math.mul ◌*ℤ◌
    Math.div ◌/ℤ◌
lost = refl

settle_example :
    then_call (ledger.transfer 9 100 3 (pos 1000) booked.world) (ledger.settle 2 100 5)
    ≡ some settled_state.world
settle_example =
    (settle_effect ledger (env_at 2592010) booked settled_state id_zero held held_stored nft_known
      settles).10

early_exit_example : exited_state.total_value_locked ≡ booked.total_value_locked -ℤ pos 1000
early_exit_example =
    (early_exit_effect ledger (env_at 500) booked exited_state id_zero held held_stored penalty rest
      exits).8

allocate_example : allocated_state.total_value_locked ≡ booked.total_value_locked -ℤ pos 300
allocate_example =
    (allocate_effect ledger (env_at 500) booked allocated_state id_zero held held_stored
      allocates).10

update_value_example :
    revalued_state.total_value_locked ≡ booked.total_value_locked -ℤ pos 1000 +ℤ pos 700
update_value_example =
    (update_value_effect ledger (env_at 500) booked revalued_state id_zero held (pos 700)
      held_stored lost revalues).7

run_ledger_example :
    (booked.total_value_locked
      ≡ pos (sum_over (locked_at booked.commitment) booked.all_commitment_ids))
    × (booked.all_commitment_ids ≡ ids_below booked.total_commitments)
    × Distinct booked.all_commitment_ids
    × IsStoredAt booked.all_commitment_ids id_zero (booked.commitment id_zero)
    × (booked.commitment (generate_commitment_id booked.total_commitments) ≡ none)
run_ledger_example = run_ledger ledger opening funds id_zero

invoke-Evolves_example :
    Evolves (env_at 2592010) (booked.commitment id_zero) (settled_state.commitment id_zero)
unfolding invoke
invoke-Evolves_example =
    invoke-Evolves ledger (env_at 2592010)
      (run-IsSound ledger opening (deployed funds) (deployed-IsSound funds)).0 settled_state id_zero
      (Call.settle id_zero) settles

-- The commitment is settled, and then an early exit is tried.
abbrev closing : List (Env × Call)
closing = opening ++ ((env_at 2592010, Call.settle id_zero) ∷ [])

closed_stored :
    (run ledger closing (deployed funds)).commitment id_zero
    ≡ some (record held { status = settled })
unfolding run invoke Governance.initialize Lifecycle.create_commitment check
    Lifecycle.validate_rules Lifecycle.creation_fee_of ◌-ℤ◌ checked_calculate_expiration
    Lifecycle.create_checked ◌+ℤ◌ generate_commitment_id Lifecycle.settle Math.sub
closed_stored = refl

run_terminal_example :
    (run ledger
        ((env_at 2592011, Call.early_exit id_zero 3) ∷ [])
        (run ledger closing (deployed funds))).commitment
      id_zero
    ≡ some (record held { status = settled })
run_terminal_example =
    run_terminal ledger id_zero (record held { status = settled }) closing
      ((env_at 2592011, Call.early_exit id_zero 3) ∷ []) funds closed_stored refl

abbrev second_state : Core World
second_state =
    after booked (
      Lifecycle.create_checked ledger (env_at 20) 4 (pos 50) (pos 0) (pos 50) 9 rules 2592020
        booked)

second_made :
    Lifecycle.create_checked ledger (env_at 20) 4 (pos 50) (pos 0) (pos 50) 9 rules 2592020 booked
    ≡ ok second_state
unfolding run invoke Governance.initialize Lifecycle.create_commitment check
    Lifecycle.validate_rules Lifecycle.creation_fee_of ◌-ℤ◌ checked_calculate_expiration
    Lifecycle.create_checked ◌+ℤ◌ generate_commitment_id digit_loop
second_made = refl

abbrev paid_world : World
paid_world = move 4 100 (pos 50) booked.world

paid_second : ledger.transfer 9 4 100 (pos 50) booked.world ≡ some paid_world
unfolding run invoke Governance.initialize Lifecycle.create_commitment check
    Lifecycle.validate_rules Lifecycle.creation_fee_of ◌-ℤ◌ checked_calculate_expiration
    Lifecycle.create_checked ◌+ℤ◌ generate_commitment_id
paid_second = refl

create_checked_example : booked.commitment (generate_commitment_id booked.total_commitments) ≡ none
create_checked_example =
    (create_checked_writes ledger (env_at 20) booked second_state 4 (pos 50) (pos 0) (pos 50) 9
      rules 2592020 nft_known paid_second refl second_made).0

parse-generate_example : parse_commitment_id (generate_commitment_id 407) ≡ 407
parse-generate_example = parse-generate 407 (omega arith)

penalty_example : 10 ≤ 100
penalty_example =
    early_exit_penalty-le ledger (env_at 500) booked id_zero 3 held exited_state held_stored exits

check_violations_example :
    check_violations 2592010 booked id_zero
    ≡ ok (true && (ltb 20 (loss_of 1000 1000) || leb 2592010 2592010))
check_violations_example =
    (check_violations_lem 2592010 booked id_zero held 1000 held_stored refl (omega arith)
      (omega arith)).0

few : length (booked.owner_commitments 3) + 50 < 2 ^ 32
unfolding run invoke Governance.initialize Lifecycle.create_commitment check
    Lifecycle.validate_rules Lifecycle.creation_fee_of ◌-ℤ◌ checked_calculate_expiration
    Lifecycle.create_checked ◌+ℤ◌ generate_commitment_id
few = omega arith

get_owner_commitments_example :
    get_owner_commitments booked 3 0 80
    ≡ ok (take (min 80 50) (drop 0 (booked.owner_commitments 3)))
get_owner_commitments_example = get_owner_commitments_lem booked 3 0 80 few
