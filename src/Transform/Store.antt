-- ===== src/Transform/Store.antt =====
-- The helpers and the administration of contracts/commitment_transformation/src/lib.rs.
use mathlib.Core.List.{reverse}
use commitlabs_contracts.Prelude.{
  ℕ, ◌+◌, ◌^◌, Bool, true, false, not, Option, none, some, is_some, [], ◌∷◌, ◌++◌, ltb, ◌==◌, ◌||◌,
  update, nat_key, if◌then◌else◌,
}
use commitlabs_contracts.Prelude.Int.{ℤ, pos, leb_ℤ, ltb_ℤ, ◌-ℤ◌}
use commitlabs_contracts.Shared.Outcome
use commitlabs_contracts.Shared.Outcome.{Result, ok, panic, ◌>>=◌, ◌>>◌, or_panic, call_failed}
use commitlabs_contracts.Shared.Math
use commitlabs_contracts.Core.Types.{Address, Bytes, Commitment, Env, is_active}
use commitlabs_contracts.Core.Store.{require_auth}
use commitlabs_contracts.Core.Id.{digit_loop}
use commitlabs_contracts.Transform.Types.{
  Transformation, Others, fail_if, or_fail, invalid_amount, invalid_fee_bps, unauthorized,
  not_initialized, already_initialized, commitment_not_found, invalid_state, reentrancy_detected,
  fee_recipient_not_set, insufficient_fees,
}

-- The prefixes have at most four letters, so that none is cut.
unfoldable pub format_tranformation_id : (prefix : Bytes) (n : ℕ) → Bytes
unfolding digit_loop
format_tranformation_id prefix n =
    prefix ++ (if n == 0 then b'0' ∷ [] else reverse (digit_loop 20 n))

-- `counter + 1` on `u64`, whose overflow the release profile checks.
unfoldable pub next_counter : ℕ → Result ℕ
next_counter counter =
    or_panic (if ltb (counter + 1) (2 ^ 64) then some (counter + 1) else none)
      Outcome.arithmetic_overflow

module _ {W : Type 0} where
  abbrev pub transferred : Option W → Transformation W → Result (Transformation W)
  transferred none s = panic call_failed
  transferred (some w) s = ok (record s { world = w })

  unfoldable pub enter : Transformation W → Result (Transformation W)
  enter s = do
    fail_if s.reentrancy_guard reentrancy_detected
    ok (record s { reentrancy_guard = true })

  abbrev pub leave : Transformation W → Transformation W
  leave s = record s { reentrancy_guard = false }

  unfoldable pub is_protocol_role : (caller : Address) → Transformation W → Result Bool
  is_protocol_role caller s = do
    admin ← or_fail s.admin not_initialized
    ok (caller == admin || s.authorized_transformer caller)

  -- The commitment, if the core contract has it and it is active.
  unfoldable pub load_commitment :
      Others W → (commitment_id : Bytes) → Transformation W → Result Commitment
  load_commitment x commitment_id s = do
    core_contract ← or_fail s.core_contract not_initialized
    commitment ← or_fail (x.get_commitment core_contract commitment_id s.world) commitment_not_found
    fail_if (not (is_active commitment.status)) invalid_state
    ok commitment

  unfoldable pub initialize :
      (admin core_contract : Address) → Transformation W → Result (Transformation W)
  initialize admin core_contract s = do
    fail_if (is_some s.admin) already_initialized
    ok (record s {
      admin = some admin;
      core_contract = some core_contract;
      transformation_fee_bps = 0;
      reentrancy_guard = false;
      tranche_set_counter = 0;
    })

  module _ (env : Env) (caller : Address) where
    unfoldable pub require_admin : Transformation W → Result (Unit {0})
    unfolding require_auth
    require_admin s = do
      require_auth env caller
      admin ← or_fail s.admin not_initialized
      fail_if (not (caller == admin)) unauthorized

    unfoldable pub require_protocol_role : Transformation W → Result (Unit {0})
    unfolding require_auth is_protocol_role
    require_protocol_role s = do
      require_auth env caller
      role ← is_protocol_role caller s
      fail_if (not role) unauthorized

    unfoldable pub require_owner_or_protocol :
        Others W → (commitment_id : Bytes) → Transformation W → Result Commitment
    unfolding require_auth is_protocol_role load_commitment
    require_owner_or_protocol x commitment_id s = do
      require_auth env caller
      commitment ← load_commitment x commitment_id s
      role ← (if caller == commitment.owner then ok true else is_protocol_role caller s)
      fail_if (not role) unauthorized
      ok commitment

    unfoldable pub set_transformation_fee :
        (fee_bps : ℕ) → Transformation W → Result (Transformation W)
    unfolding require_admin
    set_transformation_fee fee_bps s = do
      require_admin s
      fail_if (ltb 10000 fee_bps) invalid_fee_bps
      ok (record s { transformation_fee_bps = fee_bps })

    unfoldable pub set_authorized_transformer :
        (transformer : Address) (allowed : Bool) → Transformation W → Result (Transformation W)
    unfolding require_admin
    set_authorized_transformer transformer allowed s = do
      require_admin s
      ok (record s { authorized_transformer = update s.authorized_transformer transformer allowed })

    unfoldable pub set_fee_recipient :
        (recipient : Address) → Transformation W → Result (Transformation W)
    unfolding require_admin
    set_fee_recipient recipient s = do
      require_admin s
      ok (record s { fee_recipient = some recipient })

    unfoldable pub withdraw_fees :
        Others W
        → (asset_address : Address) (amount : ℤ) → Transformation W
        → Result (Transformation W)
    unfolding require_admin
    withdraw_fees x asset_address amount s = do
      require_admin s
      fail_if (leb_ℤ amount (pos 0)) invalid_amount
      recipient ← or_fail s.fee_recipient fee_recipient_not_set
      let collected = s.collected_fees asset_address
      fail_if (ltb_ℤ collected amount) insufficient_fees
      left ← Math.checked (collected -ℤ amount) Outcome.arithmetic_overflow
      let lowered = record s { collected_fees = update s.collected_fees asset_address left }
      transferred (x.transfer asset_address env.this recipient amount lowered.world) lowered
