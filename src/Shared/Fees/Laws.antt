-- ===== src/Shared/Fees/Laws.antt =====
-- Fees of amounts that are not negative.
use native.Mathlib.Nat.{div-le_of_le-mul}
use commitlabs_contracts.Prelude.{ℕ, ◌+◌, ◌-◌, ◌*◌, ◌/◌, ◌^◌, ◌≤◌, ◌<◌, ◌≡◌, arith, lt→ltb}
use commitlabs_contracts.Prelude.Int.{ℤ, pos, *ℤ_pos, ◌/ℤ◌, ◌-ℤ◌}
use commitlabs_contracts.Shared.Outcome.{ok}
use commitlabs_contracts.Shared.Fees.{fee_from_bps, net_after_fee_bps, bps_max}

pub fee_of-le : (v bps : ℕ) → bps ≤ bps_max → v * bps / 10000 ≤ v
fee_of-le v bps h = grind (arith, div-le_of_le-mul)

pub fee_from_bps_pos :
    (v bps : ℕ)
    → bps ≤ bps_max
    → v * bps < 2 ^ 127
    → fee_from_bps (pos v) bps ≡ ok (pos (v * bps / 10000))
unfolding fee_from_bps ◌/ℤ◌
fee_from_bps_pos v bps h k = rw (*ℤ_pos v bps, lt→ltb _ _ k) (ground arith)

-- Fee and net amount make up the amount, and the fee is the exact share rounded down.
pub fee_splits :
    (v bps : ℕ)
    → v < 2 ^ 127
    → bps ≤ bps_max
    → v * bps < 2 ^ 127
    → (fee net : ℕ) × (fee_from_bps (pos v) bps ≡ ok (pos fee))
      × (net_after_fee_bps (pos v) bps ≡ ok (pos net))
      × (fee + net ≡ v)
      × (fee * 10000 ≤ v * bps)
      × (v * bps < fee * 10000 + 10000)
unfolding net_after_fee_bps ◌-ℤ◌
fee_splits v bps w h k =
    let first = fee_from_bps_pos v bps h k in
    let small = fee_of-le v bps h in
    (
      v * bps / 10000,
      v - v * bps / 10000,
      first,
      rw first (ground arith),
      omega arith,
      omega arith,
      omega arith,
    )

-- A fee that is computed is the exact share, at a rate of at most 100 percent.
pub fee_from_bps_ok :
    (v bps : ℕ) {fee : ℤ}
    → fee_from_bps (pos v) bps ≡ ok fee
    → (bps ≤ bps_max) × (fee ≡ pos (v * bps / 10000))
unfolding fee_from_bps ◌/ℤ◌
fee_from_bps_ok v bps h = ground (arith, *ℤ_pos v bps)
