-- ===== src/Shared/Fees.antt =====
-- contracts/shared_utils/src/fees.rs: fees in basis points.
pub mod Laws
use commitlabs_contracts.Prelude.{ℕ, ltb, ◌==◌, if◌then◌else◌}
use commitlabs_contracts.Prelude.Int.{ℤ, pos, ◌-ℤ◌, ◌*ℤ◌, ◌/ℤ◌}
use commitlabs_contracts.Shared.Outcome.{
  Result, ok, ◌>>=◌, ◌>>◌, reject_if, fee_bps_above_max, fees_overflow, fees_underflow,
}
use commitlabs_contracts.Shared.Math.{checked}

abbrev pub bps_scale : ℕ
bps_scale = 10000

abbrev pub bps_max : ℕ
bps_max = 10000

-- The divisor is the constant 10000, so of the two ways in which `checked_div` gives `None` neither
-- arises and the quotient is taken as it is.
unfoldable pub fee_from_bps : ℤ → ℕ → Result ℤ
fee_from_bps amount bps = do
  reject_if (ltb bps_max bps) fee_bps_above_max
  if bps == 0
      then ok (pos 0)
      else (checked (amount *ℤ pos bps) fees_overflow >>= λ product. ok (product /ℤ pos bps_scale))

unfoldable pub net_after_fee_bps : ℤ → ℕ → Result ℤ
net_after_fee_bps amount bps = do
  fee ← fee_from_bps amount bps
  checked (amount -ℤ fee) fees_underflow
