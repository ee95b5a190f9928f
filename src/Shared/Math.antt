-- ===== src/Shared/Math.antt =====
-- `SafeMath` of contracts/shared_utils/src/math.rs: checked `i128` arithmetic and percentages.
pub mod Laws
use commitlabs_contracts.Prelude.{ℕ, Bool, ltb, if◌then◌else◌, ◌<◌, ◌≤◌, ◌^◌}
use commitlabs_contracts.Prelude.Int.{
  ℤ, pos, negsuc, pos_part, neg_part, ◌+ℤ◌, ◌-ℤ◌, ◌*ℤ◌, ◌/ℤ◌, ltb_ℤ, leb_ℤ, eq_ℤ, in_i128,
}
use commitlabs_contracts.Shared.Outcome.{
  Panic, Result, ok, panic, ◌>>=◌, ◌>>◌, require, reject_if, addition_overflow,
  subtraction_underflow, multiplication_overflow, division_overflow, division_by_zero,
  percent_above_hundred, percent_from_zero, loss_from_zero, gain_from_zero,
}

-- The result of a checked operation: the exact value if it is an `i128`.
abbrev pub checked : ℤ → Panic → Result ℤ
checked z p = if in_i128 z then ok z else panic p

unfoldable pub add : ℤ → ℤ → Result ℤ
add a b = checked (a +ℤ b) addition_overflow

unfoldable pub sub : ℤ → ℤ → Result ℤ
sub a b = checked (a -ℤ b) subtraction_underflow

unfoldable pub mul : ℤ → ℤ → Result ℤ
mul a b = checked (a *ℤ b) multiplication_overflow

unfoldable pub div : ℤ → ℤ → Result ℤ
div a b = do reject_if (eq_ℤ b (pos 0)) division_by_zero; checked (a /ℤ b) division_overflow

unfoldable pub percent_from : ℤ → ℤ → Result ℤ
percent_from part whole = do
  reject_if (eq_ℤ whole (pos 0)) percent_from_zero
  scaled ← mul part (pos 100)
  div scaled whole

unfoldable pub calculate_percentage_change : ℤ → ℤ → Result ℤ
calculate_percentage_change old_value new_value =
    if eq_ℤ old_value (pos 0)
    then ok (if eq_ℤ new_value (pos 0) then pos 0 else pos 100)
    else if leb_ℤ old_value new_value
    then (sub new_value old_value >>= λ d. percent_from d old_value)
    else (sub old_value new_value >>= λ d. percent_from d old_value)

unfoldable pub percent : ℤ → ℕ → Result ℤ
percent value p = do
  reject_if (ltb 100 p) percent_above_hundred
  scaled ← mul value (pos p)
  div scaled (pos 100)

unfoldable pub percent_of : ℤ → ℕ → Result ℤ
percent_of value p = percent value p

unfoldable pub loss_percent : ℤ → ℤ → Result ℤ
loss_percent initial current = do
  reject_if (eq_ℤ initial (pos 0)) loss_from_zero
  if leb_ℤ initial current
      then ok (pos 0)
      else if leb_ℤ current (pos 0)
      then ok (pos 100)
      else (sub initial current >>= λ loss. percent_from loss initial)

unfoldable pub gain_percent : ℤ → ℤ → Result ℤ
gain_percent initial current = do
  reject_if (eq_ℤ initial (pos 0)) gain_from_zero
  if leb_ℤ current initial
      then ok (pos 0)
      else (sub current initial >>= λ gain. percent_from gain initial)

unfoldable pub penalty_amount : ℤ → ℕ → Result ℤ
penalty_amount value penalty_percent = percent value penalty_percent

unfoldable pub apply_penalty : ℤ → ℕ → Result ℤ
apply_penalty value penalty_percent = do penalty ← percent value penalty_percent; sub value penalty
