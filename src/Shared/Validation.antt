-- ===== src/Shared/Validation.antt =====
-- The checks of contracts/shared_utils/src/validation.rs that the contracts here call.
use commitlabs_contracts.Prelude.{ℕ, ◌+◌, ltb, ◌==◌, List, [], ◌∷◌}
use commitlabs_contracts.Prelude.Int.{ℤ, pos, ltb_ℤ, leb_ℤ}
use commitlabs_contracts.Shared.Outcome.{
  Result, ok, ◌>>=◌, ◌>>◌, require, reject_if, amount_not_positive, amount_negative, duration_zero,
  percent_invalid, percent_sum_invalid,
}

unfoldable pub require_positive : ℤ → Result (Unit {0})
require_positive amount = reject_if (leb_ℤ amount (pos 0)) amount_not_positive

unfoldable pub require_non_negative : ℤ → Result (Unit {0})
require_non_negative amount = reject_if (ltb_ℤ amount (pos 0)) amount_negative

unfoldable pub require_valid_duration : ℕ → Result (Unit {0})
require_valid_duration duration_days = reject_if (duration_days == 0) duration_zero

unfoldable pub require_valid_percent : ℕ → Result (Unit {0})
require_valid_percent percent = reject_if (ltb 100 percent) percent_invalid

-- The loop of `require_percent_sum`: each entry is at most 100, so a `u128` sum cannot overflow on
-- any slice that fits in memory.
unfoldable pub sum_percents : List ℕ → ℕ → Result ℕ
sum_percents [] sum = ok sum
sum_percents (p ∷ ps) sum = reject_if (ltb 100 p) percent_invalid >> sum_percents ps (sum + p)

unfoldable pub require_percent_sum : List ℕ → Result (Unit {0})
unfolding sum_percents
require_percent_sum percents = do
  sum ← sum_percents percents 0
  require (sum == 100) percent_sum_invalid
