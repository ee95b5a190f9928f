-- ===== src/Shared/Time.antt =====
-- contracts/shared_utils/src/time.rs. The ledger timestamp is an argument; a `u64` result that may
-- wrap keeps its wrap-around.
pub mod Laws
use commitlabs_contracts.Prelude.{
  ℕ, ◌+◌, ◌-◌, ◌*◌, ◌/◌, ◌%◌, ◌^◌, min, Bool, false, not, ◌&&◌, Option, none, some, ltb, leb, ◌==◌,
  if◌then◌else◌,
}
use commitlabs_contracts.Shared.Outcome.{Result, ok, reject_if, expired, duration_exceeds_max}

abbrev pub u64_mod : ℕ
u64_mod = 2 ^ 64

abbrev pub u32_max : ℕ
u32_max = 4294967295

abbrev pub max_duration_days : ℕ
max_duration_days = 73000

abbrev pub seconds_per_day : ℕ
seconds_per_day = 86400

-- `u64::checked_add` and `u64::checked_mul`, by the exact result.
abbrev pub checked_u64 : ℕ → Option ℕ
checked_u64 n = if ltb n u64_mod then some n else none

unfoldable pub days_to_seconds : ℕ → ℕ
days_to_seconds days = days * seconds_per_day

unfoldable pub checked_days_to_seconds : ℕ → Option ℕ
checked_days_to_seconds days = checked_u64 (days * seconds_per_day)

unfoldable pub seconds_to_days : ℕ → ℕ
seconds_to_days seconds = min (seconds / seconds_per_day) u32_max

unfoldable pub calculate_expiration : ℕ → ℕ → ℕ
unfolding days_to_seconds
calculate_expiration now duration_days = (now + days_to_seconds duration_days) % u64_mod

unfoldable pub checked_calculate_expiration : ℕ → ℕ → Option ℕ
unfolding checked_days_to_seconds
checked_calculate_expiration now duration_days = elim (checked_days_to_seconds duration_days) [
  | none ↦ none
  | some duration_seconds ↦ checked_u64 (now + duration_seconds)
]

unfoldable pub is_expired : ℕ → ℕ → Bool
is_expired now expiration = leb expiration now

unfoldable pub is_valid : ℕ → ℕ → Bool
unfolding is_expired
is_valid now expiration = not (is_expired now expiration)

unfoldable pub time_remaining : ℕ → ℕ → ℕ
time_remaining now expiration = expiration - now

unfoldable pub elapsed : ℕ → ℕ → ℕ
elapsed now start_time = now - start_time

unfoldable pub is_same_day : ℕ → ℕ → Bool
is_same_day ts_a ts_b = ts_a / seconds_per_day == ts_b / seconds_per_day

unfoldable pub is_in_window : ℕ → ℕ → ℕ → Bool
is_in_window ts start end = if leb end start then false else leb start ts && ltb ts end

unfoldable pub require_not_expired : ℕ → ℕ → Result (Unit {0})
unfolding is_expired
require_not_expired now expiration = reject_if (is_expired now expiration) expired

unfoldable pub require_valid_duration : ℕ → Result (Unit {0})
require_valid_duration duration_days =
    reject_if (ltb max_duration_days duration_days) duration_exceeds_max
