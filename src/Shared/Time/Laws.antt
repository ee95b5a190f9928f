-- ===== src/Shared/Time/Laws.antt =====
-- Expiry computed with and without the overflow check.
use commitlabs_contracts.Prelude.{ℕ, ◌+◌, ◌*◌, ◌^◌, ◌<◌, ◌≡◌, true, some, ◌↔◌, arith}
use commitlabs_contracts.Shared.Time.{
  u64_mod, seconds_per_day, days_to_seconds, seconds_to_days, calculate_expiration,
  checked_calculate_expiration, is_expired, time_remaining, checked_u64,
}

-- For a day count of 32 bits the checked expiry is the timestamp plus the days in seconds, and it is
-- defined exactly when that sum fits 64 bits.
pub checked_calculate_expiration_agrees :
    (now days : ℕ)
    → days < 2 ^ 32
    → checked_calculate_expiration now days ≡ checked_u64 (now + days * seconds_per_day)
unfolding checked_calculate_expiration
checked_calculate_expiration_agrees now days h = ground arith

-- Where the checked expiry is defined, the wrapping one gives the same, both are the timestamp plus
-- the days in seconds, and that fits 64 bits.
pub checked-eq-wrapping :
    (now days : ℕ) {t : ℕ}
    → checked_calculate_expiration now days ≡ some t
    → (calculate_expiration now days ≡ t) × (t ≡ now + days * seconds_per_day) × (t < u64_mod)
unfolding checked_calculate_expiration calculate_expiration
checked-eq-wrapping now days h = ground arith

-- A fresh expiry has not passed before its days are over, and has passed from then on.
pub is_expired_after :
    (now later days : ℕ) {t : ℕ}
    → checked_calculate_expiration now days ≡ some t
    → (is_expired later t ≡ true) ↔ (time_remaining later t ≡ 0)
unfolding is_expired time_remaining
is_expired_after now later days h = ground arith

-- Days survive the way to seconds and back.
pub seconds_to_days-days_to_seconds :
    (days : ℕ) → days < 2 ^ 32 → seconds_to_days (days_to_seconds days) ≡ days
unfolding seconds_to_days days_to_seconds
seconds_to_days-days_to_seconds days h = omega arith
