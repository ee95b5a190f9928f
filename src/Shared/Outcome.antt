-- ===== src/Shared/Outcome.antt =====
-- A panic aborts the invocation and the host discards every write, so a fallible function returns
-- a new state or the panic alone. One constructor stands for each panic message.
use commitlabs_contracts.Prelude.{
  ℕ, ◌≡◌, refl, Bool, true, false, Option, none, some, ◌⊎◌, inl, inr,
}

pub data Panic : Type 0 where
  -- contracts/shared_utils/src/math.rs
  addition_overflow subtraction_underflow multiplication_overflow division_overflow : Panic
  division_by_zero percent_above_hundred percent_from_zero loss_from_zero gain_from_zero : Panic
  -- contracts/shared_utils/src/fees.rs
  fee_bps_above_max fees_overflow fees_underflow : Panic
  -- contracts/shared_utils/src/validation.rs
  amount_not_positive amount_negative duration_zero percent_invalid : Panic
  percent_sum_invalid commitment_type_invalid : Panic
  -- contracts/shared_utils/src/time.rs
  expired duration_exceeds_max : Panic
  -- contracts/shared_utils/src/rate_limiting.rs
  rate_limit_invalid rate_limit_exceeded : Panic
  -- contracts/shared_utils/src/pausable.rs and emergency.rs
  already_paused already_unpaused contract_paused contract_not_paused : Panic
  emergency_forbids emergency_required : Panic
  -- the literal panics of contracts/commitment_core/src/lib.rs
  safe_loss_above_limit safe_penalty_below_limit : Panic
  balanced_loss_above_limit balanced_penalty_below_limit aggressive_penalty_below_limit : Panic
  -- a failed `require_auth`, a failed call of another contract, and the overflow checks of the
  -- release profile
  not_authorized call_failed arithmetic_overflow : Panic
  -- a contract error by its number
  contract_error : ℕ → Panic
  -- a panic with a literal message of contracts/version-system or contracts/time_lock
  already_initialized not_initialized invalid_version_increment version_not_found : Panic
  minimum_above_current already_deprecated unwrap_none : Panic
  -- the literal panic of contracts/price_oracle/src/lib.rs
  not_whitelisted : Panic

pub data Result {ℓ} (A : Type ℓ) : Type ℓ where
  ok : A → Result A
  panic : Panic → Result A

abbrev pub IsOk {ℓ} : {A : Type ℓ} → Result A → Type 0
IsOk (ok a) = Unit
IsOk (panic p) = ⊥

infixl 5 ◌>>=◌ ◌>>◌
abbrev pub ◌>>=◌ {ℓ κ} : {T : Type ℓ} {S : Type κ} → Result T → (T → Result S) → Result S
panic why >>= next = panic why
ok value >>= next = next value

-- `if test { panic!(…) }`
abbrev pub reject_if : Bool → Panic → Result (Unit {0})
reject_if true p = panic p
reject_if false p = ok tt

-- `expect` and `unwrap_or_else(|| panic!(…))`
abbrev pub or_panic {ℓ} : {A : Type ℓ} → Option A → Panic → Result A
or_panic none p = panic p
or_panic (some a) p = ok a

-- A check before what follows it.
abbrev pub ◌>>◌ {ℓ} : {S : Type ℓ} → Result (Unit {0}) → Result S → Result S
check >> next = check >>= λ _. next

-- `if !test { panic!(…) }`
abbrev pub require : Bool → Panic → Result (Unit {0})
require true p = ok tt
require false p = panic p

pub Result-cases {ℓ} :
    {A : Type ℓ} (r : Result A) → ((a : A) × (r ≡ ok a)) ⊎ ((p : Panic) × (r ≡ panic p))
Result-cases (ok a) = inl (a, refl)
Result-cases (panic p) = inr (p, refl)
