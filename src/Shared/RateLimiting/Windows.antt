-- ===== src/Shared/RateLimiting/Windows.antt =====
-- What a configured limit admits within one window.
use native.Mathlib.Decide.{dec_le}
use commitlabs_contracts.Prelude.{
  ℕ, ◌+◌, ◌-◌, ◌≤◌, ◌<◌, ◌≡◌, ◌↔◌, false, some, List, [], ◌∷◌, arith, update, nat_key, length, All,
  nat_beq_refl,
}
use commitlabs_contracts.Shared.Outcome.{Result, ok, panic, ◌>>=◌, IsOk, rate_limit_exceeded}
use commitlabs_contracts.Shared.RateLimiting.{Limiter, check}
use commitlabs_contracts.Shared.Time.{u32_max}

-- Calls of one address at the given times, one after another; the first refusal stops them.
abbrev pub check_all : (address function : ℕ) → List ℕ → Limiter → Result Limiter
check_all address function [] r = ok r
check_all address function (t ∷ ts) r = check t address function r >>= check_all address function ts

module _ (address function window max_calls start : ℕ) where
  -- A limiter in the middle of a window, with `count` calls made.
  abbrev pub Within : ℕ → Limiter → Type 0
  Within count r =
      (r.exempt address ≡ false)
      × (r.config function ≡ some (window, max_calls))
      × (r.state address function ≡ some (start, count))

  pub check-Within :
      (t count : ℕ) (r : Limiter)
      → t - start < window
      → count < u32_max
      → Within count r
      → count + 1 ≤ max_calls
      → (r' : Limiter) × (check t address function r ≡ ok r') × Within (count + 1) r'
  unfolding check
  check-Within t count r h k w room = (
    record r {
      state = update r.state address (update (r.state address) function (some (start, count + 1)));
    },
    ground arith,
    ground (arith, nat_beq_refl address, nat_beq_refl function),
  )

  pub check_full :
      (t count : ℕ) (r : Limiter)
      → t - start < window
      → count < u32_max
      → Within count r
      → max_calls < count + 1
      → check t address function r ≡ panic rate_limit_exceeded
  unfolding check
  check_full t count r h k w full = ground arith

  -- Within one window the limit is exact. At an address that is not exempt, in a window in which
  -- `count` calls were made, a sequence of further calls at times of the window goes through
  -- exactly when the calls together do not exceed the configured maximum. (The maximum is below
  -- `u32::MAX`, at which the saturating counter would stand still.)
  pub check_all_iff :
      (ts : List ℕ) (count : ℕ) (r : Limiter)
      → max_calls < u32_max
      → count ≤ max_calls
      → Within count r
      → All (λ t. t - start < window) ts
      → IsOk (check_all address function ts r) ↔ (count + length ts ≤ max_calls)
  check_all_iff [] count r m k w a = (λ _. omega arith, λ _. tt)
  check_all_iff (t ∷ ts) count r m k w (h, hs) = elim (dec_le (count + 1) max_calls) [
    | yes room ↦
        let (r', went, w') = check-Within t count r h (omega arith) w room in
        let ih = check_all_iff ts (count + 1) r' m room w' hs in
        rw went (λ o. omega (arith, ih.0 o), λ l. ih.1 (omega arith))
    | no full ↦
        rw (check_full t count r h (omega arith) w (omega arith))
          (λ o. absurd o, λ l. absurd (full (omega arith)))
  ]
