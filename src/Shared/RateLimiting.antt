-- ===== src/Shared/RateLimiting.antt =====
-- contracts/shared_utils/src/rate_limiting.rs: fixed windows per address and function.
pub mod Windows
use commitlabs_contracts.Prelude.{
  ℕ, ◌+◌, ◌-◌, min, Bool, true, false, ◌||◌, Option, none, some, ltb, leb, ◌==◌, if◌then◌else◌,
  update, unwrap_or, nat_key,
}
use commitlabs_contracts.Shared.Outcome.{
  Result, ok, ◌>>=◌, ◌>>◌, reject_if, rate_limit_invalid, rate_limit_exceeded,
}
use commitlabs_contracts.Shared.Time.{u32_max}

-- The three storage prefixes `RL_CFG`, `RL_ST` and `RL_EX`, keyed by function, by address and
-- function, and by address.
pub record Limiter : Type 0 where
  pub config : ℕ → Option (ℕ × ℕ)
  pub state : ℕ → ℕ → Option (ℕ × ℕ)
  pub exempt : ℕ → Bool

unfoldable pub set_limit : ℕ → ℕ → ℕ → Limiter → Result Limiter
set_limit function window_seconds max_calls r = do
  reject_if (window_seconds == 0 || max_calls == 0) rate_limit_invalid
  ok (record r { config = update r.config function (some (window_seconds, max_calls)) })

unfoldable pub clear_limit : ℕ → Limiter → Limiter
clear_limit function r = record r { config = update r.config function none }

unfoldable pub set_exempt : ℕ → Bool → Limiter → Limiter
set_exempt address exempt r = record r { exempt = update r.exempt address exempt }

-- `check` from the loaded configuration on: the window, the count and the write.
unfoldable pub count_call :
    (now address function window_seconds max_calls : ℕ) → Limiter → Result Limiter
count_call now address function window_seconds max_calls r =
    let entry : ℕ × ℕ = unwrap_or (r.state address function) (now, 0) in
    let expired_window : Bool = leb window_seconds (now - entry.0) in
    let window_start : ℕ = if expired_window then now else entry.0 in
    let count : ℕ = if expired_window then 0 else entry.1 in
    let new_count : ℕ = min (count + 1) u32_max in
    reject_if (ltb max_calls new_count) rate_limit_exceeded
    >> ok (record r {
      state =
          update r.state address
            (update (r.state address) function (some (window_start, new_count)));
    })

unfoldable pub check : (now address function : ℕ) → Limiter → Result Limiter
unfolding count_call
check now address function r = if r.exempt address then ok r else elim (r.config function) [
  | none ↦ ok r
  | some cfg ↦ count_call now address function cfg.0 cfg.1 r
]
