-- ===== src/Shared/Tests.antt =====
-- Concrete evaluations of the shared helpers.
use commitlabs_contracts.Prelude.{◌+◌, ◌≤◌, ◌≡◌, refl, ◌↔◌, false, some, [], ◌∷◌, arith}
use commitlabs_contracts.Prelude.Int.{pos, negsuc}
use commitlabs_contracts.Shared.Outcome.{ok, IsOk}
use commitlabs_contracts.Shared.Math.{loss_percent}
use commitlabs_contracts.Shared.Math.Laws.{loss_of, loss_percent_exact}
use commitlabs_contracts.Shared.Time.{checked_calculate_expiration}
use commitlabs_contracts.Shared.RateLimiting.{Limiter}
use commitlabs_contracts.Shared.RateLimiting.Windows.{check_all, check_all_iff}

loss_percent_example :
    (loss_percent (pos 1000) (negsuc 4) ≡ ok (pos (loss_of 1000 0))) × (loss_of 1000 0 ≤ 100)
loss_percent_example = loss_percent_exact 1000 (negsuc 4) (omega arith) (omega arith)

expires : checked_calculate_expiration 1000 30 ≡ some 2593000
unfolding checked_calculate_expiration
expires = refl

-- Function 1 allows 3 calls in 60 seconds, and address 7 has made one at time 100.
abbrev limiter : Limiter
limiter = record {
  config = λ function. some (60, 3);
  state = λ address function. some (100, 1);
  exempt = λ address. false;
}

check_all_example : IsOk (check_all 7 1 (110 ∷ 120 ∷ []) limiter) ↔ (1 + 2 ≤ 3)
check_all_example =
    check_all_iff 7 1 60 3 100 (110 ∷ 120 ∷ []) 1 limiter (omega arith) (omega arith)
      (refl, refl, refl) (omega arith, (omega arith, tt))
