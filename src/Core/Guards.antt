-- ===== src/Core/Guards.antt =====
-- The penalty of an early exit and the reports of violations of
-- contracts/commitment_core/src/lib.rs.
use commitlabs_contracts.Prelude.{
  ℕ, ◌*◌, ◌-◌, ◌^◌, ◌≤◌, ◌<◌, ◌≡◌, ◌&&◌, ◌||◌, some, arith, ltb, leb,
}
use commitlabs_contracts.Prelude.Int.{pos, pos_part}
use commitlabs_contracts.Shared.Outcome.{ok}
use commitlabs_contracts.Shared.Math
use commitlabs_contracts.Shared.Math.{penalty_amount, loss_percent}
use commitlabs_contracts.Shared.Math.Laws.{loss_of, loss_percent_exact}
use commitlabs_contracts.Core.Types.{Address, Bytes, Commitment, Env, External, Core, is_active}
use commitlabs_contracts.Core.Lifecycle.{early_exit, loss_of_value}
use commitlabs_contracts.Core.Views.{check_violations, get_violation_details}

module _ {W : Type 0} (x : External W) (env : Env) (s : Core W) where
  -- A commitment that exits early has a penalty of at most 100 percent; one that was created with a
  -- higher penalty can never exit early.
  pub early_exit_penalty-le :
      (id : Bytes) (caller : Address) (c : Commitment) (s' : Core W)
      → s.commitment id ≡ some c
      → early_exit x env id caller s ≡ ok s'
      → c.rules.early_exit_penalty ≤ 100
  unfolding early_exit penalty_amount Math.percent
  early_exit_penalty-le id caller c s' found e = ground arith

module _ {W : Type 0} (now : ℕ) (s : Core W) (id : Bytes) (c : Commitment) (a : ℕ) where
  -- A stored commitment with a positive amount up to a hundredth of `i128::MAX` is reported violated
  -- exactly if it is active and has expired or its loss, in whole percent rounded down, exceeds its
  -- limit; the detailed report says the same of every commitment, active or not.
  pub check_violations_lem :
      s.commitment id ≡ some c
      → c.amount ≡ pos a
      → 0 < a
      → a * 100 < 2 ^ 127
      → (check_violations now s id
          ≡ ok (
              is_active c.status
              && (ltb c.rules.max_loss_percent (loss_of a (pos_part c.current_value))
                  || leb c.expires_at now)))
        × (get_violation_details now s id
            ≡ ok (
              ltb c.rules.max_loss_percent (loss_of a (pos_part c.current_value))
                  || leb c.expires_at now,
              ltb c.rules.max_loss_percent (loss_of a (pos_part c.current_value)),
              leb c.expires_at now,
              pos (loss_of a (pos_part c.current_value)),
              c.expires_at - now,
            ))
  unfolding check_violations get_violation_details loss_of_value
  check_violations_lem found amount positive small =
      let exact = (loss_percent_exact a c.current_value positive small).0 in
      (ground (arith, exact), ground (arith, exact))
