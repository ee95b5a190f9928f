-- ===== src/Shared/Math/Laws.antt =====
-- `SafeMath` at amounts that are not negative and whose products fit in an `i128`: the exact results.
use native.Mathlib.Nat.{div-le_of_le-mul, div-mul-le_self, lt-div-mul-add}
use commitlabs_contracts.Prelude.{ℕ, ◌+◌, ◌-◌, ◌*◌, ◌/◌, ◌^◌, ◌≤◌, ◌<◌, ◌≡◌, arith, lt→ltb}
use commitlabs_contracts.Prelude.Int.{ℤ, pos, negsuc, pos_part, *ℤ_pos, ◌/ℤ◌, ◌-ℤ◌}
use commitlabs_contracts.Shared.Outcome.{ok}
use commitlabs_contracts.Shared.Math.{
  sub, mul, div, percent, percent_from, loss_percent, penalty_amount, apply_penalty,
}

pub mul_pos : (a b : ℕ) → a * b < 2 ^ 127 → mul (pos a) (pos b) ≡ ok (pos (a * b))
unfolding mul
mul_pos a b h = rw (*ℤ_pos a b, lt→ltb _ _ h)

pub sub_pos : (a b : ℕ) → b ≤ a → a < 2 ^ 127 → sub (pos a) (pos b) ≡ ok (pos (a - b))
unfolding sub ◌-ℤ◌
sub_pos a b h k = ground arith

pub div_pos : (a b : ℕ) → a < 2 ^ 127 → 0 < b → div (pos a) (pos b) ≡ ok (pos (a / b))
unfolding div ◌/ℤ◌
div_pos a b h k = ground arith

pub percent_pos : (v p : ℕ) → p ≤ 100 → v * p < 2 ^ 127 → percent (pos v) p ≡ ok (pos (v * p / 100))
unfolding percent
percent_pos v p h k = ground (arith, mul_pos v p, div_pos (v * p) 100)

pub percent_from_pos :
    (part whole : ℕ)
    → 0 < whole
    → part * 100 < 2 ^ 127
    → percent_from (pos part) (pos whole) ≡ ok (pos (part * 100 / whole))
unfolding percent_from
percent_from_pos part whole h k = ground (arith, mul_pos part 100, div_pos (part * 100) whole)

-- The loss percentage as a plain function: `-` on naturals stops at 0, so it needs no cases.
abbrev pub loss_of : ℕ → ℕ → ℕ
loss_of initial current = (initial - current) * 100 / initial

full_loss : (i c : ℕ) → 0 < i → c ≤ 0 → loss_of i c ≡ 100
full_loss i c h k = grind (arith, div-le_of_le-mul, div-mul-le_self, lt-div-mul-add)

no_loss : (i c : ℕ) → 0 < i → i ≤ c → loss_of i c ≡ 0
no_loss i c h k = grind (arith, div-mul-le_self)

pub loss_of-le : (i c : ℕ) → loss_of i c ≤ 100
loss_of-le i c = div-le_of_le-mul i (grind arith)

-- For a positive initial value up to a hundredth of `i128::MAX` the loss percentage never panics,
-- whatever the current value, also a negative one: it is the share of the initial value that is
-- missing, in whole percent rounded down, and lies from 0 to 100.
pub loss_percent_exact :
    (i : ℕ) (current : ℤ)
    → 0 < i
    → i * 100 < 2 ^ 127
    → (loss_percent (pos i) current ≡ ok (pos (loss_of i (pos_part current))))
      × (loss_of i (pos_part current) ≤ 100)
unfolding loss_percent
loss_percent_exact i (negsuc c) h k = (ground (arith, full_loss i 0), loss_of-le i 0)
loss_percent_exact i (pos c) h k = (
  ground (arith, sub_pos i c, percent_from_pos (i - c) i, full_loss i c, no_loss i c),
  loss_of-le i c,
)

-- A penalty and what is left after it make up the value, and the penalty is the exact percentage
-- rounded down, for percentages up to 100 of a value that is not negative and whose product with
-- the percentage is an `i128`.
pub penalty_splits :
    (v p : ℕ)
    → v < 2 ^ 127
    → p ≤ 100
    → v * p < 2 ^ 127
    → (a b : ℕ) × (penalty_amount (pos v) p ≡ ok (pos a))
      × (apply_penalty (pos v) p ≡ ok (pos b))
      × (a + b ≡ v)
      × (a * 100 ≤ v * p)
      × (v * p < a * 100 + 100)
unfolding penalty_amount apply_penalty
penalty_splits v p w h k =
    let small : v * p / 100 ≤ v = grind (arith, div-le_of_le-mul) in
    let first = percent_pos v p h k in
    (
      v * p / 100,
      v - v * p / 100,
      first,
      rw first (sub_pos v (v * p / 100) small w),
      omega arith,
      omega arith,
      omega arith,
    )
