-- ===== src/Transform/Shares.antt =====
-- The amounts of the tranches of a set make up its value.
use commitlabs_contracts.Prelude.{
  ℕ, suc, ◌+◌, ◌*◌, ◌/◌, ◌^◌, ◌≤◌, ◌≡◌, ap, ◌∙◌, List, [], ◌∷◌, length, arith, ltb, Bool-cases, inl,
  inr,
}
use commitlabs_contracts.Prelude.Int.{ℤ, pos, pos_part, ◌/ℤ◌, *ℤ_pos}
use commitlabs_contracts.Shared.Outcome.{ok, Result-cases}
use commitlabs_contracts.Core.Types.{Bytes, Env}
use commitlabs_contracts.Transform.Types.{RiskTranche}
use commitlabs_contracts.Transform.Tranches.{sum_bps, tranche_amount, make_tranches}

abbrev pub total : List ℕ → ℕ
total [] = 0
total (b ∷ bs) = b + total bs

abbrev pub amounts : List RiskTranche → ℕ
amounts [] = 0
amounts (t ∷ ts) = pos_part t.amount + amounts ts

-- The sum that the code makes is the sum.
pub sum_bps_lem : (sum : ℕ) (bs : List ℕ) {n : ℕ} → sum_bps sum bs ≡ ok n → n ≡ sum + total bs
unfolding sum_bps
sum_bps_lem sum [] e = ground arith
sum_bps_lem sum (b ∷ bs) {n} e = elim (Bool-cases (ltb (sum + b) (2 ^ 32))) [
  | inl fits ↦
      let rest : sum_bps (sum + b) bs ≡ ok n = ground arith in
      sum_bps_lem (sum + b) bs rest ∙ omega arith
  | inr over ↦ absurd (ground arith)
]

tranche_amount_lem : (v b : ℕ) {a : ℤ} → tranche_amount (pos v) b ≡ ok a → a ≡ pos (v * b / 10000)
unfolding tranche_amount ◌/ℤ◌
tranche_amount_lem v b e = ground (arith, *ℤ_pos v b)

module _ (env : Env) (counter : ℕ) (set_id commitment_id : Bytes) (v : ℕ) where
  -- Each amount is the exact share rounded down, so that less than one unit a tranche is lost.
  pub make_tranches_lem :
      (i : ℕ) (bs : List ℕ) (risks : List Bytes) (ts : List RiskTranche)
      → length bs ≡ length risks
      → make_tranches env counter set_id commitment_id (pos v) i bs risks ≡ ok ts
      → (amounts ts * 10000 ≤ v * total bs)
        × (v * total bs ≤ amounts ts * 10000 + 9999 * length bs)
        × (length ts ≡ length bs)
  unfolding make_tranches
  make_tranches_lem i [] risks ts same e = ground arith
  make_tranches_lem i (b ∷ bs) [] ts same e = absurd (ground arith)
  make_tranches_lem i (b ∷ bs) (r ∷ risks) [] same e = absurd (ground arith)
  make_tranches_lem i (b ∷ bs) (r ∷ risks) (t ∷ ts) same e =
      elim (Result-cases (tranche_amount (pos v) b)) [
        | inr (p, failed) ↦ absurd (ground arith)
        | inl (a, share) ↦
            elim (Result-cases
              (make_tranches env counter set_id commitment_id (pos v) (i + 1) bs risks)) [
                | inr (p, failed) ↦ absurd (ground arith)
                | inl (others, made) ↦
                    let rest : others ≡ ts = ground arith in
                    let first : t.amount ≡ a = ground arith in
                    step (tranche_amount_lem v b share) first
                      (make_tranches_lem (i + 1) bs risks ts (ground arith) (made ∙ ap ok rest))
              ]
      ]
    where
      step :
          {a : ℤ}
          → a ≡ pos (v * b / 10000)
          → t.amount ≡ a
          → (amounts ts * 10000 ≤ v * total bs)
            × (v * total bs ≤ amounts ts * 10000 + 9999 * length bs)
            × (length ts ≡ length bs)
          → ((pos_part t.amount + amounts ts) * 10000 ≤ v * (b + total bs))
            × (v * (b + total bs)
                ≤ (pos_part t.amount + amounts ts) * 10000 + 9999 * suc (length bs))
            × (suc (length ts) ≡ suc (length bs))
      step share first (low, high, long) =
          let amount : pos_part t.amount ≡ v * b / 10000 = ap pos_part (first ∙ share) in
          (omega (arith, amount, low), omega (arith, amount, high), omega (arith, long))
