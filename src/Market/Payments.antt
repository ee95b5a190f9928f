-- ===== src/Market/Payments.antt =====
-- How a price is split, and what the payments of the marketplace do to the tokens.
use native.Mathlib.Nat.{div-le_of_le-mul}
use commitlabs_contracts.Prelude.{
  ℕ, ◌+◌, ◌*◌, ◌/◌, ◌^◌, ◌-◌, ◌≤◌, ◌<◌, ◌≡◌, Option, none, some, arith, if◌then◌else◌,
}
use commitlabs_contracts.Prelude.Int.{ℤ, pos, pos_part, ltb_ℤ, ◌≤ℤ◌, ◌-ℤ◌, ◌/ℤ◌, *ℤ_pos}
use commitlabs_contracts.Shared.Outcome.{ok}
use commitlabs_contracts.Shared.Math
use commitlabs_contracts.Shared.Math.Laws.{mul_pos, sub_pos, div_pos}
use commitlabs_contracts.Core.Types.{Address}
use commitlabs_contracts.Market.Types.{Tokens}
use commitlabs_contracts.Market.Store.{split_fee, split_fee_plain}

-- The two transfers of a payment, of which the second is made for a positive fee only.
abbrev pub and_then : {W : Type 0} → Option W → (W → Option W) → Option W
and_then none f = none
and_then (some w) f = f w

abbrev pub fee_transfer :
    {W : Type 0} → Tokens W → (token payer recipient : Address) → ℤ → W → Option W
fee_transfer x token payer recipient fee w =
    if ltb_ℤ (pos 0) fee then x.transfer token payer recipient fee w else some w

abbrev pub payments :
    {W : Type 0}
    → Tokens W
    → (token payer seller recipient : Address) (proceeds fee : ℤ) → W
    → Option W
payments x token payer seller recipient proceeds fee w =
    and_then (x.transfer token payer seller proceeds w) (fee_transfer x token payer recipient fee)

-- For a price that is not negative and whose product with the fee rate is an `i128`, both ways to
-- split it give the fee in basis points rounded down and the rest, and for a rate of at most 10000
-- basis points the two make up the price.
pub split_fee_exact :
    (p bps : ℕ)
    → p < 2 ^ 127
    → bps ≤ 10000
    → p * bps < 2 ^ 127
    → (split_fee (pos p) bps ≡ ok (pos (p * bps / 10000), pos (p - p * bps / 10000)))
      × (split_fee_plain (pos p) bps ≡ split_fee (pos p) bps)
      × (p * bps / 10000 + (p - p * bps / 10000) ≡ p)
unfolding split_fee split_fee_plain ◌-ℤ◌ ◌/ℤ◌
split_fee_exact p bps h k l =
    let small : p * bps / 10000 ≤ p = grind (arith, div-le_of_le-mul) in
    (
      ground (arith, mul_pos p bps l, div_pos (p * bps) 10000, sub_pos p (p * bps / 10000) small h),
      ground (
        arith,
        *ℤ_pos p bps,
        mul_pos p bps l,
        div_pos (p * bps) 10000,
        sub_pos p (p * bps / 10000) small h,
      ),
      omega (arith, small),
    )

-- A split of a price that is not negative at a rate of at most 10000 basis points.
pub split_fee_parts :
    (p : ℕ) (bps : ℕ) (fee proceeds : ℤ)
    → bps ≤ 10000
    → split_fee (pos p) bps ≡ ok (fee, proceeds)
    → (pos 0 ≤ℤ fee) × (pos 0 ≤ℤ proceeds) × (pos_part fee + pos_part proceeds ≡ p)
unfolding split_fee Math.mul Math.div Math.sub ◌-ℤ◌ ◌/ℤ◌
split_fee_parts p bps fee proceeds rate e =
    let small : p * bps / 10000 ≤ p = grind (arith, div-le_of_le-mul) in
    ground (arith, *ℤ_pos p bps, small)
