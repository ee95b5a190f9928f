-- ===== src/Market/Escrow.antt =====
-- The bids that the marketplace holds for auctions that have not ended, and what token contracts do.
use commitlabs_contracts.Prelude.{
  ℕ, ◌+◌, ◌≤◌, ◌≡◌, refl, true, false, ◌&&◌, Option, none, some, List, [], ◌∷◌, ◌++◌, arith, ◌==◌,
  if◌then◌else◌, update, mem, remove_first, nat_key, Bool-cases, Option-cases, inl, inr, sum_over,
  sum_over_congr, sum_over_change, sum_over-append, sum_over-remove_first, mem_apart,
  mem-remove_first_self, Distinct,
}
use commitlabs_contracts.Prelude.Int.{ℤ, pos, pos_part, ltb_ℤ, ◌≤ℤ◌}
use commitlabs_contracts.Core.Types.{Address}
use commitlabs_contracts.Market.Types.{Tokens, Auction}
use commitlabs_contracts.Market.Payments.{payments}

-- What an account `who` gains of the token `t` when `amount` of `token` comes to `to`.
abbrev pub share : (token to t who : Address) → ℤ → ℕ
share token to t who amount = if token == t && to == who then pos_part amount else 0

-- Token contracts as their standard documents them: a transfer that succeeds is of an amount that is
-- not negative, takes it from the sender's balance, adds it to the receiver's, and moves nothing else.
pub record IsLedger {W : Type 0} (x : Tokens W) (balance : W → (token who : Address) → ℕ)
    : Type 0 where
  pub moves :
      (token from to : Address) (amount : ℤ) (w w' : W)
      → x.transfer token from to amount w ≡ some w'
      → (pos 0 ≤ℤ amount)
        × ((t who : Address)
            → balance w' t who + share token from t who amount
              ≡ balance w t who + share token to t who amount)

-- What is held of the token `t` for the standing bid of an auction.
abbrev pub bid_part : Option Address → ℤ → ℕ
bid_part none bid = 0
bid_part (some bidder) bid = pos_part bid

abbrev pub held : (t : Address) → Option Auction → ℕ
held t none = 0
held t (some a) = if a.payment_token == t then bid_part a.highest_bidder a.current_bid else 0

abbrev pub escrow : (t : Address) → (ℕ → Option Auction) → List ℕ → ℕ
escrow t auction ids = sum_over (λ id. held t (auction id)) ids

-- A transfer takes at most the amount from an account, and nothing if it is not the sender; it never
-- takes from one that it does not name.
module _ {W : Type 0} (x : Tokens W) (balance : W → (token who : Address) → ℕ)
    (laws : IsLedger x balance) where
  pub transfer_takes :
      (token from to : Address) (amount : ℤ) (w w' : W)
      → x.transfer token from to amount w ≡ some w'
      → (t who : Address) → balance w t who ≤ balance w' t who + share token from t who amount
  transfer_takes token from to amount w w' e t who =
      let (_, moved) = laws.moves token from to amount w w' e in omega (arith, moved t who)

  -- The account that pays loses at most the two amounts, and no other account loses.
  pub payments_take :
      (token payer seller recipient : Address) (proceeds fee : ℤ) (w w' : W)
      → payments x token payer seller recipient proceeds fee w ≡ some w'
      → (t who : Address)
      → balance w t who
        ≤ balance w' t who + share token payer t who proceeds + share token payer t who fee
  payments_take token payer seller recipient proceeds fee w w' e t who =
      elim (Option-cases (x.transfer token payer seller proceeds w)) [
        | inl failed ↦ absurd (ground arith)
        | inr (v, paid) ↦
            let first = transfer_takes token payer seller proceeds w v paid t who in
            elim (Bool-cases (ltb_ℤ (pos 0) fee)) [
              | inl some_fee ↦
                  let second : x.transfer token payer recipient fee v ≡ some w' = ground arith in
                  omega (arith, first, transfer_takes token payer recipient fee v w' second t who)
              | inr no_fee ↦ let last : v ≡ w' = ground arith in ground arith
            ]
      ]

module _ (t : Address) (f : ℕ → Option Auction) (id : ℕ) (o : Option Auction) (ids : List ℕ) where
  update_other : (j : ℕ) → (id == j) ≡ false → held t (update f id o j) ≡ held t (f j)
  update_other j apart = rw apart refl

  pub escrow-apart : mem id ids ≡ false → escrow t (update f id o) ids ≡ escrow t f ids
  escrow-apart out =
      sum_over_congr (λ j. held t (update f id o j)) (λ j. held t (f j)) ids
        (λ j there. update_other j (mem_apart id j ids out there))

  -- Each active auction is counted once, so that rewriting one changes the sum by the difference.
  pub escrow-update :
      Distinct ids
      → mem id ids ≡ true
      → escrow t (update f id o) ids + held t (f id) ≡ escrow t f ids + held t o
  escrow-update once inside =
      let here : held t (update f id o id) ≡ held t o = ground arith in
      omega (
        arith,
        here,
        sum_over_change (λ j. held t (f j)) (λ j. held t (update f id o j)) id ids update_other once
            inside,
      )

  pub escrow-opened :
      mem id ids ≡ false → escrow t (update f id o) (ids ++ (id ∷ [])) ≡ escrow t f ids + held t o
  escrow-opened out =
      let here : held t (update f id o id) ≡ held t o = ground arith in
      omega (
        arith,
        here,
        escrow-apart out,
        sum_over-append (λ j. held t (update f id o j)) ids (id ∷ []),
      )

module _ (t : Address) (f : ℕ → Option Auction) (id : ℕ) (o : Option Auction) (ids : List ℕ) where
  pub escrow-closed :
      Distinct ids
      → mem id ids ≡ true
      → escrow t (update f id o) (remove_first id ids) + held t (f id) ≡ escrow t f ids
  escrow-closed once inside = omega (
    arith,
    escrow-apart t f id o (remove_first id ids) (mem-remove_first_self id ids once),
    sum_over-remove_first (λ j. held t (f j)) id ids inside,
  )
