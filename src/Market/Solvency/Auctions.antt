-- ===== src/Market/Solvency/Auctions.antt =====
-- The auction calls keep the marketplace solvent.
use mathlib.Core.Path.{subst}
use commitlabs_contracts.Prelude.{
  ℕ, ◌+◌, ◌≤◌, ◌≡◌, ap, ◌∙◌, true, false, none, some, arith, ◌==◌, if◌then◌else◌, update, mem,
  nat_key, Bool-cases, Option-cases, inl, inr,
}
use commitlabs_contracts.Prelude.Int.{ℤ, pos, pos_part, ◌<ℤ◌}
use commitlabs_contracts.Shared.Outcome.{ok}
use commitlabs_contracts.Core.Types.{Address, Env}
use commitlabs_contracts.Market.Types.{Market, Auction, Tokens}
use commitlabs_contracts.Market.Store.{split_fee}
use commitlabs_contracts.Market.Auctions.{capped_fee, start_auction, place_bid, end_auction}
use commitlabs_contracts.Market.Auctions.Effects.{
  start_auction_effect, place_bid_guards, place_bid_writes, place_bid_pays, end_auction_guards,
  end_auction_writes, end_auction_pays, end_auction_split, end_auction_without_bids, started,
  refunded, capped_fee-bound,
}
use commitlabs_contracts.Market.Found.{place_bid_found, end_auction_found}
use commitlabs_contracts.Market.Payments.{split_fee_parts, and_then}
use commitlabs_contracts.Market.Invariant.{IsValid, IsAuction, IsBid}
use commitlabs_contracts.Market.Escrow.{
  IsLedger, escrow, held, transfer_takes, payments_take, escrow-apart, escrow-update, escrow-opened,
  escrow-closed,
}
use commitlabs_contracts.Market.Solvency.{IsSolvent, own_kept, signer_apart}

-- The standing bid of a valid auction is positive.
bid_positive :
    (id : ℕ) (a : Auction) → IsAuction id (some a) → a.current_bid ≡ pos (pos_part a.current_bid)
bid_positive id a (_, positive, _, bid) = elim (Option-cases a.highest_bidder) [
  | inl open' ↦ let start : IsBid a none = subst (λ o. IsBid a o) open' bid in ground arith
  | inr (who, won) ↦ let high : IsBid a (some who) = subst (λ o. IsBid a o) won bid in ground arith
]

module _ {W : Type 0} (balance : W → (token who : Address) → ℕ) (this : Address) (s s' : Market W)
    (ok' : IsValid s) (v : IsSolvent balance this s) (env : Env) where
  pub start_auction-IsSolvent :
      (seller : Address) (id : ℕ) (price : ℤ) (duration : ℕ) (token : Address)
      → start_auction env seller id price duration token s ≡ ok s'
      → IsSolvent balance this s'
  start_auction-IsSolvent seller id price duration token e =
      let (_, _, _, _, _, _, unused, stored, active, offers, _, _, _, _, world) =
        start_auction_effect env s s' seller id price duration token e in
      let out : mem id s.active_auctions ≡ false = ok'.auctions.exact id ∙ ground arith in
      record {
        own_offers = own_kept balance this s s' v offers;
        covered = λ t.
            let same : escrow t s'.auction s'.active_auctions
                ≡ escrow t s.auction s.active_auctions
                  + held t (some (started env s s' seller id price duration token)) =
              rw (stored, active) (escrow-opened t s.auction id _ s.active_auctions out) in
            let nothing : held t (some (started env s s' seller id price duration token)) ≡ 0 =
              ground arith in
            omega (arith, same, nothing, v.covered t, ap (λ w. balance w t this) world);
      }

  module _ (x : Tokens W) (laws : IsLedger x balance) (here : env.this ≡ this)
      (outside : env.signed this ≡ false) where
    -- The bid comes in, and of the bid that it tops no more goes out than was held for it.
    bid_received :
        (a : Auction) (bidder : Address) (bid : ℤ)
        → (bidder == this) ≡ false
        → and_then
            (x.transfer a.payment_token bidder env.this bid s.world)
            (refunded x a.payment_token env.this a.highest_bidder a.current_bid)
          ≡ some s'.world
        → (t : Address)
        → balance s.world t this + (if a.payment_token == t then pos_part bid else 0)
          ≤ balance s'.world t this + held t (some a)
    bid_received a bidder bid apart paid t =
        elim (Option-cases (x.transfer a.payment_token bidder env.this bid s.world)) [
          | inl failed ↦ absurd (ground arith)
          | inr (w, first) ↦
              let (_, moved) = laws.moves a.payment_token bidder env.this bid s.world w first in
              let came : balance s.world t this + (if a.payment_token == t then pos_part bid else 0)
                  ≡ balance w t this =
                ground (arith, moved t this) in
              elim (Option-cases a.highest_bidder) [
                | inl open' ↦ ground arith
                | inr (prev, was) ↦
                    let second : x.transfer a.payment_token env.this prev a.current_bid w
                        ≡ some s'.world =
                      ground arith in
                    let went =
                      transfer_takes x balance laws a.payment_token env.this prev a.current_bid w
                        s'.world second t this in
                    ground arith
              ]
        ]

    pub place_bid-IsSolvent :
        (bidder : Address) (id : ℕ) (bid : ℤ)
        → place_bid env x bidder id bid s ≡ ok s'
        → IsSolvent balance this s'
    place_bid-IsSolvent bidder id bid e =
        let (a, found) = place_bid_found env s s' x bidder id bid e in
        let (_, signed, _, higher, _, _) = place_bid_guards env s s' x id a found bidder bid e in
        let (stored, active, offers, _, _, _, _) =
          place_bid_writes env s s' x id a found bidder bid e in
        let apart = signer_apart balance this s s' v env outside bidder signed in
        let came =
          bid_received a bidder bid apart (place_bid_pays env s s' x id a found bidder bid e) in
        record {
          own_offers = own_kept balance this s s' v offers;
          covered = λ t. raised t a found higher stored active (came t);
        }
      where
        raised :
            (t : Address) (a : Auction)
            → s.auction id ≡ some a
            → a.current_bid <ℤ bid
            → s'.auction
              ≡ update s.auction id
                  (some (record a { current_bid = bid; highest_bidder = some bidder }))
            → s'.active_auctions ≡ s.active_auctions
            → balance s.world t this + (if a.payment_token == t then pos_part bid else 0)
              ≤ balance s'.world t this + held t (some a)
            → escrow t s'.auction s'.active_auctions ≤ balance s'.world t this
        raised t a found higher stored active came = elim (Bool-cases (mem id s.active_auctions)) [
          | inl inside ↦
              let change : escrow t s'.auction s'.active_auctions + held t (s.auction id)
                  ≡ escrow t s.auction s.active_auctions
                    + (if a.payment_token == t then pos_part bid else 0) =
                rw (stored, active)
                  (escrow-update t s.auction id _ s.active_auctions ok'.auctions.once inside) in
              omega (arith, change, ap (held t) found, v.covered t, came)
          | inr outside' ↦
              let change : escrow t s'.auction s'.active_auctions
                  ≡ escrow t s.auction s.active_auctions =
                rw (stored, active) (escrow-apart t s.auction id _ s.active_auctions outside') in
              ground (arith, v.covered t)
        ]

    -- What a closed auction pays out is at most what was held for it.
    closing_pays :
        (a : Auction) (recipient : Address) (id : ℕ)
        → s.auction id ≡ some a
        → s.fee_recipient ≡ some recipient
        → end_auction env x id s ≡ ok s'
        → (t : Address) → balance s.world t this ≤ balance s'.world t this + held t (some a)
    closing_pays a recipient id found known e t = elim (Option-cases a.highest_bidder) [
      | inl open' ↦
          let same : s'.world ≡ s.world =
            end_auction_without_bids env s s' x id a found recipient known e open' in
          omega (arith, ap (λ w. balance w t this) same)
      | inr (winner, won) ↦
          let (fee, proceeds, split) =
            end_auction_split env s s' x id a found recipient known e winner won in
          let paid =
            end_auction_pays env s s' x id a found recipient known e winner fee proceeds won
              split in
          let exact =
            split_fee_parts (pos_part a.current_bid) (capped_fee s.marketplace_fee) fee proceeds
              (capped_fee-bound s.marketplace_fee)
              (subst (λ z. split_fee z (capped_fee s.marketplace_fee) ≡ ok (fee, proceeds))
                (bid_positive id a (subst (λ o. IsAuction id o) found (ok'.auction_ok id)))
                split) in
          let most =
            payments_take x balance laws a.payment_token env.this a.seller recipient proceeds fee
              s.world s'.world paid t this in
          ground arith
    ]

    pub end_auction-IsSolvent :
        (id : ℕ) → end_auction env x id s ≡ ok s' → IsSolvent balance this s'
    end_auction-IsSolvent id e =
        let (a, recipient, found, known) = end_auction_found env s s' x id e in
        let (_, _, going) = end_auction_guards env s s' x id a found recipient known e in
        let (stored, active, offers, _, _, _, _) =
          end_auction_writes env s s' x id a found recipient known e in
        let inside : mem id s.active_auctions ≡ true = ok'.auctions.exact id ∙ ground arith in
        record {
          own_offers = own_kept balance this s s' v offers;
          covered = λ t.
              let change : escrow t s'.auction s'.active_auctions + held t (s.auction id)
                  ≡ escrow t s.auction s.active_auctions =
                rw (stored, active)
                  (escrow-closed t s.auction id _ s.active_auctions ok'.auctions.once inside) in
              omega (
                arith,
                change,
                ap (held t) found,
                v.covered t,
                closing_pays a recipient id found known e t,
              );
        }
