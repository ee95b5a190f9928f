-- ===== src/Market/Found.antt =====
-- What a successful call of the marketplace found in the storage.
use commitlabs_contracts.Prelude.{ℕ, ◌≡◌, some, List, arith, nat_key, Option-cases, inl, inr}
use commitlabs_contracts.Prelude.Int.{ℤ}
use commitlabs_contracts.Shared.Outcome.{ok, Result-cases}
use commitlabs_contracts.Core.Types.{Address, Env}
use commitlabs_contracts.Market.Types.{Market, Listing, Offer, Auction, Tokens}
use commitlabs_contracts.Market.Store.{split_fee, split_fee_plain}
use commitlabs_contracts.Market.Listings.{cancel_listing, buy_nft}
use commitlabs_contracts.Market.Offers.{find_offer, accept_offer, cancel_offer}
use commitlabs_contracts.Market.Auctions.{place_bid, end_auction}

module _ {W : Type 0} (env : Env) (s s' : Market W) where
  pub cancel_listing_found :
      (seller : Address) (id : ℕ)
      → cancel_listing env seller id s ≡ ok s'
      → (l : Listing) × (s.listing id ≡ some l)
  unfolding cancel_listing
  cancel_listing_found seller id e = elim (Option-cases (s.listing id)) [
    | inl absent ↦ absurd (ground arith)
    | inr found ↦ found
  ]

  pub cancel_offer_found :
      (offerer : Address) (id : ℕ)
      → cancel_offer env offerer id s ≡ ok s'
      → (all : List Offer) × (o : Offer) × (s.offers id ≡ some all)
        × (find_offer offerer all ≡ some o)
  unfolding cancel_offer
  cancel_offer_found offerer id e = elim (Option-cases (s.offers id)) [
    | inl absent ↦ absurd (ground arith)
    | inr (all, found) ↦ elim (Option-cases (find_offer offerer all)) [
      | inl missing ↦ absurd (ground arith)
      | inr (o, there) ↦ (all, o, found, there)
    ]
  ]

  pub buy_nft_found :
      (x : Tokens W) (buyer : Address) (id : ℕ)
      → buy_nft env x buyer id s ≡ ok s'
      → (l : Listing) × (recipient : Address) × (fee : ℤ) × (proceeds : ℤ) × (s.listing id ≡ some l)
        × (s.fee_recipient ≡ some recipient)
        × (split_fee l.price s.marketplace_fee ≡ ok (fee, proceeds))
  unfolding buy_nft
  buy_nft_found x buyer id e = elim (Option-cases (s.listing id)) [
    | inl absent ↦ absurd (ground arith)
    | inr (l, found) ↦ elim (Option-cases s.fee_recipient) [
      | inl unknown ↦ absurd (ground arith)
      | inr (recipient, known) ↦ elim (Result-cases (split_fee l.price s.marketplace_fee)) [
        | inr (p, failed) ↦ absurd (ground arith)
        | inl ((fee, proceeds), split) ↦ (l, recipient, fee, proceeds, found, known, split)
      ]
    ]
  ]

  pub accept_offer_found :
      (x : Tokens W) (seller : Address) (id : ℕ) (offerer : Address)
      → accept_offer env x seller id offerer s ≡ ok s'
      → (all : List Offer) × (o : Offer) × (recipient : Address) × (fee : ℤ) × (proceeds : ℤ)
        × (s.offers id ≡ some all)
        × (find_offer offerer all ≡ some o)
        × (s.fee_recipient ≡ some recipient)
        × (split_fee_plain o.amount s.marketplace_fee ≡ ok (fee, proceeds))
  unfolding accept_offer
  accept_offer_found x seller id offerer e = elim (Option-cases (s.offers id)) [
    | inl absent ↦ absurd (ground arith)
    | inr (all, found) ↦ elim (Option-cases (find_offer offerer all)) [
      | inl missing ↦ absurd (ground arith)
      | inr (o, there) ↦ elim (Option-cases s.fee_recipient) [
        | inl unknown ↦ absurd (ground arith)
        | inr (recipient, known) ↦
            elim (Result-cases (split_fee_plain o.amount s.marketplace_fee)) [
              | inr (p, failed) ↦ absurd (ground arith)
              | inl ((fee, proceeds), split) ↦
                  (all, o, recipient, fee, proceeds, found, there, known, split)
            ]
      ]
    ]
  ]

  pub place_bid_found :
      (x : Tokens W) (bidder : Address) (id : ℕ) (bid : ℤ)
      → place_bid env x bidder id bid s ≡ ok s'
      → (a : Auction) × (s.auction id ≡ some a)
  unfolding place_bid
  place_bid_found x bidder id bid e = elim (Option-cases (s.auction id)) [
    | inl absent ↦ absurd (ground arith)
    | inr found ↦ found
  ]

  pub end_auction_found :
      (x : Tokens W) (id : ℕ)
      → end_auction env x id s ≡ ok s'
      → (a : Auction) × (recipient : Address) × (s.auction id ≡ some a)
        × (s.fee_recipient ≡ some recipient)
  unfolding end_auction
  end_auction_found x id e = elim (Option-cases (s.auction id)) [
    | inl absent ↦ absurd (ground arith)
    | inr (a, found) ↦ elim (Option-cases s.fee_recipient) [
      | inl unknown ↦ absurd (ground arith)
      | inr (recipient, known) ↦ (a, recipient, found, known)
    ]
  ]
