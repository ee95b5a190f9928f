-- ===== src/Market/Views.antt =====
-- The lists that the marketplace shows are what it stores.
use mathlib.Core.Path.{subst}
use commitlabs_contracts.Prelude.{
  ℕ, ◌≡◌, true, some, map, arith, mem, nat_key, Option-cases, inl, inr,
}
use commitlabs_contracts.Market.Types.{Market, Listing, Auction}
use commitlabs_contracts.Shared.Collect.{collect_each}
use commitlabs_contracts.Market.Listings.{get_all_listings}
use commitlabs_contracts.Market.Auctions.{get_all_auctions}
use commitlabs_contracts.Market.Invariant.{IsValid, IsListing, IsAuction}

module _ {W : Type 0} (s : Market W) (v : IsValid s) where
  -- In a valid marketplace `get_all_listings` shows each active listing, in the order of the list, under
  -- its own number; and `get_all_auctions` each auction that has not ended.
  pub get_all_lem :
      (map (λ l. l.token_id) (get_all_listings s) ≡ s.active_listings)
      × (map (λ a. a.token_id) (get_all_auctions s) ≡ s.active_auctions)
  unfolding get_all_listings get_all_auctions
  get_all_lem = (
    collect_each s.listing (λ l. l.token_id) s.active_listings a_listing,
    collect_each s.auction (λ a. a.token_id) s.active_auctions an_auction,
  )
    where
      a_listing :
          (j : ℕ)
          → mem j s.active_listings ≡ true
          → (l : Listing) × (s.listing j ≡ some l) × (l.token_id ≡ j)
      a_listing j there = elim (Option-cases (s.listing j)) [
        | inl absent ↦ absurd (ground (arith, v.listings.exact j))
        | inr (l, found) ↦
            let own : IsListing j (some l) = subst (λ o. IsListing j o) found (v.listing_ok j) in
            (l, found, own.0)
      ]

      an_auction :
          (j : ℕ)
          → mem j s.active_auctions ≡ true
          → (a : Auction) × (s.auction j ≡ some a) × (a.token_id ≡ j)
      an_auction j there = elim (Option-cases (s.auction j)) [
        | inl absent ↦ absurd (ground (arith, v.auctions.exact j))
        | inr (a, found) ↦
            let own : IsAuction j (some a) = subst (λ o. IsAuction j o) found (v.auction_ok j) in
            (a, found, own.0)
      ]
