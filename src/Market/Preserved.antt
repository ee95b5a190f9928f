-- ===== src/Market/Preserved.antt =====
-- What a step of the marketplace that leaves parts of the storage alone keeps of its invariant.
pub mod Listings
pub mod Auctions
pub mod Offers
pub mod Setup
use mathlib.Core.Path.{subst}
use commitlabs_contracts.Prelude.{
  ℕ, ◌+◌, ◌≤◌, ◌<◌, ◌≡◌, refl, sym, ap, ◌∙◌, Bool, true, false, not, ◌&&◌, ◌||◌, Option, none, some,
  is_some, List, [], ◌∷◌, ◌++◌, arith, ◌==◌, if◌then◌else◌, update, mem, remove_first, nat_key,
  unwrap_or, Bool-cases, Option-cases, inl, inr,
}
use commitlabs_contracts.Prelude.Index.{
  Indexes, Indexes-at, Indexes-same, Indexes-add, Indexes-remove,
}
use commitlabs_contracts.Prelude.Int.{ℤ, pos, pos_part, neg_part, ◌≤ℤ◌, ◌<ℤ◌}
use commitlabs_contracts.Shared.Outcome.{Result, ok, panic, Result-cases, ◌>>=◌, ◌>>◌}
use commitlabs_contracts.Core.Types.{Address, Env}
use commitlabs_contracts.Market.Types.{Market, Listing, Offer, Auction, Tokens}
use commitlabs_contracts.Market.Store.{split_fee, split_fee_plain}
use commitlabs_contracts.Market.Listings.{list_nft, cancel_listing, buy_nft}
use commitlabs_contracts.Market.Listings.Effects.{
  list_nft_effect, cancel_listing_effect, buy_nft_writes, listed,
}
use commitlabs_contracts.Market.Auctions.{start_auction, place_bid, end_auction}
use commitlabs_contracts.Market.Auctions.Effects.{
  start_auction_effect, place_bid_guards, place_bid_writes, end_auction_writes, started,
}
use commitlabs_contracts.Market.Keeps.{KeepsSetup, KeepsTokens, KeepsListings, KeepsAuctions}
use commitlabs_contracts.Market.Invariant.{
  IsListing, IsAuction, IsBid, IsOffers, is_live, IsValid, allowed_started, listing_started,
  auction_started,
}
use commitlabs_contracts.Prelude.Index.{updated}

module _ {W : Type 0} (s s' : Market W) (v : IsValid s) where
  pub listings_kept :
      KeepsListings s s' → Indexes (λ id. is_some (s'.listing id)) s'.active_listings
  listings_kept (stored, active) =
      Indexes-at active (λ j. ap (λ f. is_some (f j)) stored) v.listings

  pub auctions_kept :
      KeepsAuctions s s' → Indexes (λ id. is_live (s'.auction id)) s'.active_auctions
  auctions_kept (stored, active) =
      Indexes-at active (λ j. ap (λ f. is_live (f j)) stored) v.auctions

  pub tokens_kept : KeepsTokens s s' → Indexes s'.allowed_payment_token s'.allowed_payment_tokens
  tokens_kept (flags, all) = Indexes-at all (λ j. ap (λ f. f j) flags) v.tokens

  pub listing_ok_kept : s'.listing ≡ s.listing → (id : ℕ) → IsListing id (s'.listing id)
  listing_ok_kept e id = subst (λ f. IsListing id (f id)) (sym e) (v.listing_ok id)

  pub auction_ok_kept : s'.auction ≡ s.auction → (id : ℕ) → IsAuction id (s'.auction id)
  auction_ok_kept e id = subst (λ f. IsAuction id (f id)) (sym e) (v.auction_ok id)

  pub offers_ok_kept : s'.offers ≡ s.offers → (id : ℕ) → IsOffers id (s'.offers id)
  offers_ok_kept e id = subst (λ f. IsOffers id (f id)) (sym e) (v.offers_ok id)

  -- A listing goes, with its place in the list of active ones.
  pub delisted :
      (id : ℕ)
      → s'.listing ≡ update s.listing id none
      → s'.active_listings ≡ remove_first id s.active_listings
      → Indexes (λ id. is_some (s'.listing id)) s'.active_listings
  delisted id stored active =
      Indexes-at active (λ j. refl)
        (Indexes-remove id (λ j. ap (λ f. is_some (f j)) stored ∙ ground arith) v.listings)

  pub delisted_ok :
      (id : ℕ) → s'.listing ≡ update s.listing id none → (j : ℕ) → IsListing j (s'.listing j)
  delisted_ok id stored j =
      subst (λ f. IsListing j (f j)) (sym stored)
        (updated IsListing s.listing id none v.listing_ok tt j)

  -- A step that leaves the setup alone and starts no list keeps an untouched marketplace so.
  pub still_untouched :
      s'.admin ≡ s.admin
      → is_some s.admin ≡ true
      → is_some s'.admin ≡ false
      → (s'.active_listings ≡ []) × (s'.active_auctions ≡ []) × (s'.allowed_payment_tokens ≡ [])
  still_untouched same set unset = absurd (ground arith)

  pub untouched_kept :
      s'.admin ≡ s.admin
      → s'.active_listings ≡ s.active_listings
      → s'.active_auctions ≡ s.active_auctions
      → s'.allowed_payment_tokens ≡ s.allowed_payment_tokens
      → is_some s'.admin ≡ false
      → (s'.active_listings ≡ []) × (s'.active_auctions ≡ []) × (s'.allowed_payment_tokens ≡ [])
  untouched_kept adm ls as' ts unset =
      let (l, a, t) = v.untouched (sym (ap is_some adm) ∙ unset) in (ls ∙ l, as' ∙ a, ts ∙ t)
