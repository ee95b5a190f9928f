-- ===== src/Market/Listings/Effects.antt =====
-- What the listing operations require and change when they succeed.
use commitlabs_contracts.Prelude.{
  ℕ, ◌≡◌, true, false, none, some, [], ◌∷◌, ◌++◌, arith, ◌==◌, update, remove_first, nat_key,
}
use commitlabs_contracts.Prelude.Int.{ℤ, pos, ◌≤ℤ◌}
use commitlabs_contracts.Shared.Outcome.{ok}
use commitlabs_contracts.Core.Types.{Address, Env}
use commitlabs_contracts.Market.Types.{Market, Listing, Tokens}
use commitlabs_contracts.Market.Store.{split_fee}
use commitlabs_contracts.Market.Listings.{list_nft, cancel_listing, buy_nft}
use commitlabs_contracts.Market.Payments.{payments}
use commitlabs_contracts.Market.Keeps.{KeepsSetup, KeepsTokens, KeepsAuctions}

module _ {W : Type 0} (env : Env) (s s' : Market W) where
  abbrev pub listed :
      (seller : Address) (token_id : ℕ) (price : ℤ) (payment_token : Address) → Listing
  listed seller token_id price payment_token = record {
    token_id = token_id;
    seller = seller;
    price = price;
    payment_token = payment_token;
    listed_at = env.now;
  }

  pub list_nft_effect :
      (seller : Address) (id : ℕ) (price : ℤ) (token : Address)
      → list_nft env seller id price token s ≡ ok s'
      → (s.reentrancy_guard ≡ false)
        × (env.signed seller ≡ true)
        × (pos 1 ≤ℤ price)
        × (s.allowed_payment_token token ≡ true)
        × (s.listing id ≡ none)
        × (s'.listing ≡ update s.listing id (some (listed seller id price token)))
        × (s'.active_listings ≡ s.active_listings ++ (id ∷ []))
        × (s'.offers ≡ s.offers)
        × (s'.reentrancy_guard ≡ false)
        × KeepsAuctions s s'
        × KeepsTokens s s'
        × KeepsSetup s s'
        × (s'.world ≡ s.world)
  unfolding list_nft
  list_nft_effect seller id price token e = ground arith

  module _ (id : ℕ) (l : Listing) (found : s.listing id ≡ some l) where
    pub cancel_listing_effect :
        (seller : Address)
        → cancel_listing env seller id s ≡ ok s'
        → (env.signed seller ≡ true)
          × (l.seller ≡ seller)
          × (s'.listing ≡ update s.listing id none)
          × (s'.active_listings ≡ remove_first id s.active_listings)
          × (s'.offers ≡ s.offers)
          × (s'.reentrancy_guard ≡ false)
          × KeepsAuctions s s'
          × KeepsTokens s s'
          × KeepsSetup s s'
          × (s'.world ≡ s.world)
    unfolding cancel_listing
    cancel_listing_effect seller e = ground arith

    module _ (x : Tokens W) (buyer recipient : Address) (fee proceeds : ℤ)
        (known : s.fee_recipient ≡ some recipient)
        (split : split_fee l.price s.marketplace_fee ≡ ok (fee, proceeds))
        (e : buy_nft env x buyer id s ≡ ok s') where
      pub buy_nft_writes :
          (s'.listing ≡ update s.listing id none)
          × (s'.active_listings ≡ remove_first id s.active_listings)
          × (s'.offers ≡ s.offers)
          × (s'.reentrancy_guard ≡ false)
          × KeepsAuctions s s'
          × KeepsTokens s s'
          × KeepsSetup s s'
      unfolding buy_nft
      buy_nft_writes = ground arith

      pub buy_nft_pays :
          (s.reentrancy_guard ≡ false)
          × (env.signed buyer ≡ true)
          × ((l.seller == buyer) ≡ false)
          × (s.allowed_payment_token l.payment_token ≡ true)
          × (payments x l.payment_token buyer l.seller recipient proceeds fee s.world
              ≡ some s'.world)
      unfolding buy_nft
      buy_nft_pays = ground arith
