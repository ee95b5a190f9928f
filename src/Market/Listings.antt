-- ===== src/Market/Listings.antt =====
-- The listing operations of contracts/commitment_marketplace/src/lib.rs.
pub mod Effects
use commitlabs_contracts.Prelude.{
  ℕ, Bool, true, false, Option, none, some, is_some, List, [], ◌∷◌, ◌++◌, ◌==◌, if◌then◌else◌,
  update, nat_key,
}
use commitlabs_contracts.Prelude.Int.{ℤ, pos, leb_ℤ}
use commitlabs_contracts.Shared.Outcome.{Result, ok, ◌>>=◌, ◌>>◌}
use commitlabs_contracts.Shared.Collect.{collect}
use commitlabs_contracts.Core.Types.{Address, Env}
use commitlabs_contracts.Market.Types.{
  Market, Listing, Tokens, fail_if, or_fail, invalid_price, listing_exists, not_initialized,
  listing_not_found, not_seller, cannot_buy_own_listing,
}
use commitlabs_contracts.Market.Store.{
  split_fee, require_auth, enter, leave, require_allowed_payment_token, remove_listing, pay,
}
use commitlabs_contracts.Prelude.{not}

module _ {W : Type 0} (env : Env) where
  unfoldable pub list_nft :
      (seller : Address) (token_id : ℕ) (price : ℤ) (payment_token : Address)
      → Market W
      → Result (Market W)
  unfolding enter require_auth require_allowed_payment_token
  list_nft seller token_id price payment_token s = do
    entered ← enter s
    require_auth env seller
    fail_if (leb_ℤ price (pos 0)) invalid_price
    require_allowed_payment_token entered payment_token
    fail_if (is_some (entered.listing token_id)) listing_exists
    nft_contract ← or_fail entered.nft_contract not_initialized
    let listed : Listing = record {
      token_id = token_id;
      seller = seller;
      price = price;
      payment_token = payment_token;
      listed_at = env.now;
    }
    ok (
        leave (record entered {
          listing = update entered.listing token_id (some listed);
          active_listings = entered.active_listings ++ (token_id ∷ []);
        }))

  unfoldable pub cancel_listing : (seller : Address) (token_id : ℕ) → Market W → Result (Market W)
  unfolding enter require_auth remove_listing
  cancel_listing seller token_id s = do
    entered ← enter s
    require_auth env seller
    listing ← or_fail (entered.listing token_id) listing_not_found
    fail_if (not (listing.seller == seller)) not_seller
    ok (leave (remove_listing token_id entered))

  unfoldable pub buy_nft :
      Tokens W → (buyer : Address) (token_id : ℕ) → Market W → Result (Market W)
  unfolding enter require_auth require_allowed_payment_token remove_listing pay
  buy_nft x buyer token_id s = do
    entered ← enter s
    require_auth env buyer
    listing ← or_fail (entered.listing token_id) listing_not_found
    fail_if (listing.seller == buyer) cannot_buy_own_listing
    require_allowed_payment_token entered listing.payment_token
    fee_recipient ← or_fail entered.fee_recipient not_initialized
    nft_contract ← or_fail entered.nft_contract not_initialized
    (marketplace_fee, seller_proceeds) ← split_fee listing.price entered.marketplace_fee
    paid ←
        pay x listing.payment_token buyer listing.seller fee_recipient seller_proceeds
          marketplace_fee (remove_listing token_id entered)
    ok (leave paid)

unfoldable pub get_all_listings : {W : Type 0} → Market W → List Listing
unfolding collect
get_all_listings s = collect s.listing s.active_listings
