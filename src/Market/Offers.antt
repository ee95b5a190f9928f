-- ===== src/Market/Offers.antt =====
-- The offers of contracts/commitment_marketplace/src/lib.rs.
pub mod Effects
use commitlabs_contracts.Prelude.{
  ℕ, Bool, true, false, not, Option, none, some, is_some, List, [], ◌∷◌, ◌++◌, ◌==◌, if◌then◌else◌,
  update, nat_key, ◌||◌, unwrap_or,
}
use commitlabs_contracts.Prelude.Int.{ℤ, pos, leb_ℤ}
use commitlabs_contracts.Shared.Outcome.{Result, ok, ◌>>=◌, ◌>>◌}
use commitlabs_contracts.Core.Types.{Address, Env}
use commitlabs_contracts.Market.Types.{
  Market, Listing, Offer, Auction, Tokens, fail_if, or_fail, invalid_offer_amount,
  cannot_buy_own_listing, offer_exists, offer_not_found, not_initialized,
}
use commitlabs_contracts.Market.Store.{
  split_fee_plain, require_auth, enter, leave, require_allowed_payment_token, remove_listing, pay,
}

abbrev pub listed_by : Option Listing → Address → Bool
listed_by none who = false
listed_by (some l) who = l.seller == who

abbrev pub auctioned_by : Option Auction → Address → Bool
auctioned_by none who = false
auctioned_by (some a) who = a.seller == who

-- `offers.iter().position(|o| o.offerer == offerer)` with `get`: the first offer of the account.
unfoldable pub find_offer : Address → List Offer → Option Offer
find_offer offerer [] = none
find_offer offerer (o ∷ offers) =
    let rest = find_offer offerer offers in if o.offerer == offerer then some o else rest

-- `offers.remove(offer_index)`
unfoldable pub remove_offer : Address → List Offer → List Offer
remove_offer offerer [] = []
remove_offer offerer (o ∷ offers) =
    let rest = remove_offer offerer offers in if o.offerer == offerer then offers else o ∷ rest

-- The offers key is removed with the last offer.
abbrev pub stored_offers : List Offer → Option (List Offer)
stored_offers [] = none
stored_offers (o ∷ offers) = some (o ∷ offers)

module _ {W : Type 0} (env : Env) where
  unfoldable pub make_offer :
      (offerer : Address) (token_id : ℕ) (amount : ℤ) (payment_token : Address)
      → Market W
      → Result (Market W)
  unfolding enter require_auth require_allowed_payment_token find_offer
  make_offer offerer token_id amount payment_token s = do
    entered ← enter s
    require_auth env offerer
    fail_if (leb_ℤ amount (pos 0)) invalid_offer_amount
    require_allowed_payment_token entered payment_token
    fail_if (listed_by (entered.listing token_id) offerer) cannot_buy_own_listing
    fail_if (auctioned_by (entered.auction token_id) offerer) cannot_buy_own_listing
    let offer : Offer = record {
      token_id = token_id;
      offerer = offerer;
      amount = amount;
      payment_token = payment_token;
      created_at = env.now;
    }
    let offers = unwrap_or (entered.offers token_id) []
    fail_if (is_some (find_offer offerer offers)) offer_exists
    ok (
        leave (record entered {
          offers = update entered.offers token_id (some (offers ++ (offer ∷ [])));
        }))

  -- `if has(Listing) { … }` removes nothing where there is none.
  unfoldable pub accept_offer :
      Tokens W
      → (seller : Address) (token_id : ℕ) (offerer : Address) → Market W
      → Result (Market W)
  unfolding enter require_auth require_allowed_payment_token remove_listing pay find_offer
  accept_offer x seller token_id offerer s = do
    entered ← enter s
    require_auth env seller
    fail_if (seller == offerer) cannot_buy_own_listing
    offers ← or_fail (entered.offers token_id) offer_not_found
    offer ← or_fail (find_offer offerer offers) offer_not_found
    fee_recipient ← or_fail entered.fee_recipient not_initialized
    require_allowed_payment_token entered offer.payment_token
    (marketplace_fee, seller_proceeds) ← split_fee_plain offer.amount entered.marketplace_fee
    let cleared = record entered { offers = update entered.offers token_id none }
    let delisted =
        if is_some (cleared.listing token_id) then remove_listing token_id cleared else cleared
    paid ←
        pay x offer.payment_token offerer seller fee_recipient seller_proceeds marketplace_fee
          delisted
    ok (leave paid)

  -- This entry point does not use the reentrancy flag.
  unfoldable pub cancel_offer : (offerer : Address) (token_id : ℕ) → Market W → Result (Market W)
  unfolding require_auth find_offer remove_offer
  cancel_offer offerer token_id s = do
    require_auth env offerer
    offers ← or_fail (s.offers token_id) offer_not_found
    offer ← or_fail (find_offer offerer offers) offer_not_found
    ok (record s {
      offers = update s.offers token_id (stored_offers (remove_offer offerer offers));
    })
