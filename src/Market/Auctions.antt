-- ===== src/Market/Auctions.antt =====
-- The auctions of contracts/commitment_marketplace/src/lib.rs.
pub mod Effects
use commitlabs_contracts.Prelude.{
  ℕ, ◌+◌, Bool, true, false, not, Option, none, some, is_some, List, [], ◌∷◌, ◌++◌, ◌==◌, ltb, leb,
  if◌then◌else◌, update, nat_key, remove_first,
}
use commitlabs_contracts.Prelude.Int.{ℤ, pos, leb_ℤ}
use commitlabs_contracts.Shared.Outcome.{Result, ok, ◌>>=◌, ◌>>◌}
use commitlabs_contracts.Shared.Time.{checked_u64}
use commitlabs_contracts.Core.Types.{Address, Env}
use commitlabs_contracts.Market.Types.{
  Market, Auction, Tokens, fail_if, or_fail, invalid_price, invalid_duration, listing_exists,
  auction_not_found, auction_ended, auction_not_ended, bid_too_low, cannot_buy_own_listing,
  not_initialized,
}
use commitlabs_contracts.Market.Store.{
  split_fee, require_auth, enter, leave, require_allowed_payment_token, transferred, pay,
}
use commitlabs_contracts.Shared.Collect.{collect}

-- The rate of an ending auction: the configured one, at most 10000 basis points.
unfoldable pub capped_fee : ℕ → ℕ
capped_fee fee_basis_points = if ltb 10000 fee_basis_points then 10000 else fee_basis_points

module _ {W : Type 0} where
  -- `if let Some(prev_bidder) = previous_bidder { … }`
  abbrev pub refund :
      Tokens W → (payment_token this : Address) → Option Address → ℤ → Market W → Result (Market W)
  refund x payment_token this none previous_bid s = ok s
  refund x payment_token this (some bidder) previous_bid s =
      transferred (x.transfer payment_token this bidder previous_bid s.world) s

  -- `if auction.highest_bidder.is_some() { … }`
  unfoldable pub require_allowed_if_bid : Market W → Auction → Result (Unit {0})
  unfolding require_allowed_payment_token
  require_allowed_if_bid s auction =
      if is_some auction.highest_bidder
      then require_allowed_payment_token s auction.payment_token
      else ok tt

  -- `if let Some(winner) = auction.highest_bidder { … }`
  unfoldable pub settle_auction :
      Tokens W
      → (this fee_recipient : Address) → Auction
      → Option Address
      → Market W
      → Result (Market W)
  unfolding capped_fee pay
  settle_auction x this fee_recipient auction none s = ok s
  settle_auction x this fee_recipient auction (some winner) s = do
    (marketplace_fee, seller_proceeds) ←
        split_fee auction.current_bid (capped_fee s.marketplace_fee)
    pay x auction.payment_token this auction.seller fee_recipient seller_proceeds marketplace_fee s

module _ {W : Type 0} (env : Env) where
  unfoldable pub start_auction :
      (seller : Address) (token_id : ℕ) (starting_price : ℤ) (duration_seconds : ℕ)
      (payment_token : Address)
      → Market W
      → Result (Market W)
  unfolding enter require_auth require_allowed_payment_token
  start_auction seller token_id starting_price duration_seconds payment_token s = do
    entered ← enter s
    require_auth env seller
    fail_if (leb_ℤ starting_price (pos 0)) invalid_price
    fail_if (duration_seconds == 0) invalid_duration
    require_allowed_payment_token entered payment_token
    fail_if (is_some (entered.auction token_id)) listing_exists
    ends_at ← or_fail (checked_u64 (env.now + duration_seconds)) invalid_duration
    let auction : Auction = record {
      token_id = token_id;
      seller = seller;
      starting_price = starting_price;
      current_bid = starting_price;
      highest_bidder = none;
      payment_token = payment_token;
      started_at = env.now;
      ends_at = ends_at;
      ended = false;
    }
    ok (
        leave (record entered {
          auction = update entered.auction token_id (some auction);
          active_auctions = entered.active_auctions ++ (token_id ∷ []);
        }))

  unfoldable pub place_bid :
      Tokens W → (bidder : Address) (token_id : ℕ) (bid_amount : ℤ) → Market W → Result (Market W)
  unfolding enter require_auth require_allowed_payment_token
  place_bid x bidder token_id bid_amount s = do
    entered ← enter s
    require_auth env bidder
    auction ← or_fail (entered.auction token_id) auction_not_found
    fail_if (leb auction.ends_at env.now) auction_ended
    fail_if (leb_ℤ bid_amount auction.current_bid) bid_too_low
    fail_if (auction.seller == bidder) cannot_buy_own_listing
    require_allowed_payment_token entered auction.payment_token
    let raised = record auction { current_bid = bid_amount; highest_bidder = some bidder }
    let recorded = record entered { auction = update entered.auction token_id (some raised) }
    escrowed ←
        transferred (x.transfer auction.payment_token bidder env.this bid_amount recorded.world)
          recorded
    refunded ←
        refund x auction.payment_token env.this auction.highest_bidder auction.current_bid escrowed
    ok (leave refunded)

  unfoldable pub end_auction : Tokens W → (token_id : ℕ) → Market W → Result (Market W)
  unfolding enter require_allowed_if_bid settle_auction
  end_auction x token_id s = do
    entered ← enter s
    auction ← or_fail (entered.auction token_id) auction_not_found
    fail_if (ltb env.now auction.ends_at) auction_not_ended
    fail_if auction.ended auction_ended
    fee_recipient ← or_fail entered.fee_recipient not_initialized
    require_allowed_if_bid entered auction
    let closed = record entered {
      auction = update entered.auction token_id (some (record auction { ended = true }));
      active_auctions = remove_first token_id entered.active_auctions;
    }
    settled ← settle_auction x env.this fee_recipient auction auction.highest_bidder closed
    ok (leave settled)

unfoldable pub get_all_auctions : {W : Type 0} → Market W → List Auction
unfolding collect
get_all_auctions s = collect s.auction s.active_auctions
