-- ===== src/Market/Auctions/Effects.antt =====
-- What the auction operations require and change when they succeed.
use commitlabs_contracts.Prelude.{
  ℕ, ◌+◌, ◌^◌, ◌≤◌, ◌<◌, ◌≡◌, true, false, Option, none, some, [], ◌∷◌, ◌++◌, arith, ◌==◌, update,
  remove_first, nat_key, inl, inr,
}
use commitlabs_contracts.Prelude.Int.{ℤ, pos, ◌≤ℤ◌, ◌<ℤ◌}
use commitlabs_contracts.Shared.Outcome.{ok, Result-cases}
use commitlabs_contracts.Core.Types.{Address, Env}
use commitlabs_contracts.Market.Types.{Market, Auction, Tokens}
use commitlabs_contracts.Market.Store.{split_fee}
use commitlabs_contracts.Market.Auctions.{
  capped_fee, settle_auction, start_auction, place_bid, end_auction,
}
use commitlabs_contracts.Market.Payments.{payments, and_then}
use commitlabs_contracts.Market.Keeps.{KeepsSetup, KeepsTokens, KeepsListings}

pub capped_fee-bound : (bps : ℕ) → capped_fee bps ≤ 10000
unfolding capped_fee
capped_fee-bound bps = ground arith

-- The refund of a bid that was topped.
abbrev pub refunded :
    {W : Type 0} → Tokens W → (token this : Address) → Option Address → ℤ → W → Option W
refunded x token this none bid w = some w
refunded x token this (some bidder) bid w = x.transfer token this bidder bid w

module _ {W : Type 0} (x : Tokens W) (this recipient : Address) (a : Auction)
    (s s' : Market W) where
  settle_auction_keeps :
      settle_auction x this recipient a a.highest_bidder s ≡ ok s'
      → (s'.auction ≡ s.auction)
        × (s'.active_auctions ≡ s.active_auctions)
        × (s'.offers ≡ s.offers)
        × KeepsListings s s'
        × KeepsTokens s s'
        × KeepsSetup s s'
  unfolding settle_auction
  settle_auction_keeps e =
      elim (Result-cases (split_fee a.current_bid (capped_fee s.marketplace_fee))) [
        | inl ((fee, proceeds), split) ↦ ground arith
        | inr (p, failed) ↦ ground arith
      ]

  settle_auction_pays :
      (winner : Address) (fee proceeds : ℤ)
      → a.highest_bidder ≡ some winner
      → split_fee a.current_bid (capped_fee s.marketplace_fee) ≡ ok (fee, proceeds)
      → settle_auction x this recipient a a.highest_bidder s ≡ ok s'
      → payments x a.payment_token this a.seller recipient proceeds fee s.world ≡ some s'.world
  unfolding settle_auction
  settle_auction_pays winner fee proceeds won split e = ground arith

module _ {W : Type 0} (env : Env) (s s' : Market W) where
  abbrev pub started :
      (seller : Address) (token_id : ℕ) (price : ℤ) (duration : ℕ) (token : Address) → Auction
  started seller token_id price duration token = record {
    token_id = token_id;
    seller = seller;
    starting_price = price;
    current_bid = price;
    highest_bidder = none;
    payment_token = token;
    started_at = env.now;
    ends_at = env.now + duration;
    ended = false;
  }

  pub start_auction_effect :
      (seller : Address) (id : ℕ) (price : ℤ) (duration : ℕ) (token : Address)
      → start_auction env seller id price duration token s ≡ ok s'
      → (s.reentrancy_guard ≡ false)
        × (env.signed seller ≡ true)
        × (pos 1 ≤ℤ price)
        × (1 ≤ duration)
        × (env.now + duration < 2 ^ 64)
        × (s.allowed_payment_token token ≡ true)
        × (s.auction id ≡ none)
        × (s'.auction ≡ update s.auction id (some (started seller id price duration token)))
        × (s'.active_auctions ≡ s.active_auctions ++ (id ∷ []))
        × (s'.offers ≡ s.offers)
        × (s'.reentrancy_guard ≡ false)
        × KeepsListings s s'
        × KeepsTokens s s'
        × KeepsSetup s s'
        × (s'.world ≡ s.world)
  unfolding start_auction
  start_auction_effect seller id price duration token e = ground arith

  module _ (x : Tokens W) (id : ℕ) (a : Auction) (found : s.auction id ≡ some a) where
    module _ (bidder : Address) (bid : ℤ) (e : place_bid env x bidder id bid s ≡ ok s') where
      pub place_bid_guards :
          (s.reentrancy_guard ≡ false)
          × (env.signed bidder ≡ true)
          × (env.now < a.ends_at)
          × (a.current_bid <ℤ bid)
          × ((a.seller == bidder) ≡ false)
          × (s.allowed_payment_token a.payment_token ≡ true)
      unfolding place_bid
      place_bid_guards = ground arith

      pub place_bid_writes :
          (s'.auction
            ≡ update s.auction id
                (some (record a { current_bid = bid; highest_bidder = some bidder })))
          × (s'.active_auctions ≡ s.active_auctions)
          × (s'.offers ≡ s.offers)
          × (s'.reentrancy_guard ≡ false)
          × KeepsListings s s'
          × KeepsTokens s s'
          × KeepsSetup s s'
      unfolding place_bid
      place_bid_writes = ground arith

      pub place_bid_pays :
          and_then
            (x.transfer a.payment_token bidder env.this bid s.world)
            (refunded x a.payment_token env.this a.highest_bidder a.current_bid)
          ≡ some s'.world
      unfolding place_bid
      place_bid_pays = ground arith

    -- The state in which an ending auction is settled.
    abbrev closed : Market W
    closed = record s {
      reentrancy_guard = true;
      auction = update s.auction id (some (record a { ended = true }));
      active_auctions = remove_first id s.active_auctions;
    }

    module _ (recipient : Address) (known : s.fee_recipient ≡ some recipient)
        (e : end_auction env x id s ≡ ok s') where
      pub end_auction_guards :
          (s.reentrancy_guard ≡ false) × (a.ends_at ≤ env.now) × (a.ended ≡ false)
      unfolding end_auction
      end_auction_guards = ground arith

      end_auction_settles :
          (t : Market W) × (settle_auction x env.this recipient a a.highest_bidder closed ≡ ok t)
          × (s' ≡ record t { reentrancy_guard = false })
      unfolding end_auction
      end_auction_settles =
          elim (Result-cases (settle_auction x env.this recipient a a.highest_bidder closed)) [
            | inl (t, settled) ↦ (t, settled, ground arith)
            | inr (p, failed) ↦ absurd (ground arith)
          ]

      pub end_auction_writes :
          (s'.auction ≡ update s.auction id (some (record a { ended = true })))
          × (s'.active_auctions ≡ remove_first id s.active_auctions)
          × (s'.offers ≡ s.offers)
          × (s'.reentrancy_guard ≡ false)
          × KeepsListings s s'
          × KeepsTokens s s'
          × KeepsSetup s s'
      end_auction_writes =
          let (t, settled, last) = end_auction_settles in
          let kept = settle_auction_keeps x env.this recipient a closed t settled in ground arith

      pub end_auction_without_bids : a.highest_bidder ≡ none → s'.world ≡ s.world
      unfolding settle_auction
      end_auction_without_bids open' = let (t, settled, last) = end_auction_settles in ground arith

      pub end_auction_pays :
          (winner : Address) (fee proceeds : ℤ)
          → a.highest_bidder ≡ some winner
          → split_fee a.current_bid (capped_fee s.marketplace_fee) ≡ ok (fee, proceeds)
          → payments x a.payment_token env.this a.seller recipient proceeds fee s.world
            ≡ some s'.world
      end_auction_pays winner fee proceeds won split =
          let (t, settled, last) = end_auction_settles in
          let paid =
            settle_auction_pays x env.this recipient a closed t winner fee proceeds won split
              settled in
          ground arith

      pub end_auction_split :
          (winner : Address)
          → a.highest_bidder ≡ some winner
          → (fee : ℤ) × (proceeds : ℤ) × (split_fee a.current_bid (capped_fee s.marketplace_fee)
              ≡ ok (fee, proceeds))
      unfolding settle_auction
      end_auction_split winner won =
          elim (Result-cases (split_fee a.current_bid (capped_fee s.marketplace_fee))) [
            | inl ((fee, proceeds), split) ↦ (fee, proceeds, split)
            | inr (p, failed) ↦
                let (t, settled, last) = end_auction_settles in absurd (ground arith)
          ]
