-- ===== src/Market/Tests.antt =====
-- A run of the marketplace, with token contracts that keep their balances in a table.
use commitlabs_contracts.Prelude.{
  ℕ, ◌+◌, ◌-◌, ◌*◌, ◌^◌, ◌≤◌, ◌<◌, ◌≡◌, refl, Bool, true, false, Option, none, some, is_some,
  unwrap_or, List, [], ◌∷◌, arith, ◌==◌, leb, if◌then◌else◌, mem, nat_key, update, remove_first,
}
use commitlabs_contracts.Prelude.Int.{pos, pos_part, ltb_ℤ, ◌*ℤ◌, ◌/ℤ◌, ◌-ℤ◌}
use commitlabs_contracts.Shared.Outcome.{Result, ok, panic, contract_error}
use commitlabs_contracts.Shared.Math
use commitlabs_contracts.Core.Types.{Address, Env}
use commitlabs_contracts.Market.Types.{Market, Listing, Offer, Auction, Tokens}
use commitlabs_contracts.Market.Store
use commitlabs_contracts.Market.Listings
use commitlabs_contracts.Market.Offers
use commitlabs_contracts.Market.Auctions
use commitlabs_contracts.Market.Contract.{Call, invoke, after, run, deployed}
use commitlabs_contracts.Market.Reachable.{run-IsValid}
use commitlabs_contracts.Market.Invariant.{IsValid}
use commitlabs_contracts.Market.Bidding.{Bids, invoke-Bids, run-ended}
use commitlabs_contracts.Market.Payments.{payments}
use commitlabs_contracts.Market.Trade.{
  buy_nft_lem, accept_offer_lem, end_auction_succeeds, paid, fee_of, settlement,
}
use commitlabs_contracts.Market.Solvency.{IsSolvent}
use commitlabs_contracts.Market.Solvency.Runs.{run-IsSolvent}
use commitlabs_contracts.Market.Escrow.{IsLedger, share, escrow}

-- The balance of each account in each token.
abbrev Table : Type 0
Table = (token who : Address) → ℕ

abbrev table : Tokens Table
table = record {
  transfer = λ token from to amount w.
      if ltb_ℤ amount (pos 0)
      then none
      else (if leb (pos_part amount) (w token from)
          then some (λ t who. w t who + share token to t who amount - share token from t who amount)
          else none);
}

table-IsLedger : IsLedger table (λ w t who. w t who)
table-IsLedger = record {
  moves = λ token from to amount w w' e. (ground arith, λ t who. ground arith);
}

abbrev is_ok : Result (Market Table) → Bool
is_ok (ok s) = true
is_ok (panic p) = false

is_ok-after : (s : Market Table) (r : Result (Market Table)) → is_ok r ≡ true → r ≡ ok (after s r)
is_ok-after s (ok t) h = refl
is_ok-after s (panic p) h = absurd (ground arith)

is_some-unwrap : (o : Option Table) (w : Table) → is_some o ≡ true → o ≡ some (unwrap_or o w)
is_some-unwrap none w h = absurd (ground arith)
is_some-unwrap (some v) w h = refl

-- Account 100 is the marketplace, 1 its admin, 2 the fee recipient, 3 a seller, 4 and 5 buyers.
abbrev at : ℕ → Address → Env
at t who = record { now = t; signed = λ a. a == who; this = 100 }

abbrev funds : Table
funds t who = if who == 4 then 1000 else if who == 5 then 1000 else 0

abbrev calls : List (Env × Call)
calls =
    (at 10 1, Call.initialize 1 50 250 2)
    ∷ (at 10 1, Call.add_payment_token 70)
    ∷ (at 20 3, Call.list_nft 3 8 (pos 400) 70)
    ∷ (at 20 3, Call.start_auction 3 9 (pos 100) 1000 70)
    ∷ (at 30 4, Call.place_bid 4 9 (pos 200))
    ∷ (at 40 5, Call.place_bid 5 9 (pos 300))
    ∷ (at 50 4, Call.make_offer 4 8 (pos 350) 70)
    ∷ []

abbrev market : Market Table
market = run table calls (deployed funds)

balances :
    (market.world 70 100 ≡ 300)
    × (market.world 70 4 ≡ 1000)
    × (market.world 70 5 ≡ 700)
    × (escrow 70 market.auction market.active_auctions ≡ 300)
unfolding run invoke Offers.make_offer Auctions.place_bid Auctions.start_auction Listings.list_nft
    Store.add_payment_token Store.initialize
balances = (refl, refl, refl, refl)

run-IsValid_example : IsValid market
run-IsValid_example = run-IsValid table calls funds

run-IsSolvent_example : IsSolvent (λ w t who. w t who) 100 market
run-IsSolvent_example =
    run-IsSolvent (λ w t who. w t who) 100 table table-IsLedger calls funds
      (
        refl,
        refl,
        (refl, refl, (refl, refl, (refl, refl, (refl, refl, (refl, refl, (refl, refl, tt)))))),
      )

-- The auction of token 9 and the listing of token 8.
abbrev auction_9 : Auction
auction_9 = record {
  token_id = 9;
  seller = 3;
  starting_price = pos 100;
  current_bid = pos 300;
  highest_bidder = some 5;
  payment_token = 70;
  started_at = 20;
  ends_at = 1020;
  ended = false;
}

abbrev listing_8 : Listing
listing_8 = record { token_id = 8; seller = 3; price = pos 400; payment_token = 70; listed_at = 20 }

abbrev offer_8 : Offer
offer_8 = record {
  token_id = 8;
  offerer = 4;
  amount = pos 350;
  payment_token = 70;
  created_at = 50;
}

stored :
    (market.auction 9 ≡ some auction_9)
    × (market.listing 8 ≡ some listing_8)
    × (market.offers 8 ≡ some (offer_8 ∷ []))
    × (market.fee_recipient ≡ some 2)
    × (market.nft_contract ≡ some 50)
    × (market.marketplace_fee ≡ 250)
    × (market.allowed_payment_token 70 ≡ true)
    × (market.reentrancy_guard ≡ false)
unfolding run invoke Offers.make_offer Auctions.place_bid Auctions.start_auction Listings.list_nft
    Store.add_payment_token Store.initialize
stored = (refl, refl, refl, refl, refl, refl, refl, refl)

small_fee : market.marketplace_fee ≤ 10000
unfolding run invoke Offers.make_offer Auctions.place_bid Auctions.start_auction Listings.list_nft
    Store.add_payment_token Store.initialize
small_fee = omega arith

-- At the end of the auction the bid of 300 pays 293 to the seller and 7 to the fee recipient.
abbrev closed_market : Market Table
closed_market = after market (invoke table (at 1020 1) (Call.end_auction 9) market)

it_closes : is_ok (invoke table (at 1020 1) (Call.end_auction 9) market) ≡ true
unfolding run invoke Offers.make_offer Auctions.place_bid Auctions.start_auction Listings.list_nft
    Store.add_payment_token Store.initialize Auctions.end_auction Auctions.settle_auction
    Store.split_fee Math.mul ◌*ℤ◌ Math.div ◌/ℤ◌ Math.sub ◌-ℤ◌
it_closes = refl

closes : invoke table (at 1020 1) (Call.end_auction 9) market ≡ ok closed_market
closes = is_ok-after market (invoke table (at 1020 1) (Call.end_auction 9) market) it_closes

ended_9 : closed_market.auction 9 ≡ some (record auction_9 { ended = true })
unfolding run invoke Offers.make_offer Auctions.place_bid Auctions.start_auction Listings.list_nft
    Store.add_payment_token Store.initialize Auctions.end_auction Auctions.settle_auction
    Store.split_fee Math.mul ◌*ℤ◌ Math.div ◌/ℤ◌ Math.sub ◌-ℤ◌
ended_9 = refl

paid_out :
    (closed_market.world 70 100 ≡ 0)
    × (closed_market.world 70 3 ≡ 293)
    × (closed_market.world 70 2 ≡ 7)
unfolding run invoke Offers.make_offer Auctions.place_bid Auctions.start_auction Listings.list_nft
    Store.add_payment_token Store.initialize Auctions.end_auction Auctions.settle_auction
    Store.split_fee Math.mul ◌*ℤ◌ Math.div ◌/ℤ◌ Math.sub ◌-ℤ◌
paid_out = (refl, refl, refl)

-- The seller cannot put the token up for auction again.
again :
    Auctions.start_auction (at 2000 3) 3 9 (pos 100) 1000 70 closed_market
    ≡ panic (contract_error 7)
unfolding run invoke Offers.make_offer Auctions.place_bid Auctions.start_auction Listings.list_nft
    Store.add_payment_token Store.initialize Auctions.end_auction Auctions.settle_auction
    Store.split_fee Math.mul ◌*ℤ◌ Math.div ◌/ℤ◌ Math.sub ◌-ℤ◌
again = refl

invoke-Bids_example : Bids (at 1020 1) (market.auction 9) (closed_market.auction 9)
invoke-Bids_example =
    invoke-Bids table (at 1020 1) (Call.end_auction 9) market closed_market 9 closes

run-ended_example :
    (run table ((at 2000 3, Call.start_auction 3 9 (pos 100) 1000 70) ∷ []) closed_market).auction 9
    ≡ some (record auction_9 { ended = true })
run-ended_example =
    run-ended table ((at 2000 3, Call.start_auction 3 9 (pos 100) 1000 70) ∷ []) closed_market 9
      (record auction_9 { ended = true }) ended_9 refl (omega arith, tt)

-- What closing the auction of token 9 pays.
abbrev paid_9 : Option Table
paid_9 =
    settlement (at 1020 1) table market 9 2 stored.7 stored.3 auction_9 stored.0 (omega arith) refl
      300 (some 5)

abbrev settled : Table
settled = unwrap_or paid_9 funds

it_settles : is_some paid_9 ≡ true
unfolding run invoke Offers.make_offer Auctions.place_bid Auctions.start_auction Listings.list_nft
    Store.add_payment_token Store.initialize Auctions.capped_fee
it_settles = refl

fits_9 : 300 * Auctions.capped_fee market.marketplace_fee < 2 ^ 127
unfolding run invoke Offers.make_offer Auctions.place_bid Auctions.start_auction Listings.list_nft
    Store.add_payment_token Store.initialize Auctions.capped_fee
fits_9 = omega arith

end_auction_succeeds_example :
    (s' : Market Table) × (Auctions.end_auction (at 1020 1) table 9 market ≡ ok s')
    × (s'.world ≡ settled)
    × (s'.auction 9 ≡ some (record auction_9 { ended = true }))
    × (mem 9 s'.active_auctions ≡ false)
end_auction_succeeds_example =
    end_auction_succeeds (at 1020 1) table market 9 2 stored.7 stored.3 auction_9 stored.0
      (omega arith) refl 300 settled (run-IsValid table calls funds) refl (λ bid. stored.6)
      (omega arith) fits_9 (is_some-unwrap paid_9 funds it_settles)

found_8 : Offers.find_offer 4 (offer_8 ∷ []) ≡ some offer_8
unfolding Offers.find_offer
found_8 = refl

-- Account 5 buys the listed token, and anyone can accept the offer for it.
fits_8 : 400 * market.marketplace_fee < 2 ^ 127
unfolding run invoke Offers.make_offer Auctions.place_bid Auctions.start_auction Listings.list_nft
    Store.add_payment_token Store.initialize
fits_8 = omega arith

buy_nft_lem_example :
    Listings.buy_nft (at 60 5) table 5 8 market
    ≡ paid
        (payments table 70 5 3 2
          (pos (400 - fee_of 400 market.marketplace_fee))
          (pos (fee_of 400 market.marketplace_fee))
          market.world)
        (λ w. record market {
          listing = update market.listing 8 none;
          active_listings = remove_first 8 market.active_listings;
          world = w;
        })
buy_nft_lem_example =
    buy_nft_lem (at 60 5) table market 8 2 stored.7 stored.3 5 50 listing_8 400 stored.4 stored.1
      refl refl refl stored.6 small_fee (omega arith) fits_8

accept_fits : 350 * market.marketplace_fee < 2 ^ 127
unfolding run invoke Offers.make_offer Auctions.place_bid Auctions.start_auction Listings.list_nft
    Store.add_payment_token Store.initialize
accept_fits = omega arith

accept_offer_lem_example :
    Offers.accept_offer (at 60 6) table 6 8 4 market
    ≡ paid
        (payments table 70 4 6 2
          (pos (350 - fee_of 350 market.marketplace_fee))
          (pos (fee_of 350 market.marketplace_fee))
          market.world)
        (λ w. record market {
          offers = update market.offers 8 none;
          listing =
              if is_some (market.listing 8) then update market.listing 8 none else market.listing;
          active_listings =
              if is_some (market.listing 8)
              then remove_first 8 market.active_listings
              else market.active_listings;
          world = w;
        })
accept_offer_lem_example =
    accept_offer_lem (at 60 6) table market 8 2 stored.7 stored.3 6 4 (offer_8 ∷ []) offer_8 350
      stored.2 found_8 refl refl refl stored.6 small_fee (omega arith) accept_fits
