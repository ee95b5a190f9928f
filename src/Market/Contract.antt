-- ===== src/Market/Contract.antt =====
-- The entry points of contracts/commitment_marketplace/src/lib.rs that write, as calls, and runs.
use commitlabs_contracts.Prelude.{ℕ, false, none, List, [], ◌∷◌}
use commitlabs_contracts.Prelude.Int.{ℤ}
use commitlabs_contracts.Shared.Outcome.{Result, ok, panic}
use commitlabs_contracts.Core.Types.{Address, Env}
use commitlabs_contracts.Market.Types.{Market, Tokens}
use commitlabs_contracts.Market.Store
use commitlabs_contracts.Market.Listings
use commitlabs_contracts.Market.Offers
use commitlabs_contracts.Market.Auctions

pub data Call : Type 0 where
  initialize :
      (admin nft_contract : Address) (fee_basis_points : ℕ) (fee_recipient : Address) → Call
  update_fee : (fee_basis_points : ℕ) → Call
  add_payment_token remove_payment_token : (payment_token : Address) → Call
  list_nft : (seller : Address) (token_id : ℕ) (price : ℤ) (payment_token : Address) → Call
  cancel_listing : (seller : Address) (token_id : ℕ) → Call
  buy_nft : (buyer : Address) (token_id : ℕ) → Call
  make_offer : (offerer : Address) (token_id : ℕ) (amount : ℤ) (payment_token : Address) → Call
  accept_offer : (seller : Address) (token_id : ℕ) (offerer : Address) → Call
  cancel_offer : (offerer : Address) (token_id : ℕ) → Call
  start_auction :
      (seller : Address) (token_id : ℕ) (starting_price : ℤ) (duration_seconds : ℕ)
      (payment_token : Address)
      → Call
  place_bid : (bidder : Address) (token_id : ℕ) (bid_amount : ℤ) → Call
  end_auction : (token_id : ℕ) → Call

module _ {W : Type 0} where
  unfoldable pub invoke : Tokens W → Env → Call → Market W → Result (Market W)
  invoke x env (Call.initialize a n f r) s = Store.initialize env a n f r s
  invoke x env (Call.update_fee f) s = Store.update_fee env f s
  invoke x env (Call.add_payment_token t) s = Store.add_payment_token env t s
  invoke x env (Call.remove_payment_token t) s = Store.remove_payment_token env t s
  invoke x env (Call.list_nft w id p t) s = Listings.list_nft env w id p t s
  invoke x env (Call.cancel_listing w id) s = Listings.cancel_listing env w id s
  invoke x env (Call.buy_nft w id) s = Listings.buy_nft env x w id s
  invoke x env (Call.make_offer w id a t) s = Offers.make_offer env w id a t s
  invoke x env (Call.accept_offer w id o) s = Offers.accept_offer env x w id o s
  invoke x env (Call.cancel_offer o id) s = Offers.cancel_offer env o id s
  invoke x env (Call.start_auction w id p d t) s = Auctions.start_auction env w id p d t s
  invoke x env (Call.place_bid b id a) s = Auctions.place_bid env x b id a s
  invoke x env (Call.end_auction id) s = Auctions.end_auction env x id s

  -- A call that fails leaves the state as it was.
  abbrev pub after : Market W → Result (Market W) → Market W
  after s (ok s') = s'
  after s (panic p) = s

  unfoldable pub run : Tokens W → List (Env × Call) → Market W → Market W
  unfolding invoke
  run x [] s = s
  run x ((env, call) ∷ rest) s = run x rest (after s (invoke x env call s))

  -- The storage of a contract that was just deployed: every key is absent.
  abbrev pub deployed : W → Market W
  deployed w = record {
    admin = none;
    nft_contract = none;
    marketplace_fee = 0;
    fee_recipient = none;
    allowed_payment_token = λ _. false;
    allowed_payment_tokens = [];
    listing = λ _. none;
    active_listings = [];
    offers = λ _. none;
    auction = λ _. none;
    active_auctions = [];
    reentrancy_guard = false;
    world = w;
  }
