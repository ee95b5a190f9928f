-- ===== src/Market/Types.antt =====
-- The data types of contracts/commitment_marketplace/src/lib.rs, its storage, and the tokens it moves.
use commitlabs_contracts.Prelude.{ℕ, Bool, Option, List}
use commitlabs_contracts.Prelude.Int.{ℤ}
use commitlabs_contracts.Shared.Outcome.{Result, reject_if, or_panic, contract_error}
use commitlabs_contracts.Core.Types.{Address}

pub data MarketplaceError : Type 0 where
  not_initialized already_initialized listing_not_found not_seller : MarketplaceError
  nft_not_active invalid_price listing_exists cannot_buy_own_listing : MarketplaceError
  insufficient_payment nft_contract_error offer_not_found invalid_offer_amount : MarketplaceError
  offer_exists not_offer_maker auction_not_found auction_ended auction_not_ended : MarketplaceError
  bid_too_low invalid_duration reentrancy_detected transfer_failed : MarketplaceError
  payment_token_not_allowed : MarketplaceError

abbrev pub error_code : MarketplaceError → ℕ
error_code not_initialized = 1
error_code already_initialized = 2
error_code listing_not_found = 3
error_code not_seller = 4
error_code nft_not_active = 5
error_code invalid_price = 6
error_code listing_exists = 7
error_code cannot_buy_own_listing = 8
error_code insufficient_payment = 9
error_code nft_contract_error = 10
error_code offer_not_found = 11
error_code invalid_offer_amount = 12
error_code offer_exists = 13
error_code not_offer_maker = 14
error_code auction_not_found = 15
error_code auction_ended = 16
error_code auction_not_ended = 17
error_code bid_too_low = 18
error_code invalid_duration = 19
error_code reentrancy_detected = 20
error_code transfer_failed = 21
error_code payment_token_not_allowed = 22

-- An `Err` fails the invocation, so the host discards its writes as it does for a panic.
abbrev pub fail_if : Bool → MarketplaceError → Result (Unit {0})
fail_if test e = reject_if test (contract_error (error_code e))

abbrev pub or_fail : {A : Type 0} → Option A → MarketplaceError → Result A
or_fail o e = or_panic o (contract_error (error_code e))

pub record Listing : Type 0 where
  pub token_id : ℕ
  pub seller : Address
  pub price : ℤ
  pub payment_token : Address
  pub listed_at : ℕ

pub record Offer : Type 0 where
  pub token_id : ℕ
  pub offerer : Address
  pub amount : ℤ
  pub payment_token : Address
  pub created_at : ℕ

pub record Auction : Type 0 where
  pub token_id : ℕ
  pub seller : Address
  pub starting_price : ℤ
  pub current_bid : ℤ
  pub highest_bidder : Option Address
  pub payment_token : Address
  pub started_at : ℕ
  pub ends_at : ℕ
  pub ended : Bool

-- The token contracts that are called. Their state is `W`, and a call that fails gives `none`.
pub record Tokens (W : Type 0) : Type 0 where
  pub transfer : (token from to : Address) → ℤ → W → Option W

-- The storage, one field for each `DataKey`, with the state of the tokens. A key that the code reads
-- by `unwrap_or` is its value with that default; the others are options.
pub record Market (W : Type 0) : Type 0 where
  pub admin : Option Address
  pub nft_contract : Option Address
  pub marketplace_fee : ℕ
  pub fee_recipient : Option Address
  pub allowed_payment_token : Address → Bool
  pub allowed_payment_tokens : List Address
  pub listing : ℕ → Option Listing
  pub active_listings : List ℕ
  pub offers : ℕ → Option (List Offer)
  pub auction : ℕ → Option Auction
  pub active_auctions : List ℕ
  pub reentrancy_guard : Bool
  pub world : W
