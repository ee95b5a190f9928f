-- ===== src/Market/Bidding.antt =====
-- The life of a token's auction: each call of the marketplace follows it.
use mathlib.Core.Path.{subst}
use commitlabs_contracts.Prelude.{
  ℕ, ◌≤◌, ◌<◌, ◌≡◌, refl, ap, ◌∙◌, true, false, Option, none, some, List, [], ◌∷◌, arith, ◌==◌,
  update, nat_key, Bool-cases, inl, inr,
}
use commitlabs_contracts.Prelude.Int.{ℤ, ◌<ℤ◌}
use commitlabs_contracts.Shared.Outcome.{Result, ok, panic}
use commitlabs_contracts.Core.Types.{Address, Env}
use commitlabs_contracts.Market.Types.{Market, Auction, Tokens}
use commitlabs_contracts.Market.Store.{initialize}
use commitlabs_contracts.Market.Store.Effects.{initialize_effect}
use commitlabs_contracts.Market.Auctions.{start_auction, place_bid, end_auction}
use commitlabs_contracts.Market.Auctions.Effects.{
  start_auction_effect, place_bid_guards, place_bid_writes, end_auction_guards, end_auction_writes,
  started,
}
use commitlabs_contracts.Market.Found.{place_bid_found, end_auction_found}
use commitlabs_contracts.Market.Kept.{
  update_fee_keeps, add_payment_token_keeps, remove_payment_token_keeps, list_nft_keeps,
  make_offer_keeps, cancel_listing_keeps, buy_nft_keeps, cancel_offer_keeps, accept_offer_keeps,
}
use commitlabs_contracts.Market.Contract.{Call, invoke, after, run}

-- What one call may do to the auction that is stored for a token.
pub data Bids (env : Env) (o o' : Option Auction) : Type 0 where
  stays : o' ≡ o → Bids env o o'
  opens :
      (a : Auction)
      → o ≡ none
      → o' ≡ some a
      → env.signed a.seller ≡ true
      → env.now < a.ends_at
      → a.highest_bidder ≡ none
      → a.current_bid ≡ a.starting_price
      → a.ended ≡ false
      → Bids env o o'
  raises :
      (a : Auction) (bidder : Address) (bid : ℤ)
      → o ≡ some a
      → env.signed bidder ≡ true
      → env.now < a.ends_at
      → a.current_bid <ℤ bid
      → (a.seller == bidder) ≡ false
      → o' ≡ some (record a { current_bid = bid; highest_bidder = some bidder })
      → Bids env o o'
  closes :
      (a : Auction)
      → o ≡ some a
      → a.ended ≡ false
      → a.ends_at ≤ env.now
      → o' ≡ some (record a { ended = true })
      → Bids env o o'

module _ {W : Type 0} (env : Env) (s s' : Market W) (id : ℕ) where
  kept_auction : s'.auction ≡ s.auction → Bids env (s.auction id) (s'.auction id)
  kept_auction e = stays (ap (λ f. f id) e)

  rewrite-Bids :
      (at : ℕ) (a a' : Auction)
      → s.auction at ≡ some a
      → s'.auction ≡ update s.auction at (some a')
      → Bids env (some a) (some a')
      → Bids env (s.auction id) (s'.auction id)
  rewrite-Bids at a a' found writes step = elim (Bool-cases (at == id)) [
    | inl here ↦
        let e : at ≡ id = ground arith in
        let before : s.auction id ≡ some a = subst (λ k. s.auction k ≡ some a) e found in
        let now : s'.auction id ≡ some a' = rw (writes, here) refl in rw (before, now) step
    | inr apart ↦ stays (rw (writes, apart) refl)
  ]

  start_auction-Bids :
      (seller : Address) (at : ℕ) (price : ℤ) (duration : ℕ) (token : Address)
      → start_auction env seller at price duration token s ≡ ok s'
      → Bids env (s.auction id) (s'.auction id)
  start_auction-Bids seller at price duration token e =
      let (_, signed, _, long, _, _, unused, writes, _, _, _, _, _, _, _) =
        start_auction_effect env s s' seller at price duration token e in
      elim (Bool-cases (at == id)) [
        | inl here ↦
            let same : at ≡ id = ground arith in
            opens (started env s s' seller at price duration token)
              (subst (λ k. s.auction k ≡ none) same unused) (rw (writes, here) refl) signed
              (omega (arith, long)) refl refl refl
        | inr apart ↦ stays (rw (writes, apart) refl)
      ]

  place_bid-Bids :
      (x : Tokens W) (bidder : Address) (at : ℕ) (bid : ℤ)
      → place_bid env x bidder at bid s ≡ ok s'
      → Bids env (s.auction id) (s'.auction id)
  place_bid-Bids x bidder at bid e =
      let (a, found) = place_bid_found env s s' x bidder at bid e in
      let (_, signed, open', higher, other, _) =
        place_bid_guards env s s' x at a found bidder bid e in
      rewrite-Bids at a _ found (place_bid_writes env s s' x at a found bidder bid e).0
        (raises a bidder bid refl signed open' higher other refl)

  end_auction-Bids :
      (x : Tokens W) (at : ℕ)
      → end_auction env x at s ≡ ok s'
      → Bids env (s.auction id) (s'.auction id)
  end_auction-Bids x at e =
      let (a, recipient, found, known) = end_auction_found env s s' x at e in
      let (_, due, going) = end_auction_guards env s s' x at a found recipient known e in
      rewrite-Bids at a _ found (end_auction_writes env s s' x at a found recipient known e).0
        (closes a refl going due refl)

  initialize-Bids :
      (admin nft recipient : Address) (bps : ℕ)
      → initialize env admin nft bps recipient s ≡ ok s'
      → Bids env (s.auction id) (s'.auction id)
  initialize-Bids admin nft recipient bps e =
      let (_, _, _, _, _, _, _, (_, kept, _, _, _, _)) =
        initialize_effect env s s' admin nft recipient bps e in
      kept_auction kept

module _ {W : Type 0} (x : Tokens W) where
  -- Every successful call moves what is stored as a token's auction along its life: it stays; it is
  -- opened by its seller, where there was none, to end later and at its starting price; it is raised
  -- before its end by a signed bidder other than the seller and to more than the standing bid; or it is
  -- closed at its end or after, once.
  pub invoke-Bids :
      (env : Env) (call : Call) (s s' : Market W) (id : ℕ)
      → invoke x env call s ≡ ok s'
      → Bids env (s.auction id) (s'.auction id)
  unfolding invoke
  invoke-Bids env (Call.initialize a n f r) s s' id e = initialize-Bids env s s' id a n r f e
  invoke-Bids env (Call.update_fee f) s s' id e =
      kept_auction env s s' id (update_fee_keeps env s s' f e).0
  invoke-Bids env (Call.add_payment_token t) s s' id e =
      kept_auction env s s' id (add_payment_token_keeps env s s' t e).0
  invoke-Bids env (Call.remove_payment_token t) s s' id e =
      kept_auction env s s' id (remove_payment_token_keeps env s s' t e).0
  invoke-Bids env (Call.list_nft w at p t) s s' id e =
      kept_auction env s s' id (list_nft_keeps env s s' w at p t e).0
  invoke-Bids env (Call.cancel_listing w at) s s' id e =
      kept_auction env s s' id (cancel_listing_keeps env s s' w at e).0
  invoke-Bids env (Call.buy_nft w at) s s' id e =
      kept_auction env s s' id (buy_nft_keeps env s s' x w at e).0
  invoke-Bids env (Call.make_offer w at a t) s s' id e =
      kept_auction env s s' id (make_offer_keeps env s s' w at a t e).0
  invoke-Bids env (Call.accept_offer w at o) s s' id e =
      kept_auction env s s' id (accept_offer_keeps env s s' x w at o e).0
  invoke-Bids env (Call.cancel_offer o at) s s' id e =
      kept_auction env s s' id (cancel_offer_keeps env s s' o at e).0
  invoke-Bids env (Call.start_auction w at p d t) s s' id e =
      start_auction-Bids env s s' id w at p d t e
  invoke-Bids env (Call.place_bid b at a) s s' id e = place_bid-Bids env s s' id x b at a e
  invoke-Bids env (Call.end_auction at) s s' id e = end_auction-Bids env s s' id x at e

  -- The ledger's time never falls below `t` during the calls.
  abbrev pub AllFrom : ℕ → List (Env × Call) → Type 0
  AllFrom t [] = Unit
  AllFrom t ((env, call) ∷ rest) = (t ≤ env.now) × AllFrom t rest

  Bids-ended :
      {env : Env} {o o' : Option Auction} (a : Auction)
      → o ≡ some a
      → a.ended ≡ true
      → a.ends_at ≤ env.now
      → Bids env o o'
      → o' ≡ some a
  Bids-ended a was done late (stays same) = same ∙ was
  Bids-ended a was done late (opens b unused _ _ _ _ _ _) = absurd (ground arith)
  Bids-ended a was done late (raises b bidder bid is _ early _ _ _) = absurd (ground arith)
  Bids-ended a was done late (closes b is going _ _) = absurd (ground arith)

  after-ended :
      (env : Env) (call : Call) (s : Market W) (id : ℕ) (a : Auction) (r : Result (Market W))
      → invoke x env call s ≡ r
      → s.auction id ≡ some a
      → a.ended ≡ true
      → a.ends_at ≤ env.now
      → (after s r).auction id ≡ some a
  after-ended env call s id a (ok s') e was done late =
      Bids-ended {env = env} a was done late (invoke-Bids env call s s' id e)
  after-ended env call s id a (panic p) e was done late = was

  -- Once an auction has ended, its record stays as it is for good: while the ledger's time is not
  -- before the auction's end, no call replaces it or changes its seller, its bidder or its price.
  pub run-ended :
      (calls : List (Env × Call)) (s : Market W) (id : ℕ) (a : Auction)
      → s.auction id ≡ some a
      → a.ended ≡ true
      → AllFrom a.ends_at calls
      → (run x calls s).auction id ≡ some a
  unfolding run
  run-ended [] s id a was done late = was
  run-ended ((env, call) ∷ rest) s id a was done (now, later) =
      run-ended rest _ id a (after-ended env call s id a _ refl was done now) done later
