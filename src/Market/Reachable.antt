-- ===== src/Market/Reachable.antt =====
-- Every marketplace that calls of its entry points reach is valid.
use commitlabs_contracts.Prelude.{◌≡◌, refl, List, [], ◌∷◌}
use commitlabs_contracts.Shared.Outcome.{Result, ok, panic}
use commitlabs_contracts.Core.Types.{Env}
use commitlabs_contracts.Market.Types.{Market, Tokens}
use commitlabs_contracts.Market.Contract.{Call, invoke, after, run, deployed}
use commitlabs_contracts.Market.Invariant.{IsValid, deployed-IsValid}
use commitlabs_contracts.Market.Preserved.Listings.{
  list_nft-IsValid, cancel_listing-IsValid, buy_nft-IsValid,
}
use commitlabs_contracts.Market.Preserved.Auctions.{
  start_auction-IsValid, place_bid-IsValid, end_auction-IsValid,
}
use commitlabs_contracts.Market.Preserved.Offers.{
  make_offer-IsValid, accept_offer-IsValid, cancel_offer-IsValid,
}
use commitlabs_contracts.Market.Preserved.Setup.{
  initialize-IsValid, update_fee-IsValid, add_payment_token-IsValid, remove_payment_token-IsValid,
}

module _ {W : Type 0} (x : Tokens W) where
  pub invoke-IsValid :
      (env : Env) (call : Call) (s s' : Market W)
      → IsValid s
      → invoke x env call s ≡ ok s'
      → IsValid s'
  unfolding invoke
  invoke-IsValid env (Call.initialize a n f r) s s' v e = initialize-IsValid env s s' v a n r f e
  invoke-IsValid env (Call.update_fee f) s s' v e = update_fee-IsValid env s s' v f e
  invoke-IsValid env (Call.add_payment_token t) s s' v e = add_payment_token-IsValid env s s' v t e
  invoke-IsValid env (Call.remove_payment_token t) s s' v e =
      remove_payment_token-IsValid env s s' v t e
  invoke-IsValid env (Call.list_nft w id p t) s s' v e = list_nft-IsValid env s s' v w id p t e
  invoke-IsValid env (Call.cancel_listing w id) s s' v e = cancel_listing-IsValid env s s' v w id e
  invoke-IsValid env (Call.buy_nft w id) s s' v e = buy_nft-IsValid env s s' v x w id e
  invoke-IsValid env (Call.make_offer w id a t) s s' v e = make_offer-IsValid env s s' v w id a t e
  invoke-IsValid env (Call.accept_offer w id o) s s' v e =
      accept_offer-IsValid env s s' v x w id o e
  invoke-IsValid env (Call.cancel_offer o id) s s' v e = cancel_offer-IsValid env s s' v o id e
  invoke-IsValid env (Call.start_auction w id p d t) s s' v e =
      start_auction-IsValid env s s' v w id p d t e
  invoke-IsValid env (Call.place_bid b id a) s s' v e = place_bid-IsValid env s s' v x b id a e
  invoke-IsValid env (Call.end_auction id) s s' v e = end_auction-IsValid env s s' v x id e

  pub after-IsValid :
      (env : Env) (call : Call) (s : Market W) (r : Result (Market W))
      → invoke x env call s ≡ r
      → IsValid s
      → IsValid (after s r)
  after-IsValid env call s (ok s') e v = invoke-IsValid env call s s' v e
  after-IsValid env call s (panic p) e v = v

  pub run_from : (calls : List (Env × Call)) (s : Market W) → IsValid s → IsValid (run x calls s)
  unfolding run
  run_from [] s v = v
  run_from ((env, call) ∷ rest) s v = run_from rest _ (after-IsValid env call s _ refl v)

  -- After any calls to a newly deployed marketplace, whoever signed them, at whatever times, and
  -- whatever the token contracts do: the lists of active listings, of auctions that have not ended and
  -- of allowed payment tokens index what is stored, each key once; a listing and an offer have a
  -- positive amount and stand under their token, with one offer of an account at most; an auction's
  -- standing bid is its starting price until there is a bidder, then at least that and not its
  -- seller's; and the reentrancy guard is down.
  pub run-IsValid : (calls : List (Env × Call)) (w : W) → IsValid (run x calls (deployed w))
  run-IsValid calls w = run_from calls (deployed w) (deployed-IsValid w)
