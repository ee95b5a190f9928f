-- ===== src/Market/Solvency/Runs.antt =====
-- Every run of the marketplace is solvent.
use commitlabs_contracts.Prelude.{ℕ, ◌≡◌, refl, false, List, [], ◌∷◌, arith}
use commitlabs_contracts.Prelude.Int.{ℤ}
use commitlabs_contracts.Shared.Outcome.{Result, ok, panic}
use commitlabs_contracts.Core.Types.{Address, Env}
use commitlabs_contracts.Market.Types.{Market, Tokens}
use commitlabs_contracts.Market.Store.{update_fee, add_payment_token, remove_payment_token}
use commitlabs_contracts.Market.Store.Effects.{
  update_fee_effect, add_payment_token_effect, remove_payment_token_effect,
}
use commitlabs_contracts.Market.Listings.{list_nft, cancel_listing}
use commitlabs_contracts.Market.Listings.Effects.{list_nft_effect, cancel_listing_effect}
use commitlabs_contracts.Market.Found.{cancel_listing_found}
use commitlabs_contracts.Market.Contract.{Call, invoke, after, run, deployed}
use commitlabs_contracts.Market.Invariant.{IsValid, deployed-IsValid}
use commitlabs_contracts.Market.Reachable.{after-IsValid}
use commitlabs_contracts.Market.Escrow.{IsLedger}
use commitlabs_contracts.Market.Solvency.{
  IsSolvent, quiet, initialize-IsSolvent, make_offer-IsSolvent, cancel_offer-IsSolvent,
  buy_nft-IsSolvent, accept_offer-IsSolvent,
}
use commitlabs_contracts.Market.Solvency.Auctions.{
  start_auction-IsSolvent, place_bid-IsSolvent, end_auction-IsSolvent,
}

-- The calls are of the contract at `this`, which signs none of them.
abbrev pub AllOf : (this : Address) → List (Env × Call) → Type 0
AllOf this [] = Unit
AllOf this ((env, call) ∷ rest) = (env.this ≡ this) × (env.signed this ≡ false) × AllOf this rest

module _ {W : Type 0} (balance : W → (token who : Address) → ℕ) (this : Address) (x : Tokens W)
    (laws : IsLedger x balance) where
  module _ (env : Env) (s s' : Market W) (v : IsSolvent balance this s) where
    update_fee-IsSolvent : (bps : ℕ) → update_fee env bps s ≡ ok s' → IsSolvent balance this s'
    update_fee-IsSolvent bps e =
        let (offers, _, _, kept, _, _, world) = update_fee_effect env s s' bps e in
        quiet balance this s s' v kept offers world

    add_payment_token-IsSolvent :
        (token : Address) → add_payment_token env token s ≡ ok s' → IsSolvent balance this s'
    add_payment_token-IsSolvent token e =
        let (_, offers, _, _, _, _, kept, _, world) = add_payment_token_effect env s s' token e in
        quiet balance this s s' v kept offers world

    remove_payment_token-IsSolvent :
        (token : Address) → remove_payment_token env token s ≡ ok s' → IsSolvent balance this s'
    remove_payment_token-IsSolvent token e =
        let (_, offers, _, _, _, _, kept, _, world) =
          remove_payment_token_effect env s s' token e in
        quiet balance this s s' v kept offers world

    list_nft-IsSolvent :
        (seller : Address) (id : ℕ) (price : ℤ) (token : Address)
        → list_nft env seller id price token s ≡ ok s'
        → IsSolvent balance this s'
    list_nft-IsSolvent seller id price token e =
        let (_, _, _, _, _, _, _, offers, _, kept, _, _, world) =
          list_nft_effect env s s' seller id price token e in
        quiet balance this s s' v kept offers world

    cancel_listing-IsSolvent :
        (seller : Address) (id : ℕ)
        → cancel_listing env seller id s ≡ ok s'
        → IsSolvent balance this s'
    cancel_listing-IsSolvent seller id e =
        let (l, found) = cancel_listing_found env s s' seller id e in
        let (_, _, _, _, offers, _, kept, _, _, world) =
          cancel_listing_effect env s s' id l found seller e in
        quiet balance this s s' v kept offers world

  pub invoke-IsSolvent :
      (env : Env) (call : Call) (s s' : Market W)
      → env.this ≡ this
      → env.signed this ≡ false
      → IsValid s
      → IsSolvent balance this s
      → invoke x env call s ≡ ok s'
      → IsSolvent balance this s'
  unfolding invoke
  invoke-IsSolvent env (Call.initialize a n f r) s s' at out ok' v e =
      initialize-IsSolvent balance this s s' v env out a n r f ok' e
  invoke-IsSolvent env (Call.update_fee f) s s' at out ok' v e = update_fee-IsSolvent env s s' v f e
  invoke-IsSolvent env (Call.add_payment_token t) s s' at out ok' v e =
      add_payment_token-IsSolvent env s s' v t e
  invoke-IsSolvent env (Call.remove_payment_token t) s s' at out ok' v e =
      remove_payment_token-IsSolvent env s s' v t e
  invoke-IsSolvent env (Call.list_nft w id p t) s s' at out ok' v e =
      list_nft-IsSolvent env s s' v w id p t e
  invoke-IsSolvent env (Call.cancel_listing w id) s s' at out ok' v e =
      cancel_listing-IsSolvent env s s' v w id e
  invoke-IsSolvent env (Call.buy_nft w id) s s' at out ok' v e =
      buy_nft-IsSolvent balance this s s' v env out x laws w id e
  invoke-IsSolvent env (Call.make_offer w id a t) s s' at out ok' v e =
      make_offer-IsSolvent balance this s s' v env out w id a t e
  invoke-IsSolvent env (Call.accept_offer w id o) s s' at out ok' v e =
      accept_offer-IsSolvent balance this s s' v env out x laws w id o e
  invoke-IsSolvent env (Call.cancel_offer o id) s s' at out ok' v e =
      cancel_offer-IsSolvent balance this s s' v env out o id e
  invoke-IsSolvent env (Call.start_auction w id p d t) s s' at out ok' v e =
      start_auction-IsSolvent balance this s s' ok' v env w id p d t e
  invoke-IsSolvent env (Call.place_bid b id a) s s' at out ok' v e =
      place_bid-IsSolvent balance this s s' ok' v env x laws at out b id a e
  invoke-IsSolvent env (Call.end_auction id) s s' at out ok' v e =
      end_auction-IsSolvent balance this s s' ok' v env x laws at out id e

  after-IsSolvent :
      (env : Env) (call : Call) (s : Market W) (r : Result (Market W))
      → invoke x env call s ≡ r
      → env.this ≡ this
      → env.signed this ≡ false
      → IsValid s
      → IsSolvent balance this s
      → IsSolvent balance this (after s r)
  after-IsSolvent env call s (ok s') e at out ok' v = invoke-IsSolvent env call s s' at out ok' v e
  after-IsSolvent env call s (panic p) e at out ok' v = v

  IsSolvent-from :
      (calls : List (Env × Call)) (s : Market W)
      → AllOf this calls
      → IsValid s
      → IsSolvent balance this s
      → IsSolvent balance this (run x calls s)
  unfolding run
  IsSolvent-from [] s all ok' v = v
  IsSolvent-from ((env, call) ∷ rest) s (at, out, all) ok' v =
      IsSolvent-from rest _ all (after-IsValid x env call s _ refl ok')
        (after-IsSolvent env call s _ refl at out ok' v)

  -- With token contracts whose transfers move what they say from the sender to the receiver and nothing
  -- else, and a marketplace that signs no call, after any calls to a newly deployed marketplace its own
  -- balance of each token is at least the sum of the standing bids in that token of the auctions that
  -- have not ended, whatever fee was set, and no stored offer is its own.
  pub run-IsSolvent :
      (calls : List (Env × Call)) (w : W)
      → AllOf this calls
      → IsSolvent balance this (run x calls (deployed w))
  run-IsSolvent calls w all =
      IsSolvent-from calls (deployed w) all (deployed-IsValid w)
        (record { own_offers = λ id. refl; covered = λ t. ground arith })
