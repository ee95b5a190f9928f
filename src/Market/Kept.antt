-- ===== src/Market/Kept.antt =====
-- The calls of the marketplace that leave the auctions alone.
use commitlabs_contracts.Market.Keeps.{KeepsAuctions}
use commitlabs_contracts.Prelude.{ℕ, ◌≡◌, nat_key}
use commitlabs_contracts.Prelude.Int.{ℤ}
use commitlabs_contracts.Shared.Outcome.{ok}
use commitlabs_contracts.Core.Types.{Address, Env}
use commitlabs_contracts.Market.Types.{Market, Tokens}
use commitlabs_contracts.Market.Store.{update_fee, add_payment_token, remove_payment_token}
use commitlabs_contracts.Market.Store.Effects.{
  update_fee_effect, add_payment_token_effect, remove_payment_token_effect,
}
use commitlabs_contracts.Market.Listings.{list_nft, cancel_listing, buy_nft}
use commitlabs_contracts.Market.Listings.Effects.{
  list_nft_effect, cancel_listing_effect, buy_nft_writes,
}
use commitlabs_contracts.Market.Offers.{make_offer, accept_offer, cancel_offer}
use commitlabs_contracts.Market.Offers.Effects.{
  make_offer_effect, cancel_offer_effect, accept_offer_writes,
}
use commitlabs_contracts.Market.Found.{
  cancel_listing_found, cancel_offer_found, buy_nft_found, accept_offer_found,
}

module _ {W : Type 0} (env : Env) (s s' : Market W) where
  pub update_fee_keeps : (bps : ℕ) → update_fee env bps s ≡ ok s' → KeepsAuctions s s'
  update_fee_keeps bps e = let (_, _, _, kept, _, _, _) = update_fee_effect env s s' bps e in kept

  pub add_payment_token_keeps :
      (token : Address) → add_payment_token env token s ≡ ok s' → KeepsAuctions s s'
  add_payment_token_keeps token e =
      let (_, _, _, _, _, _, kept, _, _) = add_payment_token_effect env s s' token e in kept

  pub remove_payment_token_keeps :
      (token : Address) → remove_payment_token env token s ≡ ok s' → KeepsAuctions s s'
  remove_payment_token_keeps token e =
      let (_, _, _, _, _, _, kept, _, _) = remove_payment_token_effect env s s' token e in kept

  pub list_nft_keeps :
      (seller : Address) (id : ℕ) (price : ℤ) (token : Address)
      → list_nft env seller id price token s ≡ ok s'
      → KeepsAuctions s s'
  list_nft_keeps seller id price token e =
      let (_, _, _, _, _, _, _, _, _, kept, _, _, _) =
        list_nft_effect env s s' seller id price token e in
      kept

  pub make_offer_keeps :
      (offerer : Address) (id : ℕ) (amount : ℤ) (token : Address)
      → make_offer env offerer id amount token s ≡ ok s'
      → KeepsAuctions s s'
  make_offer_keeps offerer id amount token e =
      let (_, _, _, _, _, _, _, kept, _, _, _) =
        make_offer_effect env s s' offerer id amount token e in
      kept

  pub cancel_listing_keeps :
      (seller : Address) (id : ℕ) → cancel_listing env seller id s ≡ ok s' → KeepsAuctions s s'
  cancel_listing_keeps seller id e =
      let (l, found) = cancel_listing_found env s s' seller id e in
      let (_, _, _, _, _, _, kept, _, _, _) = cancel_listing_effect env s s' id l found seller e in
      kept

  pub buy_nft_keeps :
      (x : Tokens W) (buyer : Address) (id : ℕ)
      → buy_nft env x buyer id s ≡ ok s'
      → KeepsAuctions s s'
  buy_nft_keeps x buyer id e =
      let (l, recipient, fee, proceeds, found, known, split) =
        buy_nft_found env s s' x buyer id e in
      let (_, _, _, _, kept, _, _) =
        buy_nft_writes env s s' id l found x buyer recipient fee proceeds known split e in
      kept

  pub cancel_offer_keeps :
      (offerer : Address) (id : ℕ) → cancel_offer env offerer id s ≡ ok s' → KeepsAuctions s s'
  cancel_offer_keeps offerer id e =
      let (all, o, found, there) = cancel_offer_found env s s' offerer id e in
      let (_, _, _, _, kept, _, _, _) =
        cancel_offer_effect env s s' id offerer all o found there e in
      kept

  pub accept_offer_keeps :
      (x : Tokens W) (seller : Address) (id : ℕ) (offerer : Address)
      → accept_offer env x seller id offerer s ≡ ok s'
      → KeepsAuctions s s'
  accept_offer_keeps x seller id offerer e =
      let (all, o, recipient, fee, proceeds, found, there, known, split) =
        accept_offer_found env s s' x seller id offerer e in
      let (_, _, kept, _, _) =
        accept_offer_writes env s s' id offerer all o found there x seller recipient fee proceeds
          known split e in
      kept
