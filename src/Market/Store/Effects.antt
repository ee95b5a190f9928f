-- ===== src/Market/Store/Effects.antt =====
-- What the administration of the marketplace changes when it succeeds.
use commitlabs_contracts.Prelude.{
  ℕ, ◌≡◌, true, false, some, is_some, [], ◌∷◌, ◌++◌, arith, if◌then◌else◌, update, remove_first,
  nat_key,
}
use commitlabs_contracts.Shared.Outcome.{ok}
use commitlabs_contracts.Core.Types.{Address, Env}
use commitlabs_contracts.Market.Types.{Market}
use commitlabs_contracts.Market.Store.{
  initialize, update_fee, add_payment_token, remove_payment_token,
}
use commitlabs_contracts.Market.Keeps.{KeepsSetup, KeepsTokens, KeepsListings, KeepsAuctions}

module _ {W : Type 0} (env : Env) (s s' : Market W) where
  -- The stored things that trade is about, and the tokens' state.
  abbrev pub KeepsTrade : Type 0
  KeepsTrade =
      (s'.listing ≡ s.listing)
      × (s'.auction ≡ s.auction)
      × (s'.offers ≡ s.offers)
      × (s'.allowed_payment_token ≡ s.allowed_payment_token)
      × (s'.reentrancy_guard ≡ s.reentrancy_guard)
      × (s'.world ≡ s.world)

  pub initialize_effect :
      (admin nft recipient : Address) (bps : ℕ)
      → initialize env admin nft bps recipient s ≡ ok s'
      → (is_some s.admin ≡ false)
        × (s'.admin ≡ some admin)
        × (s'.nft_contract ≡ some nft)
        × (s'.fee_recipient ≡ some recipient)
        × (s'.active_listings ≡ [])
        × (s'.active_auctions ≡ [])
        × (s'.allowed_payment_tokens ≡ [])
        × KeepsTrade
  unfolding initialize
  initialize_effect admin nft recipient bps e = ground arith

  pub update_fee_effect :
      (bps : ℕ)
      → update_fee env bps s ≡ ok s'
      → (s'.offers ≡ s.offers)
        × (s'.reentrancy_guard ≡ s.reentrancy_guard)
        × KeepsListings s s'
        × KeepsAuctions s s'
        × KeepsTokens s s'
        × KeepsSetup s s'
        × (s'.world ≡ s.world)
  unfolding update_fee
  update_fee_effect bps e = ground arith

  module _ (token : Address) where
    pub add_payment_token_effect :
        add_payment_token env token s ≡ ok s'
        → (is_some s.admin ≡ true)
          × (s'.offers ≡ s.offers)
          × (s'.reentrancy_guard ≡ s.reentrancy_guard)
          × (s'.allowed_payment_token ≡ (
              if s.allowed_payment_token token
              then s.allowed_payment_token
              else update s.allowed_payment_token token true))
          × (s'.allowed_payment_tokens ≡ (
              if s.allowed_payment_token token
              then s.allowed_payment_tokens
              else s.allowed_payment_tokens ++ (token ∷ [])))
          × KeepsListings s s'
          × KeepsAuctions s s'
          × KeepsSetup s s'
          × (s'.world ≡ s.world)
    unfolding add_payment_token
    add_payment_token_effect e = ground arith

    pub remove_payment_token_effect :
        remove_payment_token env token s ≡ ok s'
        → (is_some s.admin ≡ true)
          × (s'.offers ≡ s.offers)
          × (s'.reentrancy_guard ≡ s.reentrancy_guard)
          × (s'.allowed_payment_token ≡ update s.allowed_payment_token token false)
          × (s'.allowed_payment_tokens ≡ remove_first token s.allowed_payment_tokens)
          × KeepsListings s s'
          × KeepsAuctions s s'
          × KeepsSetup s s'
          × (s'.world ≡ s.world)
    unfolding remove_payment_token
    remove_payment_token_effect e = ground arith
