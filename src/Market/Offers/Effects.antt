-- ===== src/Market/Offers/Effects.antt =====
-- What the offer operations require and change when they succeed.
use commitlabs_contracts.Prelude.{
  ℕ, ◌≡◌, true, false, none, some, is_some, List, [], ◌∷◌, ◌++◌, arith, ◌==◌, if◌then◌else◌, update,
  remove_first, nat_key, unwrap_or,
}
use commitlabs_contracts.Prelude.Int.{ℤ, pos, ◌≤ℤ◌}
use commitlabs_contracts.Shared.Outcome.{ok}
use commitlabs_contracts.Core.Types.{Address, Env}
use commitlabs_contracts.Market.Types.{Market, Offer, Tokens}
use commitlabs_contracts.Market.Store.{split_fee_plain}
use commitlabs_contracts.Market.Offers.{
  find_offer, remove_offer, stored_offers, make_offer, accept_offer, cancel_offer,
}
use commitlabs_contracts.Market.Payments.{payments}
use commitlabs_contracts.Market.Keeps.{KeepsSetup, KeepsTokens, KeepsListings, KeepsAuctions}

module _ {W : Type 0} (env : Env) (s s' : Market W) where
  abbrev pub offered :
      (offerer : Address) (token_id : ℕ) (amount : ℤ) (payment_token : Address) → Offer
  offered offerer token_id amount payment_token = record {
    token_id = token_id;
    offerer = offerer;
    amount = amount;
    payment_token = payment_token;
    created_at = env.now;
  }

  pub make_offer_effect :
      (offerer : Address) (id : ℕ) (amount : ℤ) (token : Address)
      → make_offer env offerer id amount token s ≡ ok s'
      → (env.signed offerer ≡ true)
        × (pos 1 ≤ℤ amount)
        × (s.allowed_payment_token token ≡ true)
        × (is_some (find_offer offerer (unwrap_or (s.offers id) [])) ≡ false)
        × (s'.offers
            ≡ update s.offers id
                (some (unwrap_or (s.offers id) [] ++ (offered offerer id amount token ∷ []))))
        × (s'.reentrancy_guard ≡ false)
        × KeepsListings s s'
        × KeepsAuctions s s'
        × KeepsTokens s s'
        × KeepsSetup s s'
        × (s'.world ≡ s.world)
  unfolding make_offer
  make_offer_effect offerer id amount token e = ground arith

  module _ (id : ℕ) (offerer : Address) (all : List Offer) (o : Offer)
      (stored : s.offers id ≡ some all) (found : find_offer offerer all ≡ some o) where
    pub cancel_offer_effect :
        cancel_offer env offerer id s ≡ ok s'
        → (env.signed offerer ≡ true)
          × (s'.offers ≡ update s.offers id (stored_offers (remove_offer offerer all)))
          × (s'.reentrancy_guard ≡ s.reentrancy_guard)
          × KeepsListings s s'
          × KeepsAuctions s s'
          × KeepsTokens s s'
          × KeepsSetup s s'
          × (s'.world ≡ s.world)
    unfolding cancel_offer
    cancel_offer_effect e = ground arith

    module _ (x : Tokens W) (seller recipient : Address) (fee proceeds : ℤ)
        (known : s.fee_recipient ≡ some recipient)
        (split : split_fee_plain o.amount s.marketplace_fee ≡ ok (fee, proceeds))
        (e : accept_offer env x seller id offerer s ≡ ok s') where
      pub accept_offer_guards :
          (s.reentrancy_guard ≡ false)
          × (env.signed seller ≡ true)
          × ((seller == offerer) ≡ false)
          × (s.allowed_payment_token o.payment_token ≡ true)
      unfolding accept_offer
      accept_offer_guards = ground arith

      pub accept_offer_pays :
          payments x o.payment_token offerer seller recipient proceeds fee s.world ≡ some s'.world
      unfolding accept_offer
      accept_offer_pays = ground arith

      pub accept_offer_writes :
          (s'.offers ≡ update s.offers id none)
          × (s'.reentrancy_guard ≡ false)
          × KeepsAuctions s s'
          × KeepsTokens s s'
          × KeepsSetup s s'
      unfolding accept_offer
      accept_offer_writes = ground arith

      -- The listing of the token goes, whoever made it; if there is none, nothing is removed.
      pub accept_offer_delists :
          (s'.listing ≡ (if is_some (s.listing id) then update s.listing id none else s.listing))
          × (s'.active_listings ≡ (
              if is_some (s.listing id)
              then remove_first id s.active_listings
              else s.active_listings))
      unfolding accept_offer
      accept_offer_delists = ground arith
