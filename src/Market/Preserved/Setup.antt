-- ===== src/Market/Preserved/Setup.antt =====
-- The administration keeps the invariant.
use commitlabs_contracts.Prelude.{
  ℕ, ◌≡◌, refl, sym, ap, ◌∙◌, true, is_some, arith, update, nat_key, Bool-cases, inl, inr,
}
use commitlabs_contracts.Prelude.Index.{Indexes, Indexes-at, Indexes-add, Indexes-remove}
use commitlabs_contracts.Shared.Outcome.{ok}
use commitlabs_contracts.Core.Types.{Address, Env}
use commitlabs_contracts.Market.Types.{Market}
use commitlabs_contracts.Market.Keeps.{KeepsSetup, KeepsListings, KeepsAuctions}
use commitlabs_contracts.Market.Invariant.{IsValid}
use commitlabs_contracts.Market.Preserved.{
  listings_kept, auctions_kept, tokens_kept, listing_ok_kept, auction_ok_kept, offers_ok_kept,
  still_untouched, untouched_kept,
}
use commitlabs_contracts.Market.Store.{
  initialize, update_fee, add_payment_token, remove_payment_token,
}
use commitlabs_contracts.Market.Store.Effects.{
  initialize_effect, update_fee_effect, add_payment_token_effect, remove_payment_token_effect,
}

module _ {W : Type 0} (env : Env) (s s' : Market W) (v : IsValid s) where
  pub initialize-IsValid :
      (admin nft recipient : Address) (bps : ℕ)
      → initialize env admin nft bps recipient s ≡ ok s'
      → IsValid s'
  initialize-IsValid admin nft recipient bps e =
      let (
        unset,
        set,
        _,
        _,
        no_listings,
        no_auctions,
        no_tokens,
        (lists, aucs, offers, toks, calm, _),
      ) =
        initialize_effect env s s' admin nft recipient bps e in
      let (empty_l, empty_a, empty_t) = v.untouched unset in
      record {
        listings = listings_kept s s' v (lists, no_listings ∙ sym empty_l);
        auctions = auctions_kept s s' v (aucs, no_auctions ∙ sym empty_a);
        tokens = tokens_kept s s' v (toks, no_tokens ∙ sym empty_t);
        listing_ok = listing_ok_kept s s' v lists;
        auction_ok = auction_ok_kept s s' v aucs;
        offers_ok = offers_ok_kept s s' v offers;
        calm = calm ∙ v.calm;
        untouched = λ no_admin. (no_listings, no_auctions, no_tokens);
      }

  pub update_fee-IsValid : (bps : ℕ) → update_fee env bps s ≡ ok s' → IsValid s'
  update_fee-IsValid bps e =
      let (offers, calm, lists, aucs, toks, (adm, _, _), _) = update_fee_effect env s s' bps e in
      record {
        listings = listings_kept s s' v lists;
        auctions = auctions_kept s s' v aucs;
        tokens = tokens_kept s s' v toks;
        listing_ok = listing_ok_kept s s' v lists.0;
        auction_ok = auction_ok_kept s s' v aucs.0;
        offers_ok = offers_ok_kept s s' v offers;
        calm = calm ∙ v.calm;
        untouched = untouched_kept s s' v adm lists.1 aucs.1 toks.1;
      }

  -- A change of the allowed tokens alone.
  retokened :
      is_some s.admin ≡ true
      → s'.offers ≡ s.offers
      → s'.reentrancy_guard ≡ s.reentrancy_guard
      → KeepsListings s s'
      → KeepsAuctions s s'
      → KeepsSetup s s'
      → Indexes s'.allowed_payment_token s'.allowed_payment_tokens
      → IsValid s'
  retokened set offers calm lists aucs (adm, _, _) toks = record {
    listings = listings_kept s s' v lists;
    auctions = auctions_kept s s' v aucs;
    tokens = toks;
    listing_ok = listing_ok_kept s s' v lists.0;
    auction_ok = auction_ok_kept s s' v aucs.0;
    offers_ok = offers_ok_kept s s' v offers;
    calm = calm ∙ v.calm;
    untouched = still_untouched s s' v adm set;
  }

  pub add_payment_token-IsValid :
      (token : Address) → add_payment_token env token s ≡ ok s' → IsValid s'
  add_payment_token-IsValid token e =
      let (set, offers, calm, flags, all, lists, aucs, setup, _) =
        add_payment_token_effect env s s' token e in
      retokened set offers calm lists aucs setup
        (elim (Bool-cases (s.allowed_payment_token token)) [
          | inl there ↦ tokens_kept s s' v (rw there at flags, rw there at all)
          | inr absent ↦
              let flags' : s'.allowed_payment_token ≡ update s.allowed_payment_token token true =
                rw absent at flags in
              Indexes-at (rw absent at all) (λ j. refl)
                (Indexes-add token absent (λ j. ap (λ f. f j) flags' ∙ ground arith) v.tokens)
        ])

  pub remove_payment_token-IsValid :
      (token : Address) → remove_payment_token env token s ≡ ok s' → IsValid s'
  remove_payment_token-IsValid token e =
      let (set, offers, calm, flags, all, lists, aucs, setup, _) =
        remove_payment_token_effect env s s' token e in
      retokened set offers calm lists aucs setup (
        Indexes-at all (λ j. refl)
          (Indexes-remove token (λ j. ap (λ f. f j) flags ∙ ground arith) v.tokens))
