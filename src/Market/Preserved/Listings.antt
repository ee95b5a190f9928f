-- ===== src/Market/Preserved/Listings.antt =====
-- The listing operations keep the invariant.
use mathlib.Core.Path.{subst}
use commitlabs_contracts.Prelude.{
  ℕ, ◌≡◌, refl, sym, ap, ◌∙◌, none, some, is_some, arith, update, remove_first, nat_key, false,
}
use commitlabs_contracts.Prelude.Index.{Indexes-at, Indexes-add}
use commitlabs_contracts.Prelude.Int.{ℤ}
use commitlabs_contracts.Shared.Outcome.{ok}
use commitlabs_contracts.Core.Types.{Address, Env}
use commitlabs_contracts.Market.Found.{cancel_listing_found, buy_nft_found}
use commitlabs_contracts.Market.Keeps.{KeepsTokens, KeepsAuctions}
use commitlabs_contracts.Market.Types.{Market, Listing, Tokens}
use commitlabs_contracts.Market.Listings.{list_nft, cancel_listing, buy_nft}
use commitlabs_contracts.Market.Listings.Effects.{
  list_nft_effect, cancel_listing_effect, buy_nft_writes, listed,
}
use commitlabs_contracts.Market.Invariant.{IsListing, IsValid, allowed_started, listing_started}
use commitlabs_contracts.Prelude.Index.{updated}
use commitlabs_contracts.Market.Preserved.{
  auctions_kept, tokens_kept, auction_ok_kept, offers_ok_kept, delisted, delisted_ok,
  still_untouched,
}

module _ {W : Type 0} (env : Env) (s s' : Market W) (v : IsValid s) where
  pub list_nft-IsValid :
      (seller : Address) (id : ℕ) (price : ℤ) (token : Address)
      → list_nft env seller id price token s ≡ ok s'
      → IsValid s'
  list_nft-IsValid seller id price token e =
      let (
        _,
        _,
        positive,
        allowed,
        free,
        stored,
        active,
        offers,
        calm,
        aucs,
        toks,
        (adm, _, _),
        _,
      ) =
        list_nft_effect env s s' seller id price token e in
      record {
        listings =
            Indexes-at active (λ j. refl)
              (Indexes-add id (ap is_some free) (λ j. ap (λ f. is_some (f j)) stored ∙ ground arith)
                v.listings);
        auctions = auctions_kept s s' v aucs;
        tokens = tokens_kept s s' v toks;
        listing_ok = λ j.
            subst (λ f. IsListing j (f j)) (sym stored)
              (updated IsListing s.listing id (some (listed env s s' seller id price token))
                v.listing_ok (refl, positive) j);
        auction_ok = auction_ok_kept s s' v aucs.0;
        offers_ok = offers_ok_kept s s' v offers;
        calm = calm;
        untouched = still_untouched s s' v adm (allowed_started s token v allowed);
      }

  -- A listing that is there goes.
  sold_listing :
      (id : ℕ) (l : Listing)
      → s.listing id ≡ some l
      → s'.listing ≡ update s.listing id none
      → s'.active_listings ≡ remove_first id s.active_listings
      → s'.offers ≡ s.offers
      → s'.reentrancy_guard ≡ false
      → KeepsAuctions s s'
      → KeepsTokens s s'
      → s'.admin ≡ s.admin
      → IsValid s'
  sold_listing id l found stored active offers calm aucs toks adm = record {
    listings = delisted s s' v id stored active;
    auctions = auctions_kept s s' v aucs;
    tokens = tokens_kept s s' v toks;
    listing_ok = delisted_ok s s' v id stored;
    auction_ok = auction_ok_kept s s' v aucs.0;
    offers_ok = offers_ok_kept s s' v offers;
    calm = calm;
    untouched = still_untouched s s' v adm (listing_started s id v found);
  }

  pub cancel_listing-IsValid :
      (seller : Address) (id : ℕ) → cancel_listing env seller id s ≡ ok s' → IsValid s'
  cancel_listing-IsValid seller id e =
      let (l, found) = cancel_listing_found env s s' seller id e in
      let (_, _, stored, active, offers, calm, aucs, toks, (adm, _, _), _) =
        cancel_listing_effect env s s' id l found seller e in
      sold_listing id l found stored active offers calm aucs toks adm

  pub buy_nft-IsValid :
      (x : Tokens W) (buyer : Address) (id : ℕ) → buy_nft env x buyer id s ≡ ok s' → IsValid s'
  buy_nft-IsValid x buyer id e =
      let (l, recipient, fee, proceeds, found, known, split) =
        buy_nft_found env s s' x buyer id e in
      let (stored, active, offers, calm, aucs, toks, (adm, _, _)) =
        buy_nft_writes env s s' id l found x buyer recipient fee proceeds known split e in
      sold_listing id l found stored active offers calm aucs toks adm
