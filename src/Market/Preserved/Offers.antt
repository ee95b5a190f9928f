-- ===== src/Market/Preserved/Offers.antt =====
-- The offer operations keep the invariant.
use mathlib.Core.Path.{subst}
use commitlabs_contracts.Prelude.{
  ℕ, ◌≡◌, refl, sym, ◌∙◌, false, ◌||◌, Option, none, some, is_some, List, [], ◌∷◌, ◌++◌, arith,
  ◌==◌, if◌then◌else◌, update, remove_first, nat_key, unwrap_or, Bool-cases, inl, inr,
}
use commitlabs_contracts.Prelude.Index.{Indexes}
use commitlabs_contracts.Prelude.Int.{ℤ, pos, ◌≤ℤ◌}
use commitlabs_contracts.Shared.Outcome.{ok}
use commitlabs_contracts.Core.Types.{Address, Env}
use commitlabs_contracts.Market.Found.{cancel_offer_found, accept_offer_found}
use commitlabs_contracts.Market.Types.{Market, Offer, Tokens}
use commitlabs_contracts.Market.Store.{split_fee_plain}
use commitlabs_contracts.Market.Invariant.{IsListing, IsOffers, IsValid, allowed_started}
use commitlabs_contracts.Prelude.Index.{updated}
use commitlabs_contracts.Market.Preserved.{
  listings_kept, auctions_kept, tokens_kept, listing_ok_kept, auction_ok_kept, delisted,
  delisted_ok, still_untouched, untouched_kept,
}
use commitlabs_contracts.Market.Offers.{
  find_offer, remove_offer, stored_offers, make_offer, accept_offer, cancel_offer,
}
use commitlabs_contracts.Market.Offers.Effects.{
  offered, make_offer_effect, cancel_offer_effect, accept_offer_guards, accept_offer_writes,
  accept_offer_delists,
}
use commitlabs_contracts.Market.Invariant.{IsOffered, offers_of}

-- Looking for an offer finds one exactly if the account has made one.
pub find-offers_of :
    (who : Address) (all : List Offer) → is_some (find_offer who all) ≡ offers_of who all
unfolding find_offer
find-offers_of who [] = refl
find-offers_of who (o ∷ all) = ground (arith, find-offers_of who all)

pub offers_of-append :
    (who : Address) (all : List Offer) (o : Offer)
    → offers_of who (all ++ (o ∷ [])) ≡ (offers_of who all || o.offerer == who)
offers_of-append who [] o = ground arith
offers_of-append who (p ∷ all) o = ground (arith, offers_of-append who all o)

IsOffered-snoc :
    (id : ℕ) (all : List Offer) (o : Offer)
    → IsOffered id all
    → o.token_id ≡ id
    → pos 1 ≤ℤ o.amount
    → offers_of o.offerer all ≡ false
    → IsOffered id (all ++ (o ∷ []))
IsOffered-snoc id [] o v own positive new = (own, positive, refl, tt)
IsOffered-snoc id (p ∷ all) o (t, a, once, rest) own positive new = (
  t,
  a,
  ground (arith, offers_of-append p.offerer all o),
  IsOffered-snoc id all o rest own positive (ground arith),
)

-- Removing an offer leaves every other account's, and none of its own.
pub offers_of-remove :
    (who gone : Address) (all : List Offer)
    → offers_of who all ≡ false
    → offers_of who (remove_offer gone all) ≡ false
unfolding remove_offer
offers_of-remove who gone [] h = refl
offers_of-remove who gone (o ∷ all) h = ground (arith, offers_of-remove who gone all)

IsOffered-remove :
    (id : ℕ) (gone : Address) (all : List Offer)
    → IsOffered id all
    → IsOffered id (remove_offer gone all)
unfolding remove_offer
IsOffered-remove id gone [] v = tt
IsOffered-remove id gone (o ∷ all) (t, a, once, rest) = elim (Bool-cases (o.offerer == gone)) [
  | inl same ↦ rw same rest
  | inr apart ↦
      rw apart (t, a, offers_of-remove o.offerer gone all once, IsOffered-remove id gone all rest)
]

stored_ok : (id : ℕ) (all : List Offer) → IsOffered id all → IsOffers id (stored_offers all)
stored_ok id [] v = tt
stored_ok id (o ∷ all) v = v

-- The offers under a key that may be absent.
unwrapped_ok : (id : ℕ) (o : Option (List Offer)) → IsOffers id o → IsOffered id (unwrap_or o [])
unwrapped_ok id none v = tt
unwrapped_ok id (some all) v = v

module _ {W : Type 0} (env : Env) (s s' : Market W) (v : IsValid s) where
  rewritten_ok :
      (id : ℕ) (o : Option (List Offer))
      → s'.offers ≡ update s.offers id o
      → IsOffers id o
      → (j : ℕ) → IsOffers j (s'.offers j)
  rewritten_ok id o stored new j =
      subst (λ f. IsOffers j (f j)) (sym stored) (updated IsOffers s.offers id o v.offers_ok new j)

  pub make_offer-IsValid :
      (offerer : Address) (id : ℕ) (amount : ℤ) (token : Address)
      → make_offer env offerer id amount token s ≡ ok s'
      → IsValid s'
  make_offer-IsValid offerer id amount token e =
      let (_, positive, allowed, new, stored, calm, lists, aucs, toks, (adm, _, _), _) =
        make_offer_effect env s s' offerer id amount token e in
      let all : List Offer = unwrap_or (s.offers id) [] in
      record {
        listings = listings_kept s s' v lists;
        auctions = auctions_kept s s' v aucs;
        tokens = tokens_kept s s' v toks;
        listing_ok = listing_ok_kept s s' v lists.0;
        auction_ok = auction_ok_kept s s' v aucs.0;
        offers_ok = rewritten_ok id _ stored (
            IsOffered-snoc id all (offered env s s' offerer id amount token)
              (unwrapped_ok id (s.offers id) (v.offers_ok id)) refl positive
              (sym (find-offers_of offerer all) ∙ new));
        calm = calm;
        untouched = still_untouched s s' v adm (allowed_started s token v allowed);
      }

  pub cancel_offer-IsValid :
      (offerer : Address) (id : ℕ) → cancel_offer env offerer id s ≡ ok s' → IsValid s'
  cancel_offer-IsValid offerer id e =
      let (all, o, found, there) = cancel_offer_found env s s' offerer id e in
      let (_, stored, calm, lists, aucs, toks, (adm, _, _), _) =
        cancel_offer_effect env s s' id offerer all o found there e in
      let was : IsOffered id all = subst (λ k. IsOffers id k) found (v.offers_ok id) in
      record {
        listings = listings_kept s s' v lists;
        auctions = auctions_kept s s' v aucs;
        tokens = tokens_kept s s' v toks;
        listing_ok = listing_ok_kept s s' v lists.0;
        auction_ok = auction_ok_kept s s' v aucs.0;
        offers_ok = rewritten_ok id _ stored (stored_ok id _ (IsOffered-remove id offerer all was));
        calm = calm ∙ v.calm;
        untouched = untouched_kept s s' v adm lists.1 aucs.1 toks.1;
      }

  -- The listing of the token goes if there is one.
  accept_listings :
      (id : ℕ)
      → s'.listing ≡ (if is_some (s.listing id) then update s.listing id none else s.listing)
      → s'.active_listings
        ≡ (if is_some (s.listing id) then remove_first id s.active_listings else s.active_listings)
      → Indexes (λ j. is_some (s'.listing j)) s'.active_listings
        × ((j : ℕ) → IsListing j (s'.listing j))
  accept_listings id stored active = elim (Bool-cases (is_some (s.listing id))) [
    | inl there ↦
        let stored' : s'.listing ≡ update s.listing id none = rw there at stored in
        (delisted s s' v id stored' (rw there at active), delisted_ok s s' v id stored')
    | inr absent ↦
        let stored' : s'.listing ≡ s.listing = rw absent at stored in
        (listings_kept s s' v (stored', rw absent at active), listing_ok_kept s s' v stored')
  ]

  accepted :
      (x : Tokens W) (seller : Address) (id : ℕ) (offerer : Address) (all : List Offer) (o : Offer)
      → s.offers id ≡ some all
      → find_offer offerer all ≡ some o
      → (recipient : Address) (fee proceeds : ℤ) → s.fee_recipient ≡ some recipient
      → split_fee_plain o.amount s.marketplace_fee ≡ ok (fee, proceeds)
      → accept_offer env x seller id offerer s ≡ ok s'
      → IsValid s'
  accepted x seller id offerer all o found there recipient fee proceeds known split e =
      let (_, _, _, allowed) =
        accept_offer_guards env s s' id offerer all o found there x seller recipient fee proceeds
          known split e in
      let (stored, calm, aucs, toks, (adm, _, _)) =
        accept_offer_writes env s s' id offerer all o found there x seller recipient fee proceeds
          known split e in
      let (kept, active) =
        accept_offer_delists env s s' id offerer all o found there x seller recipient fee proceeds
          known split e in
      let (lists, lists_ok) = accept_listings id kept active in
      record {
        listings = lists;
        auctions = auctions_kept s s' v aucs;
        tokens = tokens_kept s s' v toks;
        listing_ok = lists_ok;
        auction_ok = auction_ok_kept s s' v aucs.0;
        offers_ok = rewritten_ok id none stored tt;
        calm = calm;
        untouched = still_untouched s s' v adm (allowed_started s o.payment_token v allowed);
      }

  pub accept_offer-IsValid :
      (x : Tokens W) (seller : Address) (id : ℕ) (offerer : Address)
      → accept_offer env x seller id offerer s ≡ ok s'
      → IsValid s'
  accept_offer-IsValid x seller id offerer e =
      let (all, o, recipient, fee, proceeds, found, there, known, split) =
        accept_offer_found env s s' x seller id offerer e in
      accepted x seller id offerer all o found there recipient fee proceeds known split e
