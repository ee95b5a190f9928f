-- ===== src/Market/Solvency.antt =====
-- The marketplace's own balance covers the bids that it holds: the invariant, and the calls that move
-- no bid.
pub mod Auctions
pub mod Runs
use mathlib.Core.Path.{subst}
use commitlabs_contracts.Prelude.{
  ℕ, ◌+◌, ◌≤◌, ◌<◌, ◌≡◌, refl, sym, ap, ◌∙◌, Bool, true, false, not, ◌&&◌, ◌||◌, Option, none, some,
  is_some, List, [], ◌∷◌, ◌++◌, arith, ◌==◌, if◌then◌else◌, update, mem, remove_first, nat_key,
  unwrap_or, Bool-cases, Option-cases, inl, inr,
}
use commitlabs_contracts.Prelude.Int.{ℤ, pos_part}
use commitlabs_contracts.Shared.Outcome.{Result, ok, panic}
use commitlabs_contracts.Core.Types.{Address, Env}
use commitlabs_contracts.Market.Types.{Market, Offer, Tokens}
use commitlabs_contracts.Market.Store.{initialize}
use commitlabs_contracts.Market.Store.Effects.{initialize_effect}
use commitlabs_contracts.Market.Listings.{buy_nft}
use commitlabs_contracts.Market.Listings.Effects.{buy_nft_writes, buy_nft_pays}
use commitlabs_contracts.Market.Offers.{
  find_offer, remove_offer, stored_offers, make_offer, accept_offer, cancel_offer,
}
use commitlabs_contracts.Market.Offers.Effects.{
  offered, make_offer_effect, cancel_offer_effect, accept_offer_writes, accept_offer_pays,
}
use commitlabs_contracts.Market.Found.{cancel_offer_found, buy_nft_found, accept_offer_found}
use commitlabs_contracts.Market.Keeps.{KeepsAuctions}
use commitlabs_contracts.Market.Invariant.{IsValid, offers_of}
use commitlabs_contracts.Prelude.Index.{updated}
use commitlabs_contracts.Market.Preserved.Offers.{
  find-offers_of, offers_of-append, offers_of-remove,
}
use commitlabs_contracts.Market.Contract.{deployed}
use commitlabs_contracts.Market.Payments.{payments}
use commitlabs_contracts.Market.Escrow.{IsLedger, escrow, share, payments_take}

-- Offers of the marketplace itself are not among the stored ones, and for each token the standing bids
-- of the active auctions are at most its balance.
pub record IsSolvent {W : Type 0} (balance : W → (token who : Address) → ℕ) (this : Address)
    (s : Market W) : Type 0 where
  pub own_offers : (id : ℕ) → offers_of this (unwrap_or (s.offers id) []) ≡ false
  pub covered : (t : Address) → escrow t s.auction s.active_auctions ≤ balance s.world t this

unwrap-stored_offers : (all : List Offer) → unwrap_or (stored_offers all) [] ≡ all
unwrap-stored_offers [] = refl
unwrap-stored_offers (o ∷ all) = refl

module _ {W : Type 0} (balance : W → (token who : Address) → ℕ) (this : Address) (s s' : Market W)
    (v : IsSolvent balance this s) where
  pub own_kept :
      s'.offers ≡ s.offers → (id : ℕ) → offers_of this (unwrap_or (s'.offers id) []) ≡ false
  own_kept e id =
      subst (λ f. offers_of this (unwrap_or (f id) []) ≡ false) (sym e) (v.own_offers id)

  own_rewritten :
      (at : ℕ) (o : Option (List Offer))
      → s'.offers ≡ update s.offers at o
      → offers_of this (unwrap_or o []) ≡ false
      → (id : ℕ) → offers_of this (unwrap_or (s'.offers id) []) ≡ false
  own_rewritten at o e new id =
      subst (λ f. offers_of this (unwrap_or (f id) []) ≡ false) (sym e)
        (updated (λ _ o. offers_of this (unwrap_or o []) ≡ false) s.offers at o v.own_offers new id)

  pub covered_kept :
      KeepsAuctions s s'
      → ((t : Address) → balance s.world t this ≤ balance s'.world t this)
      → (t : Address) → escrow t s'.auction s'.active_auctions ≤ balance s'.world t this
  covered_kept (stored, active) more t =
      let same : escrow t s'.auction s'.active_auctions ≡ escrow t s.auction s.active_auctions =
        rw (stored, active) refl in
      omega (arith, same, more t, v.covered t)

  -- A call that leaves the auctions, the offers and the tokens alone.
  pub quiet :
      KeepsAuctions s s' → s'.offers ≡ s.offers → s'.world ≡ s.world → IsSolvent balance this s'
  quiet kept same world = record {
    own_offers = own_kept same;
    covered = covered_kept kept (λ t. omega (arith, ap (λ w. balance w t this) world));
  }

  module _ (env : Env) (outside : env.signed this ≡ false) where
    -- Whoever signed a call is not the marketplace.
    pub signer_apart : (who : Address) → env.signed who ≡ true → (who == this) ≡ false
    signer_apart who signed = elim (Bool-cases (who == this)) [
      | inl same ↦ let e : who ≡ this = ground arith in absurd (ground arith)
      | inr apart ↦ apart
    ]

    pub initialize-IsSolvent :
        (admin nft recipient : Address) (bps : ℕ)
        → IsValid s
        → initialize env admin nft bps recipient s ≡ ok s'
        → IsSolvent balance this s'
    initialize-IsSolvent admin nft recipient bps ok' e =
        let (fresh, _, _, _, _, none_active, _, (_, stored, offers, _, _, world)) =
          initialize_effect env s s' admin nft recipient bps e in
        let (_, empty, _) = ok'.untouched fresh in
        quiet (stored, none_active ∙ sym empty) offers world

    pub make_offer-IsSolvent :
        (offerer : Address) (id : ℕ) (amount : ℤ) (token : Address)
        → make_offer env offerer id amount token s ≡ ok s'
        → IsSolvent balance this s'
    make_offer-IsSolvent offerer id amount token e =
        let (signed, _, _, _, stored, _, _, kept, _, _, world) =
          make_offer_effect env s s' offerer id amount token e in
        let other : (offerer == this) ≡ false = signer_apart offerer signed in
        record {
          own_offers = own_rewritten id _ stored (
              offers_of-append this (unwrap_or (s.offers id) [])
                (offered env s s' offerer id amount token)
              ∙ ground (arith, v.own_offers id));
          covered = covered_kept kept (λ t. omega (arith, ap (λ w. balance w t this) world));
        }

    pub cancel_offer-IsSolvent :
        (offerer : Address) (id : ℕ)
        → cancel_offer env offerer id s ≡ ok s'
        → IsSolvent balance this s'
    cancel_offer-IsSolvent offerer id e =
        let (all, o, found, there) = cancel_offer_found env s s' offerer id e in
        let (_, stored, _, _, kept, _, _, world) =
          cancel_offer_effect env s s' id offerer all o found there e in
        let was : offers_of this all ≡ false =
          subst (λ k. offers_of this (unwrap_or k []) ≡ false) found (v.own_offers id) in
        record {
          own_offers = own_rewritten id _ stored (
              ap (offers_of this) (unwrap-stored_offers (remove_offer offerer all))
              ∙ offers_of-remove this offerer all was);
          covered = covered_kept kept (λ t. omega (arith, ap (λ w. balance w t this) world));
        }

    module _ (x : Tokens W) (laws : IsLedger x balance) where
      -- A payment of someone else takes nothing from the marketplace.
      paid_by :
          (token payer seller recipient : Address) (proceeds fee : ℤ)
          → (payer == this) ≡ false
          → payments x token payer seller recipient proceeds fee s.world ≡ some s'.world
          → (t : Address) → balance s.world t this ≤ balance s'.world t this
      paid_by token payer seller recipient proceeds fee apart paid t =
          let most =
            payments_take x balance laws token payer seller recipient proceeds fee s.world s'.world
              paid t this in
          ground arith

      pub buy_nft-IsSolvent :
          (buyer : Address) (id : ℕ) → buy_nft env x buyer id s ≡ ok s' → IsSolvent balance this s'
      buy_nft-IsSolvent buyer id e =
          let (l, recipient, fee, proceeds, found, known, split) =
            buy_nft_found env s s' x buyer id e in
          let (_, _, offers, _, kept, _, _) =
            buy_nft_writes env s s' id l found x buyer recipient fee proceeds known split e in
          let (_, signed, _, _, paid) =
            buy_nft_pays env s s' id l found x buyer recipient fee proceeds known split e in
          record {
            own_offers = own_kept offers;
            covered = covered_kept kept (
                paid_by l.payment_token buyer l.seller recipient proceeds fee
                  (signer_apart buyer signed) paid);
          }

      pub accept_offer-IsSolvent :
          (seller : Address) (id : ℕ) (offerer : Address)
          → accept_offer env x seller id offerer s ≡ ok s'
          → IsSolvent balance this s'
      accept_offer-IsSolvent seller id offerer e =
          let (all, o, recipient, fee, proceeds, found, there, known, split) =
            accept_offer_found env s s' x seller id offerer e in
          let (stored, _, kept, _, _) =
            accept_offer_writes env s s' id offerer all o found there x seller recipient fee
              proceeds known split e in
          let was : offers_of this all ≡ false =
            subst (λ k. offers_of this (unwrap_or k []) ≡ false) found (v.own_offers id) in
          let made : offers_of offerer all ≡ true =
            sym (find-offers_of offerer all) ∙ ap is_some there in
          record {
            own_offers = own_rewritten id none stored refl;
            covered = covered_kept kept (
                paid_by o.payment_token offerer seller recipient proceeds fee
                  (other_maker offerer all was made)
                  (accept_offer_pays env s s' id offerer all o found there x seller recipient fee
                    proceeds known split e));
          }
        where
          other_maker :
              (who : Address) (all : List Offer)
              → offers_of this all ≡ false
              → offers_of who all ≡ true
              → (who == this) ≡ false
          other_maker who all was made = elim (Bool-cases (who == this)) [
            | inl same ↦
                let e : who ≡ this = ground arith in
                let own : offers_of this all ≡ true = subst (λ k. offers_of k all ≡ true) e made in
                absurd (ground arith)
            | inr apart ↦ apart
          ]
