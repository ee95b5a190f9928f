-- ===== src/Market/Preserved/Auctions.antt =====
-- The auction operations keep the invariant.
use mathlib.Core.Path.{subst}
use commitlabs_contracts.Prelude.{
  ℕ, ◌≡◌, refl, sym, ap, ◌∙◌, true, Option, none, some, arith, update, nat_key,
}
use commitlabs_contracts.Prelude.Index.{Indexes-at, Indexes-add, Indexes-remove}
use commitlabs_contracts.Prelude.Int.{ℤ, ◌≤ℤ◌, ◌<ℤ◌}
use commitlabs_contracts.Shared.Outcome.{ok}
use commitlabs_contracts.Core.Types.{Address, Env}
use commitlabs_contracts.Market.Found.{place_bid_found, end_auction_found}
use commitlabs_contracts.Market.Types.{Market, Auction, Tokens}
use commitlabs_contracts.Market.Auctions.{start_auction, place_bid, end_auction}
use commitlabs_contracts.Market.Auctions.Effects.{
  start_auction_effect, place_bid_guards, place_bid_writes, end_auction_guards, end_auction_writes,
  started,
}
use commitlabs_contracts.Market.Invariant.{
  IsAuction, IsBid, is_live, IsValid, allowed_started, auction_started,
}
use commitlabs_contracts.Prelude.Index.{updated}
use commitlabs_contracts.Market.Preserved.{
  listings_kept, tokens_kept, listing_ok_kept, offers_ok_kept, still_untouched,
}

-- A bid above the standing one is above the starting price.
topped :
    (a : Auction) (o : Option Address) (bid : ℤ)
    → IsBid a o
    → a.current_bid <ℤ bid
    → a.starting_price ≤ℤ bid
topped a none bid b h = ground arith
topped a (some w) bid b h = ground arith

module _ {W : Type 0} (env : Env) (s s' : Market W) (v : IsValid s) where
  -- One auction is rewritten.
  rewritten_ok :
      (id : ℕ) (a' : Auction)
      → s'.auction ≡ update s.auction id (some a')
      → IsAuction id (some a')
      → (j : ℕ) → IsAuction j (s'.auction j)
  rewritten_ok id a' stored new j =
      subst (λ f. IsAuction j (f j)) (sym stored)
        (updated IsAuction s.auction id (some a') v.auction_ok new j)

  pub start_auction-IsValid :
      (seller : Address) (id : ℕ) (price : ℤ) (duration : ℕ) (token : Address)
      → start_auction env seller id price duration token s ≡ ok s'
      → IsValid s'
  start_auction-IsValid seller id price duration token e =
      let (
        _,
        _,
        positive,
        lasting,
        _,
        allowed,
        free,
        stored,
        active,
        offers,
        calm,
        lists,
        toks,
        (adm, _, _),
        _,
      ) =
        start_auction_effect env s s' seller id price duration token e in
      record {
        listings = listings_kept s s' v lists;
        auctions =
            Indexes-at active (λ j. refl)
              (Indexes-add id (ap is_live free) (λ j. ap (λ f. is_live (f j)) stored ∙ ground arith)
                v.auctions);
        tokens = tokens_kept s s' v toks;
        listing_ok = listing_ok_kept s s' v lists.0;
        auction_ok =
            rewritten_ok id (started env s s' seller id price duration token) stored
              (refl, positive, omega (arith, lasting), refl);
        offers_ok = offers_ok_kept s s' v offers;
        calm = calm;
        untouched = still_untouched s s' v adm (allowed_started s token v allowed);
      }

  pub place_bid-IsValid :
      (x : Tokens W) (bidder : Address) (id : ℕ) (bid : ℤ)
      → place_bid env x bidder id bid s ≡ ok s'
      → IsValid s'
  place_bid-IsValid x bidder id bid e =
      let (a, found) = place_bid_found env s s' x bidder id bid e in
      let (_, _, _, higher, other, allowed) = place_bid_guards env s s' x id a found bidder bid e in
      let (stored, active, offers, calm, lists, toks, (adm, _, _)) =
        place_bid_writes env s s' x id a found bidder bid e in
      let was : IsAuction id (some a) = subst (λ o. IsAuction id o) found (v.auction_ok id) in
      record {
        listings = listings_kept s s' v lists;
        auctions =
            Indexes-at active (λ j. ap (λ f. is_live (f j)) stored ∙ ground (arith, found))
              v.auctions;
        tokens = tokens_kept s s' v toks;
        listing_ok = listing_ok_kept s s' v lists.0;
        auction_ok =
            rewritten_ok id _ stored
              (was.0, was.1, was.2, (topped a a.highest_bidder bid (was.3) higher, other));
        offers_ok = offers_ok_kept s s' v offers;
        calm = calm;
        untouched = still_untouched s s' v adm (allowed_started s a.payment_token v allowed);
      }

  pub end_auction-IsValid : (x : Tokens W) (id : ℕ) → end_auction env x id s ≡ ok s' → IsValid s'
  end_auction-IsValid x id e =
      let (a, recipient, found, known) = end_auction_found env s s' x id e in
      let (_, _, going) = end_auction_guards env s s' x id a found recipient known e in
      let (stored, active, offers, calm, lists, toks, (adm, _, _)) =
        end_auction_writes env s s' x id a found recipient known e in
      let was : IsAuction id (some a) = subst (λ o. IsAuction id o) found (v.auction_ok id) in
      record {
        listings = listings_kept s s' v lists;
        auctions =
            Indexes-at active (λ j. refl)
              (Indexes-remove id (λ j. ap (λ f. is_live (f j)) stored ∙ ground arith) v.auctions);
        tokens = tokens_kept s s' v toks;
        listing_ok = listing_ok_kept s s' v lists.0;
        auction_ok = rewritten_ok id (record a { ended = true }) stored was;
        offers_ok = offers_ok_kept s s' v offers;
        calm = calm;
        untouched = still_untouched s s' v adm (auction_started s id v found going);
      }
