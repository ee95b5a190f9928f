-- ===== src/Market/Invariant.antt =====
-- What holds of every reachable marketplace.
use commitlabs_contracts.Prelude.{
  ℕ, ◌<◌, ◌≡◌, refl, ap, ◌∙◌, Bool, true, false, not, ◌||◌, Option, none, some, is_some, List, [],
  ◌∷◌, arith, ◌==◌, mem, nat_key, Bool-cases, inl, inr,
}
use commitlabs_contracts.Prelude.Index.{Indexes}
use commitlabs_contracts.Prelude.Int.{pos, ◌≤ℤ◌}
use commitlabs_contracts.Core.Types.{Address}
use commitlabs_contracts.Market.Types.{Market, Listing, Offer, Auction}
use commitlabs_contracts.Market.Contract.{deployed}

-- Whether an auction is stored and has not been ended.
abbrev pub is_live : Option Auction → Bool
is_live none = false
is_live (some a) = not a.ended

-- A stored listing has its own token's number and a positive price.
abbrev pub IsListing : ℕ → Option Listing → Type 0
IsListing id none = Unit
IsListing id (some l) = (l.token_id ≡ id) × (pos 1 ≤ℤ l.price)

-- The standing bid: at least the starting price, which is the bid while nobody has bid, and not the
-- seller's own.
abbrev pub IsBid : Auction → Option Address → Type 0
IsBid a none = a.current_bid ≡ a.starting_price
IsBid a (some bidder) = (a.starting_price ≤ℤ a.current_bid) × ((a.seller == bidder) ≡ false)

abbrev pub IsAuction : ℕ → Option Auction → Type 0
IsAuction id none = Unit
IsAuction id (some a) =
    (a.token_id ≡ id)
    × (pos 1 ≤ℤ a.starting_price)
    × (a.started_at < a.ends_at)
    × IsBid a a.highest_bidder

-- Whether an account has made one of the offers.
abbrev pub offers_of : Address → List Offer → Bool
offers_of who [] = false
offers_of who (o ∷ rest) = o.offerer == who || offers_of who rest

-- Offers of one token: positive amounts, and one offer of an account at most.
abbrev pub IsOffered : ℕ → List Offer → Type 0
IsOffered id [] = Unit
IsOffered id (o ∷ rest) =
    (o.token_id ≡ id) × (pos 1 ≤ℤ o.amount) × (offers_of o.offerer rest ≡ false) × IsOffered id rest

abbrev pub IsOffers : ℕ → Option (List Offer) → Type 0
IsOffers id none = Unit
IsOffers id (some all) = IsOffered id all

pub record IsValid {W : Type 0} (s : Market W) : Type 0 where
  pub listings : Indexes (λ id. is_some (s.listing id)) s.active_listings
  pub auctions : Indexes (λ id. is_live (s.auction id)) s.active_auctions
  pub tokens : Indexes s.allowed_payment_token s.allowed_payment_tokens
  pub listing_ok : (id : ℕ) → IsListing id (s.listing id)
  pub auction_ok : (id : ℕ) → IsAuction id (s.auction id)
  pub offers_ok : (id : ℕ) → IsOffers id (s.offers id)
  pub calm : s.reentrancy_guard ≡ false
  pub untouched :
      is_some s.admin ≡ false
      → (s.active_listings ≡ []) × (s.active_auctions ≡ []) × (s.allowed_payment_tokens ≡ [])

pub deployed-IsValid : {W : Type 0} (w : W) → IsValid (deployed w)
deployed-IsValid w = record {
  listings = record { exact = λ id. refl; once = tt };
  auctions = record { exact = λ id. refl; once = tt };
  tokens = record { exact = λ id. refl; once = tt };
  listing_ok = λ id. tt;
  auction_ok = λ id. tt;
  offers_ok = λ id. tt;
  calm = refl;
  untouched = λ none_yet. (refl, refl, refl);
}

-- A token that is allowed shows that the marketplace is set up.
pub allowed_started :
    {W : Type 0} (s : Market W) (token : Address)
    → IsValid s
    → s.allowed_payment_token token ≡ true
    → is_some s.admin ≡ true
allowed_started s token v ok' = elim (Bool-cases (is_some s.admin)) [
  | inl set ↦ set
  | inr unset ↦
      let (_, _, empty) = v.untouched unset in
      let listed : mem token s.allowed_payment_tokens ≡ true = v.tokens.exact token ∙ ok' in
      absurd (ground arith)
]

-- So does a stored listing, and an auction that has not been ended.
pub listing_started :
    {W : Type 0} (s : Market W) (id : ℕ) {l : Listing}
    → IsValid s
    → s.listing id ≡ some l
    → is_some s.admin ≡ true
listing_started s id v found = elim (Bool-cases (is_some s.admin)) [
  | inl set ↦ set
  | inr unset ↦
      let (empty, _, _) = v.untouched unset in
      let listed : mem id s.active_listings ≡ true = v.listings.exact id ∙ ap is_some found in
      absurd (ground arith)
]

pub auction_started :
    {W : Type 0} (s : Market W) (id : ℕ) {a : Auction}
    → IsValid s
    → s.auction id ≡ some a
    → a.ended ≡ false
    → is_some s.admin ≡ true
auction_started s id v found going = elim (Bool-cases (is_some s.admin)) [
  | inl set ↦ set
  | inr unset ↦
      let (_, empty, _) = v.untouched unset in
      let listed : mem id s.active_auctions ≡ true =
        v.auctions.exact id ∙ ap is_live found ∙ ap not going in
      absurd (ground arith)
]
