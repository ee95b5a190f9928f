-- ===== src/Market/Trade.antt =====
-- Sales of the marketplace, with the amounts that are paid.
use commitlabs_contracts.Prelude.{
  ℕ, ◌*◌, ◌/◌, ◌^◌, ◌-◌, ◌≤◌, ◌<◌, ◌≡◌, refl, ap, ◌∙◌, true, false, Option, none, some, is_some,
  List, arith, ◌==◌, if◌then◌else◌, update, remove_first, nat_key, Option-cases, inl, inr, mem,
  mem-remove_first_self,
}
use commitlabs_contracts.Prelude.Int.{pos}
use commitlabs_contracts.Shared.Outcome.{Result, ok, panic, call_failed}
use commitlabs_contracts.Core.Types.{Address, Env}
use commitlabs_contracts.Market.Types.{Market, Listing, Offer, Auction, Tokens}
use commitlabs_contracts.Market.Listings.{buy_nft}
use commitlabs_contracts.Market.Offers.{find_offer, accept_offer}
use commitlabs_contracts.Market.Auctions.{capped_fee, settle_auction, end_auction}
use commitlabs_contracts.Market.Auctions.Effects.{capped_fee-bound}
use commitlabs_contracts.Market.Invariant.{IsValid}
use commitlabs_contracts.Market.Payments.{payments, split_fee_exact}

-- The part of a price that the fee takes, in basis points, rounded down.
abbrev pub fee_of : (price bps : ℕ) → ℕ
fee_of price bps = price * bps / 10000

module _ {W : Type 0} where
  -- The result of a call that ends with a payment.
  abbrev pub paid : Option W → (W → Market W) → Result (Market W)
  paid none next = panic call_failed
  paid (some w) next = ok (next w)

module _ {W : Type 0} (env : Env) (x : Tokens W) (s : Market W) (id : ℕ) (recipient : Address)
    (calm : s.reentrancy_guard ≡ false) (known : s.fee_recipient ≡ some recipient) where
  -- The purchase of a listed token, when the reentrancy flag is down, the fee recipient and the NFT
  -- contract are set, the buyer signed and is not the seller, the payment token is allowed, the price is
  -- not negative, the fee is at most 10000 basis points, and the price and the price times the fee are
  -- below 2 ^ 127: the seller is paid the price less the fee, the fee
  -- recipient the fee if there is one, and the listing goes; if a payment fails, so does the call.
  pub buy_nft_lem :
      (buyer nft : Address) (l : Listing) (price : ℕ)
      → s.nft_contract ≡ some nft
      → s.listing id ≡ some l
      → l.price ≡ pos price
      → env.signed buyer ≡ true
      → (l.seller == buyer) ≡ false
      → s.allowed_payment_token l.payment_token ≡ true
      → s.marketplace_fee ≤ 10000
      → price < 2 ^ 127
      → price * s.marketplace_fee < 2 ^ 127
      → buy_nft env x buyer id s
        ≡ paid
            (payments x l.payment_token buyer l.seller recipient
              (pos (price - fee_of price s.marketplace_fee))
              (pos (fee_of price s.marketplace_fee))
              s.world)
            (λ w. record s {
              listing = update s.listing id none;
              active_listings = remove_first id s.active_listings;
              world = w;
            })
  unfolding buy_nft
  buy_nft_lem buyer nft l price set found amount signed apart allowed rate small fits =
      let (exact, _, _) = split_fee_exact price s.marketplace_fee small rate fits in ground arith

  -- The acceptance of a stored offer, when the reentrancy flag is down, the fee recipient is set, the
  -- accepting account signed and is not the offerer, the payment token is allowed, the amount is not
  -- negative, the fee is at most 10000 basis points, and the amount and the amount times the fee are below
  -- 2 ^ 127: that account is paid the amount less the fee by the offerer, and the fee recipient the fee;
  -- all offers for the token go, and so does its listing, whoever made it.
  pub accept_offer_lem :
      (seller offerer : Address) (all : List Offer) (o : Offer) (amount : ℕ)
      → s.offers id ≡ some all
      → find_offer offerer all ≡ some o
      → o.amount ≡ pos amount
      → env.signed seller ≡ true
      → (seller == offerer) ≡ false
      → s.allowed_payment_token o.payment_token ≡ true
      → s.marketplace_fee ≤ 10000
      → amount < 2 ^ 127
      → amount * s.marketplace_fee < 2 ^ 127
      → accept_offer env x seller id offerer s
        ≡ paid
            (payments x o.payment_token offerer seller recipient
              (pos (amount - fee_of amount s.marketplace_fee))
              (pos (fee_of amount s.marketplace_fee))
              s.world)
            (λ w. record s {
              offers = update s.offers id none;
              listing = if is_some (s.listing id) then update s.listing id none else s.listing;
              active_listings =
                  if is_some (s.listing id)
                  then remove_first id s.active_listings
                  else s.active_listings;
              world = w;
            })
  unfolding accept_offer
  accept_offer_lem seller offerer all o amount stored found amounts signed apart allowed rate small
        fits =
      let (exact, plain, _) = split_fee_exact amount s.marketplace_fee small rate fits in
      ground arith

  module _ (a : Auction) (found : s.auction id ≡ some a) (due : a.ends_at ≤ env.now)
      (going : a.ended ≡ false) where
    abbrev closing : W → Market W
    closing w = record s {
      auction = update s.auction id (some (record a { ended = true }));
      active_auctions = remove_first id s.active_auctions;
      world = w;
    }

    -- What closing an auction pays.
    abbrev pub settlement : (bid : ℕ) → Option Address → Option W
    settlement bid none = some s.world
    settlement bid (some winner) =
        payments x a.payment_token env.this a.seller recipient
          (pos (bid - fee_of bid (capped_fee s.marketplace_fee)))
          (pos (fee_of bid (capped_fee s.marketplace_fee))) s.world

    -- Anyone can close an auction without bids once its end has come, in a marketplace that is set up.
    end_unbid : a.highest_bidder ≡ none → end_auction env x id s ≡ ok (closing s.world)
    unfolding end_auction settle_auction
    end_unbid open' = ground arith

    -- An auction that was won: the bid less the fee goes to its seller and the fee to its recipient, at
    -- the configured rate or 10000 basis points, whichever is less.
    end_won :
        (winner : Address) (bid : ℕ)
        → a.highest_bidder ≡ some winner
        → a.current_bid ≡ pos bid
        → s.allowed_payment_token a.payment_token ≡ true
        → bid < 2 ^ 127
        → bid * capped_fee s.marketplace_fee < 2 ^ 127
        → end_auction env x id s
          ≡ paid
              (payments x a.payment_token env.this a.seller recipient
                (pos (bid - fee_of bid (capped_fee s.marketplace_fee)))
                (pos (fee_of bid (capped_fee s.marketplace_fee)))
                s.world)
              closing
    unfolding end_auction settle_auction
    end_won winner bid won amount allowed small fits =
        let (exact, _, _) =
          split_fee_exact bid (capped_fee s.marketplace_fee) small
            (capped_fee-bound s.marketplace_fee) fits in
        ground arith

    -- An auction that has not ended can be closed by anyone once its end has come, in a valid marketplace
    -- (`IsValid`) with the reentrancy flag down and the fee recipient set, if its current bid is not
    -- negative, the bid and the bid times the fee rate, taken as at most 10000, are below 2 ^ 127, and
    -- either it has no bidder or its payment token is allowed and the token contract makes the payments:
    -- the call succeeds, pays those, and leaves the auction ended and no longer among the active ones.
    pub end_auction_succeeds :
        (bid : ℕ) (w : W)
        → IsValid s
        → a.current_bid ≡ pos bid
        → (is_some a.highest_bidder ≡ true → s.allowed_payment_token a.payment_token ≡ true)
        → bid < 2 ^ 127
        → bid * capped_fee s.marketplace_fee < 2 ^ 127
        → settlement bid a.highest_bidder ≡ some w
        → (s' : Market W) × (end_auction env x id s ≡ ok s')
          × (s'.world ≡ w)
          × (s'.auction id ≡ some (record a { ended = true }))
          × (mem id s'.active_auctions ≡ false)
    end_auction_succeeds bid w v amount allowed small fits pays = (
      closing w,
      done,
      refl,
      ground arith,
      mem-remove_first_self id s.active_auctions v.auctions.once,
    )
      where
        done : end_auction env x id s ≡ ok (closing w)
        done = elim (Option-cases a.highest_bidder) [
          | inl open' ↦
              let same : s.world ≡ w = ground arith in
              end_unbid open' ∙ ap (λ w. ok (closing w)) same
          | inr (winner, won) ↦
              end_won winner bid won amount (allowed (ap is_some won)) small fits ∙ ground arith
        ]
