-- ===== src/Market/Keeps.antt =====
-- The parts of the marketplace's storage that an operation leaves as they are.
use commitlabs_contracts.Prelude.{◌≡◌}
use commitlabs_contracts.Market.Types.{Market}

module _ {W : Type 0} (s s' : Market W) where
  abbrev pub KeepsSetup : Type 0
  KeepsSetup =
      (s'.admin ≡ s.admin)
      × (s'.nft_contract ≡ s.nft_contract)
      × (s'.fee_recipient ≡ s.fee_recipient)

  abbrev pub KeepsTokens : Type 0
  KeepsTokens =
      (s'.allowed_payment_token ≡ s.allowed_payment_token)
      × (s'.allowed_payment_tokens ≡ s.allowed_payment_tokens)

  abbrev pub KeepsListings : Type 0
  KeepsListings = (s'.listing ≡ s.listing) × (s'.active_listings ≡ s.active_listings)

  abbrev pub KeepsAuctions : Type 0
  KeepsAuctions = (s'.auction ≡ s.auction) × (s'.active_auctions ≡ s.active_auctions)
