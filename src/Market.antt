-- ===== src/Market.antt =====
-- contracts/commitment_marketplace/src/lib.rs: listings, offers and auctions of commitment NFTs.
pub mod Types
pub mod Store
pub mod Listings
pub mod Offers
pub mod Auctions
pub mod Contract
pub mod Payments
pub mod Keeps
pub mod Invariant
pub mod Preserved
pub mod Found
pub mod Kept
pub mod Reachable
pub mod Bidding
pub mod Trade
pub mod Views
pub mod Escrow
pub mod Tests
pub mod Solvency
