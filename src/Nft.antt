-- ===== src/Nft.antt =====
-- contracts/commitment_nft/src/lib.rs: the tokens that represent commitments.
pub mod Types
pub mod Id
pub mod Store
pub mod Tokens
pub mod Contract
pub mod Effects
pub mod Invariant
pub mod Preserved
pub mod Setup
pub mod Reachable
pub mod Life
pub mod Balances
pub mod Views
pub mod Tests
