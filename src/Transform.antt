-- ===== src/Transform.antt =====
-- contracts/commitment_transformation/src/lib.rs: tranches, collateral, instruments and guarantees of
-- commitments.
pub mod Types
pub mod Store
pub mod Tranches
pub mod Records
pub mod Shares
pub mod Sets
pub mod Tests
