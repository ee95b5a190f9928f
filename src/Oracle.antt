-- ===== src/Oracle.antt =====
-- contracts/price_oracle/src/lib.rs: prices that whitelisted oracles publish, and who may read them when.
pub mod Types
pub mod Store
pub mod Prices
pub mod Contract
pub mod Life
pub mod Consumers
pub mod Tests
