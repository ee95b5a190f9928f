-- ===== src/Shared.antt =====
-- The crate contracts/shared_utils: the helpers that every contract calls.
pub mod Tests
pub mod Outcome
pub mod Math
pub mod Fees
pub mod Time
pub mod Validation
pub mod RateLimiting
pub mod Switches
pub mod Collect
