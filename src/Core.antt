-- ===== src/Core.antt =====
-- contracts/commitment_core/src/lib.rs: the commitment lifecycle contract.
pub mod Tests
pub mod Types
pub mod Id
pub mod Store
pub mod Lifecycle
pub mod Governance
pub mod Contract
pub mod Effects
pub mod Creation
pub mod Invariant
pub mod StateMachine
pub mod Views
pub mod Guards
