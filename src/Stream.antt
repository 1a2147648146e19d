-- ===== src/Stream.antt =====
-- The stream contract, contracts/stream/src: linear streaming of deposits that the vault holds.
pub mod Types
pub mod Math
pub mod Accrual
pub mod Withdrawable
pub mod Storage
pub mod VaultClient
pub mod Contract
pub mod Effects
pub mod CancelEffect
pub mod Entitled
pub mod VaultLaws
pub mod Solvency
pub mod CancelSolvency
pub mod Steps
pub mod Reach
mod Tests
pub mod Queries
pub mod Index
pub mod Listing
pub mod Pages
pub mod Pausing
pub mod Numbering
pub mod Verdict
pub mod Diagram
pub mod Lifecycle
pub mod History
pub mod Access
pub mod Configuration
pub mod Log
pub mod Available
pub mod Cancellable
pub mod Creatable
pub mod Overflow
pub mod Drain
pub mod Conservation
pub mod Lifetimes
pub mod Unchanged
pub mod Lasting
pub mod Expiry
