-- ===== src/System.antt =====
-- The stream contract and the vault together: the calls of contracts/stream/src/vault_client.rs
-- reach contracts/vault/src/lib.rs.
pub mod Deployment
pub mod Steps
pub mod Strangers
pub mod Payments
pub mod Solvency
pub mod Available
pub mod Blocked
pub mod Cancelling
pub mod Creating
pub mod Conservation
pub mod Backing
pub mod Flow
pub mod Transfers
pub mod Settling
pub mod Widths
pub mod Outcomes
mod Tests
