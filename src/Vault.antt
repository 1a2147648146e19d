-- ===== src/Vault.antt =====
-- The vault contract, contracts/vault/src: the custodian of the tokens locked in streams.
pub mod Types
pub mod Storage
pub mod Contract
pub mod Effects
pub mod Accounting
pub mod Invariant
pub mod Steps
pub mod Custody
pub mod Access
pub mod Lifetimes
pub mod Lasting
pub mod Expiry
pub mod Log
pub mod Book
pub mod Simulation
pub mod Refinement
mod Tests
pub mod Payout
