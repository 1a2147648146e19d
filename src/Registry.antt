-- ===== src/Registry.antt =====
-- The registry contract, contracts/registry/src: an index of the streams with running statistics.
pub mod Types
pub mod Storage
pub mod Contract
pub mod Totals
pub mod Effects
pub mod Steps
pub mod Index
pub mod Statistics
pub mod Active
pub mod Available
pub mod Records
pub mod Drift
pub mod Lifetimes
pub mod Lasting
pub mod Late
mod Tests
