-- ===== src/Settlement/Tests.antt =====
-- A concrete bank and worker module, a store and messages on which the theorems are applied.
pub mod Bank
mod Money
mod Checks
mod Verification
mod Upkeep
mod Epoch
