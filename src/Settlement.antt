-- ===== src/Settlement.antt =====
-- x/settlement: the module that holds the users' prepaid balances and settles inference tasks.
pub mod Params
pub mod Types
pub mod Fees
pub mod Store
pub mod Account
pub mod Payout
pub mod Mismatch
pub mod Trigger
pub mod Merkle
pub mod Batch
pub mod Audit
pub mod Fraud
pub mod Reserve
pub mod Upkeep
pub mod Basic
pub mod Tests
