-- ===== src/Settlement/Batch.antt =====
-- x/settlement/keeper/keeper.go, `ProcessBatchSettlement`.
pub mod Entry
pub mod Charge
pub mod Settle
pub mod Message
pub mod Keeps
pub mod Solvent
pub mod Safety
