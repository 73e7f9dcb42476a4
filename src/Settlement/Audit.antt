-- ===== src/Settlement/Audit.antt =====
-- x/settlement/keeper/keeper.go, the second verification of a task: results, judgment and
-- settlement.
pub mod Settle
pub mod Judgment
pub mod Third
pub mod Results
pub mod Overturn
pub mod Solvent
pub mod Safety
pub mod Judged
pub mod Taken
pub mod Waiting
pub mod Fund
pub mod Batched
