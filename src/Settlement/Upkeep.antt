-- ===== src/Settlement/Upkeep.antt =====
-- x/settlement/keeper/keeper.go and module.go: what the end of a block does to tasks that are old: the
-- timeouts of verifications and of reservations, and the clean-up of settled tasks.
pub mod Timeouts
pub mod Frozen
pub mod Reserved
pub mod Solvent
pub mod Terminal
