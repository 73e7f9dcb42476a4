-- ===== src/ModelReg.antt =====
-- x/modelreg: the register of models.
pub mod Types
pub mod Index
pub mod Keeper
pub mod Message
pub mod Basic
pub mod Keys
pub mod Preimage
pub mod Sound
pub mod Kept
pub mod Refresh
pub mod Run
mod Tests
