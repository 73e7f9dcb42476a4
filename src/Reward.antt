-- ===== src/Reward.antt =====
-- x/reward: the block reward that halves, and its distribution at the end of an epoch.
pub mod Types
pub mod Schedule
pub mod Payment
pub mod Pools
pub mod Supply
pub mod Rounding
pub mod Exact
pub mod Tests
