-- ===== src/Worker.antt =====
-- x/worker: the register of workers, with their stakes, jail terms and reputation.
pub mod Types
pub mod Keeper
pub mod Jail
pub mod Reputation
pub mod Message
pub mod Change
pub mod Run
pub mod Rounds
pub mod Discipline
pub mod Validators
pub mod Queries
pub mod Tests
