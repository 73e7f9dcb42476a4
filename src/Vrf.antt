-- ===== src/Vrf.antt =====
-- x/vrf: the random draws.
pub mod Types
pub mod Rank
mod Lists
pub mod Keeper
pub mod Select
pub mod Leader
pub mod Committee
pub mod Run
pub mod Online
pub mod Drawn
pub mod Selected
pub mod Elected
pub mod Term
pub mod Seated
pub mod Seed
pub mod Sync
pub mod Reach
pub mod Trace
mod Tests
pub mod Order
