-- ===== src/Settlement/Fees.antt =====
-- x/settlement/keeper/keeper.go, per-token billing: the fee of a task and the token counts that it
-- is charged for. uint32 and uint64 arithmetic wraps, as in the source.
pub mod Fee
pub mod Median
pub mod Tokens
