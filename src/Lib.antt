-- ===== src/Lib.antt =====
-- The chain of funai-chain: the settlement of inference tasks, and the workers that do them.
--
-- The repository has a chain application (app/, cmd/funaid) with five modules under x/, and off-chain
-- services under p2p/ and sdk/. This library models the five modules. x/settlement holds the users'
-- prepaid balances: a leader reserves fees (`ProcessBatchReserve`), a proposer submits batches of finished
-- tasks (`ProcessBatchSettlement`), some tasks are drawn by hash for a second or third verification
-- (`ProcessSecondVerificationResult`, `processAuditJudgment`, `settleAuditedTask`), and a user can
-- prove a contradiction of a worker (`ProcessFraudProof`). All of it is in
-- x/settlement/keeper/keeper.go unless another file is named. x/worker keeps the register of workers
-- with their stakes, and x/settlement asks it to jail, slash and credit them; what it does is in
-- x/worker/keeper/keeper.go and msg_server.go. x/reward mints the reward of each epoch and shares it
-- out (x/reward/keeper/keeper.go). x/vrf ranks workers by a hash and their stake, and draws leaders, a
-- committee and verifiers by it. x/modelreg keeps the models, who has installed each, and activates one
-- once enough stake, workers and operators have.
--
-- Which file models what:
--   Base           shared names, Boolean tests, dictionaries, lists, results
--   Settlement/Params      x/settlement/types/params.go: `Params`, `DefaultParams`, `Validate`
--   Settlement/Types       x/settlement/types/settlement.go and msgs.go: records and messages
--   Settlement/Store       the state as one dictionary per key prefix (x/settlement/types/keys.go),
--                          the getters and setters, and `Context`, what lies outside the module
--   Settlement/Fees        `CalculatePerTokenFee`, `medianUint32`, `ResolveTokenCounts`
--   Settlement/Account     `ProcessDeposit`, `ProcessWithdraw`, `FreezeBalance`, `UnfreezeBalance`
--   Settlement/Payout      `dedupVerifierResults`, `distributeSuccessFee`, `distributeFailFee`
--   Settlement/Mismatch    token mismatch pairs, `CalculateWorkerAuditBoost`, dishonest counts
--   Settlement/Trigger     `shouldTriggerSecondVerification`, `shouldTriggerThirdVerification`
--   Settlement/Merkle      x/settlement/keeper/da_client.go
--   Settlement/Batch       `ProcessBatchSettlement`: Entry (guards and the draw), Charge (the fee),
--                          Settle (the branches and the loop), Message (the checks, the bookkeeping)
--   Settlement/Audit       Settle, Judgment, Third and Results: from a second verifier's result to
--                          the settlement of the task; Batched, `ProcessSecondVerificationResultBatch`;
--                          Fund, `DistributeMultiVerificationFund`
--   Settlement/Fraud       `ProcessFraudProof`
--   Settlement/Reserve     `ProcessBatchReserve`
--   Settlement/Basic       `ValidateBasic` (x/settlement/types/msgs.go)
--   Settlement/Upkeep      timeouts and the clean-up at the end of a block
--   Worker/Types           x/worker/types: `Worker`, `Params`, the messages
--   Worker/Keeper          the stored workers and the model index, and `WorkerContext`, what lies
--                          outside the module
--   Worker/Jail            slashing, jail, release, tombstone, `ProcessExitingWorkers`
--   Worker/Reputation      the reputation score, `ReputationDecayAll`, `UpdateAvgLatency`
--   Worker/Message         x/worker/keeper/msg_server.go
--   Worker/Queries         the keeper's queries, and `ValidateBasic` (x/worker/types/msgs.go)
--   Worker/Validators      x/worker/module.go: `EndBlock`
--   Worker/Change          the kinds of change that the operations are made of, and what each keeps;
--                          its children show that every operation is such a change
--   Worker/Run             messages, calls and blocks in any order
--   Worker/Rounds, Worker/Discipline   the loops over all workers; jail terms and averages
--   Reward/Types, Reward/Schedule   x/reward/types; the reward of a block and of an epoch
--   Reward/Payment, Reward/Pools    the payment of shares; `DistributeRewards` and its loops
--   Reward/Supply          the supply over all epochs
--   Reward/Rounding, Reward/Exact   rounded shares; what an empty epoch mints
--   Vrf/Types              x/vrf/types: the parameters, the records, the messages
--   Vrf/Rank               x/vrf/types/vrf.go: scores and `RankWorkers`; `Floats` is its arithmetic
--   Vrf/Lists, Vrf/Order   permutations and distinct keys; the order of the ranking
--   Vrf/Keeper             the state, its getters and setters, the seed, genesis
--   Vrf/Select             `getOnlineWorkers` and the draws for a task
--   Vrf/Leader, Vrf/Committee   leaders and their timeouts; the committee
--   Vrf/Run                x/vrf/keeper/msg_server.go, `BeginBlock` (x/vrf/module.go)
--   Vrf/Sync               the callbacks of x/vrf into x/worker (app/app.go)
--   Vrf/Online, Vrf/Drawn, Vrf/Selected   whom a draw for a task names
--   Vrf/Elected, Vrf/Term  the leaders after `CheckLeaderTimeouts`
--   Vrf/Seated, Vrf/Seed   the members of a committee; the order of contributions to the seed
--   Vrf/Reach, Vrf/Trace   messages, blocks and draws in any order
--   ModelReg/Types         x/modelreg/types: the model, the parameters, the messages
--   ModelReg/Index         x/modelreg/types/keys.go, the index of installations, the hashed bytes
--   ModelReg/Keeper        x/modelreg/keeper/keeper.go; `ModelContext` is what lies outside it
--   ModelReg/Message, ModelReg/Basic   x/modelreg/keeper/msg_server.go; `ValidateBasic`
--   ModelReg/Keys, ModelReg/Preimage   what parsing a key finds; the bytes of an identifier
--   ModelReg/Sound, ModelReg/Kept      the order of the register, and that each operation keeps it
--   ModelReg/Refresh, ModelReg/Run     what a refresh writes; messages and calls in any order
--   Chain                  x/settlement over the keeper of x/worker (app/app.go)
--   Worker/Tests, Reward/Tests, Vrf/Tests, ModelReg/Tests   fixtures of the modules
--   Settlement/Tests       a concrete bank and store, at which the theorems are applied
--
-- How the code becomes definitions. A handler is a function from a store to a `Result` with the
-- store, an error, or a panic. A store that a `CacheContext` would drop is not returned; the
-- transaction of a message drops the store of an error or a panic (`transaction`). Byte strings,
-- addresses and their bech32 spellings are numbers, and 0 is the empty string. Coins have one denom
-- wherever the code has compared it, so amounts are numbers; only the fees of an entry for
-- settlement, whose sign no check looks at, and what is stored of them are integers (`ℤ`, Base/Int); `sdk.Int` is unbounded within the
-- range that the code reaches, and conversions to uint64 panic above it. uint32 and uint64
-- arithmetic wraps (`u32`, `u64`).
--
-- Behind `Context` stand the bank, the keeper of x/worker (filled in by Chain), x/modelreg, SHA-256,
-- the JSON of hashed records, bech32, secp256k1, and the formats of a public key
-- (x/settlement/types/pubkey.go). What a theorem needs of the bank is in `BankLaws`, of the other
-- modules in `KeeperLaws` (Settlement/Account/Solvent). The keepers are configured, as in app/app.go:
-- the nil checks of the code do not appear.
--
-- Behind `WorkerContext` stand the bank on the module's account, x/modelreg's notifications, bech32 and
-- the height of the block, which a run is free to choose for each step. `IsBacked` (Worker/Change) is
-- what the theorems need of them.
--
-- The bytes of a signed second result are a parameter (`Bytewise`, Settlement/Audit/Batched).
--
-- The SDK's decimals are a parameter of x/reward (`Decimals`), with the rounding of a quotient as a law
-- (`IsRounded`).
--
-- x/vrf has float64, big.Float and SHA-256 as a parameter (`Floats`), with the order of big.Float as
-- laws (`OrderLaws`); byte strings are lists there, `sort.Slice` is an insertion sort, and the order of a
-- Go map is any order. x/modelreg has float64 as a parameter (`Ratios`), and the bytes of an address or
-- an identifier behind `ModelContext`, with x/worker.
--
-- Loops are recursion on the list that they run over. Some run on a number: `exchange_sort` on the
-- length of the list, one round for each place; `collapse` of the Merkle tree on the number of leaves,
-- which is enough because a level halves it; `halved` on the number of halvings; `reward_from` on
-- the number of blocks; `xor_bits` and `len_bytes` on the number of bits and bytes.
--
-- Not modelled: events and logs, queries, genesis but that of x/vrf, codecs and command lines; the
-- epoch's rates and contributions; the gRPC queries; the services under p2p/ and the client library
-- under sdk/.
pub mod Base
pub mod Settlement
pub mod Worker
pub mod Chain
pub mod Reward
pub mod Vrf
pub mod ModelReg
