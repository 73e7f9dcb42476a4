-- ===== src/Settlement/Types.antt =====
-- x/settlement/types/settlement.go and msgs.go: the records that the settlement module stores and
-- the messages that it handles. An `sdk.Coin` in a message is an amount with its denomination; what
-- is stored is in ufai, so only the amount is kept. The fees of an entry for settlement, and what
-- is stored of them, may be negative: no check of the source looks at their sign. Heights (int64) are taken as not negative.
use funai_chain.Base.{ℕ, ℤ, Bool, true, false, ◌&&◌, ltb, List}

-- `DefaultDenom`, "ufai", as the number that stands for it.
abbrev pub default_denom : ℕ
default_denom = 1

pub record Coin : Type 0 where
  pub denom : ℕ
  pub amount : ℕ

-- A coin of a message whose sign nothing checks.
pub record SignedCoin : Type 0 where
  pub denom : ℕ
  pub amount : ℤ

-- The errors that the handlers return, by kind.
pub data Error : Type 0 where
  wrong_denom insufficient_balance account_not_found invalid_settlement fraud_marked : Error
  bad_address no_footprint worker_mismatch window_expired wrong_reporter bad_pubkey : Error
  bad_signature no_contradiction no_pending expired original_verifier duplicate : Error
  send_failed : Error

pub data TaskStatus : Type 0 where
  pending settled fraud fail_settled verified cleared pending_second_verification : TaskStatus
  pending_third_verification failed : TaskStatus

-- A uint32 in the message: the handlers treat every value but 0 as a failure.
pub data SettlementStatus : Type 0 where
  success fail : SettlementStatus
  other : ℕ → SettlementStatus

abbrev pub is_success : SettlementStatus → Bool
is_success success = true
is_success _ = false

abbrev pub is_fail : SettlementStatus → Bool
is_fail fail = true
is_fail _ = false

pub record InferenceAccount : Type 0 where
  pub address : ℕ
  pub balance : ℕ
  pub frozen_balance : ℕ

pub record VerifierResult : Type 0 where
  pub address : ℕ
  pub pass : Bool
  pub signature : ℕ
  pub logits_hash : ℕ
  pub verified_input_tokens : ℕ
  pub verified_output_tokens : ℕ

pub record SettlementEntry : Type 0 where
  pub task_id : ℕ
  pub user_address : ℕ
  pub worker_address : ℕ
  pub verifier_results : List VerifierResult
  pub fee : SignedCoin
  pub status : SettlementStatus
  pub expire_block : ℕ
  pub model_id : ℕ
  pub latency_ms : ℕ
  pub user_sig_hash : ℕ
  pub worker_sig_hash : ℕ
  pub verify_sig_hashes : List ℕ
  pub result_count : ℕ
  pub fee_per_input_token : ℕ
  pub fee_per_output_token : ℕ
  pub max_fee : SignedCoin
  pub worker_input_tokens : ℕ
  pub worker_output_tokens : ℕ
  pub dispatch_rank : ℕ
  pub accepted_at_ms : ℕ
  pub receipt_at_ms : ℕ

abbrev pub is_per_token : SettlementEntry → Bool
is_per_token e = ltb 0 e.fee_per_input_token && ltb 0 e.fee_per_output_token

pub record SettledTask : Type 0 where
  pub task_id : ℕ
  pub status : TaskStatus
  pub expire_block : ℕ
  pub settled_at : ℕ
  pub worker_address : ℕ
  pub original_verifiers : List ℕ
  pub fee : ℤ
  pub user_address : ℕ

pub record BatchRecord : Type 0 where
  pub batch_id : ℕ
  pub proposer : ℕ
  pub merkle_root : ℕ
  pub result_count : ℕ
  pub total_fees : ℕ
  pub settled_at : ℕ

pub record SecondVerificationRecord : Type 0 where
  pub task_id : ℕ
  pub epoch : ℕ
  pub second_verifier_addresses : List ℕ
  pub results : List Bool
  pub processed_at : ℕ
  pub second_verifier_input_tokens : List ℕ
  pub second_verifier_output_tokens : List ℕ

pub record PendingTask : Type 0 where
  pub task_id : ℕ
  pub original_status : SettlementStatus
  pub submitted_at : ℕ
  pub user_address : ℕ
  pub worker_address : ℕ
  pub verifier_addresses : List ℕ
  pub verifier_votes : List Bool
  pub fee : ℤ
  pub expire_block : ℕ
  pub is_third_verification : Bool
  pub fee_per_input_token : ℕ
  pub fee_per_output_token : ℕ
  pub max_fee : ℤ
  pub settled_output_tokens : ℕ
  pub settled_input_tokens : ℕ

pub record EpochStats : Type 0 where
  pub epoch : ℕ
  pub total_settled : ℕ
  pub fail_settled : ℕ
  pub second_verification_total : ℕ
  pub audit_fail : ℕ
  pub audit_overturn : ℕ
  pub third_verification_total : ℕ
  pub third_verification_overturn : ℕ
  pub total_fees : ℕ
  pub second_verification_person_count : ℕ
  pub verification_count : ℕ

abbrev pub default_epoch_stats : ℕ → EpochStats
default_epoch_stats n = record {
  epoch = n;
  total_settled = 0;
  fail_settled = 0;
  second_verification_total = 0;
  audit_fail = 0;
  audit_overturn = 0;
  third_verification_total = 0;
  third_verification_overturn = 0;
  total_fees = 0;
  second_verification_person_count = 0;
  verification_count = 0;
}

pub record FrozenTaskMeta : Type 0 where
  pub task_id : ℕ
  pub user_address : ℕ
  pub worker_address : ℕ
  pub max_fee : ℕ
  pub expire_block : ℕ

pub record TokenMismatchRecord : Type 0 where
  pub worker_address : ℕ
  pub verifier_address : ℕ
  pub total_tasks : ℕ
  pub mismatch_count : ℕ

pub record ReserveEntry : Type 0 where
  pub task_id : ℕ
  pub user_address : ℕ
  pub max_fee : Coin
  pub expire_block : ℕ

pub record MsgBatchSettlement : Type 0 where
  pub proposer : ℕ
  pub merkle_root : ℕ
  pub entries : List SettlementEntry
  pub proposer_sig : ℕ
  pub result_count : ℕ

pub record MsgBatchReserve : Type 0 where
  pub proposer : ℕ
  pub merkle_root : ℕ
  pub entries : List ReserveEntry
  pub proposer_sig : ℕ
  pub result_count : ℕ

pub record MsgFraudProof : Type 0 where
  pub reporter : ℕ
  pub task_id : ℕ
  pub worker_address : ℕ
  pub receipt_result_hash : ℕ
  pub worker_receipt_sig : ℕ
  pub received_output_hash : ℕ
  pub worker_content_sig : ℕ

pub record MsgSecondVerificationResult : Type 0 where
  pub second_verifier : ℕ
  pub task_id : ℕ
  pub epoch : ℕ
  pub pass : Bool
  pub logits_hash : ℕ
  pub verified_input_tokens : ℕ
  pub verified_output_tokens : ℕ
