-- ===== src/Settlement/Basic.antt =====
-- `ValidateBasic` of the messages (x/settlement/types/msgs.go): what is checked before a handler runs.
-- Epochs are not negative here, and the denomination of a coin is well formed.
use funai_chain.Base.{
  ℕ, not, Bool, ◌==◌, ltb, if◌then◌else◌, Option, none, some, List, [], ◌∷◌, length, is_some, u32,
}
use funai_chain.Settlement.Types.{
  Coin, default_denom, Error, bad_address, insufficient_balance, wrong_denom, invalid_settlement,
  bad_signature, MsgBatchSettlement, MsgBatchReserve, MsgFraudProof, MsgSecondVerificationResult,
}
use funai_chain.Settlement.Store.{Context}
use funai_chain.Settlement.Audit.Batched.{SecondVerificationBatchEntry}

abbrev pub max_batch_settlement_entries : ℕ
max_batch_settlement_entries = 1300

abbrev pub max_second_verification_batch_entries : ℕ
max_second_verification_batch_entries = 256

-- The first check that fails.
infixr 4 ◌else_check◌
abbrev pub ◌else_check◌ : Bool × Error → Option Error → Option Error
failed else_check rest = if failed.0 then some failed.1 else rest

module _ {S : Type 0} (c : Context S) where
  abbrev is_malformed : ℕ → Bool
  is_malformed str = not (is_some (c.decode str))

  -- The same for a deposit and a withdrawal.
  unfoldable pub validate_transfer : ℕ → Coin → Option Error
  validate_transfer creator amount =
      (is_malformed creator, bad_address)
      else_check (amount.amount == 0, insufficient_balance)
      else_check (not (amount.denom == default_denom), wrong_denom)
      else_check none

  unfoldable pub validate_batch_settlement : MsgBatchSettlement → Option Error
  validate_batch_settlement m =
      (is_malformed m.proposer, bad_address)
      else_check (m.merkle_root == 0, invalid_settlement)
      else_check (length m.entries == 0, invalid_settlement)
      else_check (ltb max_batch_settlement_entries (length m.entries), invalid_settlement)
      else_check (m.proposer_sig == 0, bad_signature)
      else_check (not (m.result_count == u32 (length m.entries)), invalid_settlement)
      else_check none

  unfoldable pub validate_batch_reserve : MsgBatchReserve → Option Error
  validate_batch_reserve m =
      (is_malformed m.proposer, bad_address)
      else_check (m.merkle_root == 0, invalid_settlement)
      else_check (length m.entries == 0, invalid_settlement)
      else_check (m.proposer_sig == 0, bad_signature)
      else_check (not (m.result_count == u32 (length m.entries)), invalid_settlement)
      else_check none

  -- `byte_length` is `len` of a byte string.
  unfoldable pub validate_fraud_proof : (ℕ → ℕ) → MsgFraudProof → Option Error
  validate_fraud_proof byte_length m =
      (is_malformed m.reporter, bad_address)
      else_check (not (byte_length m.task_id == 32), invalid_settlement)
      else_check (is_malformed m.worker_address, bad_address)
      else_check (not (byte_length m.receipt_result_hash == 32), invalid_settlement)
      else_check (m.worker_receipt_sig == 0, bad_signature)
      else_check (not (byte_length m.received_output_hash == 32), invalid_settlement)
      else_check (m.worker_content_sig == 0, bad_signature)
      else_check none

  unfoldable pub validate_second_result : MsgSecondVerificationResult → Option Error
  validate_second_result m =
      (is_malformed m.second_verifier, bad_address)
      else_check (m.task_id == 0, invalid_settlement)
      else_check (m.logits_hash == 0, invalid_settlement)
      else_check none

  abbrev pub validate_batch_entries : List SecondVerificationBatchEntry → Option Error
  validate_batch_entries [] = none
  validate_batch_entries (e ∷ es) =
      (is_malformed e.second_verifier, bad_address)
      else_check (e.task_id == 0, invalid_settlement)
      else_check (e.logits_hash == 0, invalid_settlement)
      else_check (e.signature == 0, invalid_settlement)
      else_check validate_batch_entries es

  unfoldable pub validate_second_result_batch : ℕ → List SecondVerificationBatchEntry → Option Error
  validate_second_result_batch proposer entries =
      (is_malformed proposer, bad_address)
      else_check (length entries == 0, invalid_settlement)
      else_check (ltb max_second_verification_batch_entries (length entries), invalid_settlement)
      else_check validate_batch_entries entries
