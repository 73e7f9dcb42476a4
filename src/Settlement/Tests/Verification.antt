-- ===== src/Settlement/Tests/Verification.antt =====
-- The theorems about second verification and fraud proofs, at the fixtures' bank.
use funai_chain.Base.{
  pos, Bool-cases, ◌==◌, inl, inr, ℕ, ◌≡◌, ◌≢◌, Bool, true, false, none, some, [], ◌∷◌, lookup,
  arith, refl,
}
use funai_chain.Base.Result.{Result, ok, err, panic}
use funai_chain.Settlement.Params.{Params, default_params}
use funai_chain.Settlement.Types.{
  PendingTask, SecondVerificationRecord, MsgSecondVerificationResult, MsgFraudProof, SettledTask,
  failed, Error,
}
use funai_chain.Settlement.Store.{Store, has_fraud_mark, current_third_verification_rate}
use funai_chain.Settlement.Trigger.{should_trigger}
use funai_chain.Settlement.Batch.Entry.{pending_of}
use funai_chain.Settlement.Fraud.{
  Footprint, footprint, process_fraud_proof, judge_proof, check_evidence, accept_proof,
}
use funai_chain.Settlement.Fraud.Final.{process_fraud_proof_ok}
use funai_chain.Settlement.Audit.Settle.{jail_where, settle_audited_task}
use funai_chain.Settlement.Audit.Judgment.{judge_second, conclude}
use funai_chain.Settlement.Audit.Third.{process_audit_judgment}
use funai_chain.Settlement.Audit.Overturn.{process_audit_judgment_overturned, jail_all}
use funai_chain.Settlement.Audit.Solvent.{HasCharges}
use funai_chain.Settlement.Audit.Results.{
  process_second_verification_result, take_result, note_result,
}
use funai_chain.Settlement.Account.{unfreeze_balance}
use funai_chain.Settlement.Account.Solvent.{IsSolvent}
use funai_chain.Settlement.Payout.{
  distribute_success_fee, pay_verifiers, pay_verifier, pay_executor, dedup_verifier_results,
  dedup_from,
}
use funai_chain.Settlement.Audit.Settle.{settle_found, base_fee, settle_as_success}
use funai_chain.Settlement.Audit.Taken.{process_second_verification_result-IsSolvent}
use funai_chain.Settlement.Tests.Bank.{
  Book, bank, store, entry, store-IsSolvent, bank-laws, keeper-laws,
}

abbrev store_of : Result Error (Store Book) → Store Book
store_of (ok t) = t
store_of (err e) = store
store_of panic = store

-- Worker 20, whose key is 120, signed the hashes 5 and 6 for task 77.
abbrev proof : MsgFraudProof
proof = record {
  reporter = 11;
  task_id = 77;
  worker_address = 21;
  receipt_result_hash = 5;
  worker_receipt_sig = 6921;
  received_output_hash = 6;
  worker_content_sig = 7086;
}

abbrev proven : Store Book
proven = store_of (process_fraud_proof bank proof store)

proof_succeeds : process_fraud_proof bank proof store ≡ ok proven
unfolding process_fraud_proof judge_proof check_evidence accept_proof
proof_succeeds = refl

process_fraud_proof_ok_example :
    (has_fraud_mark 77 store ≡ false)
    × ((f : Footprint) × (footprint bank 77 store ≡ some f))
    × ((worker : ℕ) × (str : ℕ) × (key : ℕ) × (bank.decode 21 ≡ some worker)
        × (bank.worker_pubkey store.outer worker ≡ some str)
        × (bank.decode_pubkey str ≡ some key)
        × (bank.verify_signature key (bank.pair_hash 77 5) 6921 ≡ true)
        × (bank.verify_signature key (bank.pair_hash 77 6) 7086 ≡ true)
        × (proof.receipt_result_hash ≢ proof.received_output_hash))
    × (has_fraud_mark 77 proven ≡ true)
process_fraud_proof_ok_example = process_fraud_proof_ok bank proof store proven proof_succeeds

-- Task 77 waits for its second verification, with two of three results.
abbrev waiting : PendingTask
waiting = pending_of bank entry

abbrev results : SecondVerificationRecord
results = record {
  task_id = 77;
  epoch = 10;
  second_verifier_addresses = 41 ∷ 42 ∷ [];
  results = true ∷ false ∷ [];
  processed_at = 1000;
  second_verifier_input_tokens = 9 ∷ 9 ∷ [];
  second_verifier_output_tokens = 90 ∷ 90 ∷ [];
}

abbrev pub waiting_store : Store Book
waiting_store = record store { second_pending = (77, waiting) ∷ []; records = (77, results) ∷ [] }

abbrev pub result : MsgSecondVerificationResult
result = record {
  second_verifier = 43;
  task_id = 77;
  epoch = 10;
  pass = false;
  logits_hash = 1;
  verified_input_tokens = 9;
  verified_output_tokens = 90;
}

abbrev pub judged : Store Book
judged = store_of (process_second_verification_result bank result waiting_store)

pub judgment_succeeds : process_second_verification_result bank result waiting_store ≡ ok judged
unfolding process_second_verification_result take_result note_result process_audit_judgment
    judge_second should_trigger conclude jail_where
judgment_succeeds = refl

third_undrawn : should_trigger bank 77 (current_third_verification_rate waiting_store) ≡ false
unfolding should_trigger
third_undrawn = refl

process_audit_judgment_overturned_example :
    (t : Store Book) × (process_audit_judgment bank results default_params waiting_store ≡ ok t)
    × (t.outer ≡ jail_all bank (21 ∷ 31 ∷ 32 ∷ 33 ∷ []) waiting_store.outer)
    × ((st : SettledTask) × (lookup 77 t.settled ≡ some st)
        × (st.status ≡ failed)
        × (st.fee ≡ pos 0)
        × (st.worker_address ≡ 21))
    × (lookup 77 t.second_pending ≡ none)
    × (t.accounts ≡ waiting_store.accounts)
    × (t.frozen ≡ waiting_store.frozen)
process_audit_judgment_overturned_example =
    process_audit_judgment_overturned bank results default_params waiting_store waiting refl refl
      refl (omega arith) third_undrawn

waiting_store-IsSolvent : IsSolvent bank waiting_store
waiting_store-IsSolvent = record {
  keyed = store-IsSolvent.keyed;
  covered = store-IsSolvent.covered;
}

waiting_store-HasCharges : HasCharges waiting_store.second_pending
waiting_store-HasCharges id apt e = elim (Bool-cases (id == 77)) [
  | inl here ↦ ground (arith, here, e)
  | inr other ↦ ground (arith, other, e)
]

process_second_verification_result-IsSolvent_example : IsSolvent bank judged
process_second_verification_result-IsSolvent_example =
    process_second_verification_result-IsSolvent bank result waiting_store judged bank-laws
      keeper-laws (omega arith) waiting_store-HasCharges waiting_store-IsSolvent judgment_succeeds

abbrev settlement : Result Error (Store Book × Bool)
settlement = settle_audited_task bank waiting true false default_params 0 waiting_store

abbrev pair_of : Result Error (Store Book × Bool) → Store Book × Bool
pair_of (ok r) = r
pair_of (err e) = (store, false)
pair_of panic = (store, false)

settlement_succeeds : settlement ≡ ok (pair_of settlement)
unfolding settle_audited_task settle_found base_fee unfreeze_balance settle_as_success
    distribute_success_fee pay_verifiers pay_verifier pay_executor dedup_verifier_results dedup_from
settlement_succeeds = refl
