-- ===== src/Settlement/Fraud/Final.antt =====
-- What an accepted fraud proof needs, and that its mark is final.
use funai_chain.Base.{
  ℕ, ◌≡◌, ◌≢◌, inl, inr, true, false, none, some, arith, Option-cases, Bool-cases,
  lookup-insert_self, ◌==◌,
}
use funai_chain.Base.Result.{ok}
use funai_chain.Settlement.Params.{Params}
use funai_chain.Settlement.Types.{MsgFraudProof}
use funai_chain.Settlement.Store.{Context, Store, has_fraud_mark, get_params}
use funai_chain.Settlement.Fraud.{
  Footprint, of_settled, of_pending, of_frozen, footprint, check_footprint, check_evidence,
  accept_proof, judge_proof, process_fraud_proof,
}

module _ {S : Type 0} (c : Context S) where
  -- An accepted proof passed every check.
  process_fraud_proof_parts :
      (msg : MsgFraudProof) (s t : Store S)
      → process_fraud_proof c msg s ≡ ok t
      → (worker : ℕ) × (f : Footprint) × (has_fraud_mark msg.task_id s ≡ false)
        × (c.decode msg.worker_address ≡ some worker)
        × (footprint c msg.task_id s ≡ some f)
        × (check_footprint c msg (get_params s) f ≡ none)
        × (check_evidence c msg worker s ≡ none)
        × (t ≡ accept_proof c msg worker f s)
  unfolding process_fraud_proof judge_proof
  process_fraud_proof_parts msg s t e = elim (Bool-cases (has_fraud_mark msg.task_id s)) [
    | inl marked ↦ ground arith
    | inr unmarked ↦ elim (Option-cases (c.decode msg.worker_address)) [
      | inl malformed ↦ ground arith
      | inr (worker, known) ↦ elim (Option-cases (footprint c msg.task_id s)) [
        | inl nothing ↦ ground arith
        | inr (f, seen) ↦ elim (Option-cases (check_footprint c msg (get_params s) f)) [
          | inr (x, refused) ↦ ground arith
          | inl bound ↦ elim (Option-cases (check_evidence c msg worker s)) [
            | inr (x, refused) ↦ ground arith
            | inl proven ↦ (worker, f, unmarked, known, seen, bound, proven, ground arith)
          ]
        ]
      ]
    ]
  ]

  evidence-none :
      (msg : MsgFraudProof) (worker : ℕ) (s : Store S)
      → check_evidence c msg worker s ≡ none
      → (str : ℕ) × (key : ℕ) × (c.worker_pubkey s.outer worker ≡ some str)
        × (c.decode_pubkey str ≡ some key)
        × (c.verify_signature key
              (c.pair_hash msg.task_id msg.receipt_result_hash)
              msg.worker_receipt_sig
            ≡ true)
        × (c.verify_signature key
              (c.pair_hash msg.task_id msg.received_output_hash)
              msg.worker_content_sig
            ≡ true)
        × ((msg.receipt_result_hash == msg.received_output_hash) ≡ false)
  unfolding check_evidence
  evidence-none msg worker s e = elim (Option-cases (c.worker_pubkey s.outer worker)) [
    | inl unknown ↦ ground arith
    | inr (str, known) ↦ elim (Option-cases (c.decode_pubkey str)) [
      | inl malformed ↦ ground arith
      | inr (key, sound) ↦ (str, key, known, sound, ground arith, ground arith, ground arith)
    ]
  ]

  marked-accept_proof :
      (msg : MsgFraudProof) (worker : ℕ) (f : Footprint) (s : Store S)
      → has_fraud_mark msg.task_id (accept_proof c msg worker f s) ≡ true
  unfolding accept_proof
  marked-accept_proof msg worker (of_settled st) s =
      ground (arith, lookup-insert_self msg.task_id tt s.fraud_marks)
  marked-accept_proof msg worker (of_pending apt) s =
      ground (arith, lookup-insert_self msg.task_id tt s.fraud_marks)
  marked-accept_proof msg worker (of_frozen amount) s =
      ground (arith, lookup-insert_self msg.task_id tt s.fraud_marks)

  -- A proof is accepted only for a task that is not marked yet and that the chain knows, with two
  -- signatures that the key of the accused worker verifies over different hashes of that task; the
  -- task is marked then.
  pub process_fraud_proof_ok :
      (msg : MsgFraudProof) (s t : Store S)
      → process_fraud_proof c msg s ≡ ok t
      → (has_fraud_mark msg.task_id s ≡ false)
        × ((f : Footprint) × (footprint c msg.task_id s ≡ some f))
        × ((worker : ℕ) × (str : ℕ) × (key : ℕ) × (c.decode msg.worker_address ≡ some worker)
            × (c.worker_pubkey s.outer worker ≡ some str)
            × (c.decode_pubkey str ≡ some key)
            × (c.verify_signature key
                  (c.pair_hash msg.task_id msg.receipt_result_hash)
                  msg.worker_receipt_sig
                ≡ true)
            × (c.verify_signature key
                  (c.pair_hash msg.task_id msg.received_output_hash)
                  msg.worker_content_sig
                ≡ true)
            × (msg.receipt_result_hash ≢ msg.received_output_hash))
        × (has_fraud_mark msg.task_id t ≡ true)
  process_fraud_proof_ok msg s t e =
      let (worker, f, fresh, known, seen, bound, proven, written) =
        process_fraud_proof_parts msg s t e in
      let (str, key, there, sound, first, second, differ) = evidence-none msg worker s proven in
      (
        fresh,
        (f, seen),
        (worker, str, key, known, there, sound, first, second, λ same. ground arith),
        rw written (marked-accept_proof msg worker f s),
      )
