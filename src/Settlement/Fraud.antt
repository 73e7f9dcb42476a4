-- ===== src/Settlement/Fraud.antt =====
-- `ProcessFraudProof` (keeper.go): two contradicting commitments, both signed by the worker, mark a
-- task for good, take back the executor's fee and slash and tombstone the worker.
use funai_chain.Base.{
  ℤ, pos, negsuc, ℕ, ◌+◌, ◌*◌, ◌/◌, Bool, false, true, not, ◌||◌, ◌&&◌, ltb, ◌==◌, if◌then◌else◌,
  Option, none, some, lookup, is_some,
}
use funai_chain.Base.Result.{Result, ok, err}
use funai_chain.Settlement.Params.{Params}
use funai_chain.Settlement.Types.{
  SettledTask, PendingTask, TaskStatus, MsgFraudProof, Error, settled, fraud, fraud_marked,
  bad_address, no_footprint, worker_mismatch, window_expired, wrong_reporter, bad_pubkey,
  bad_signature, no_contradiction,
}
use funai_chain.Settlement.Store.{
  Context, Store, get_settled_task, set_settled_task, get_second_verification_pending,
  has_fraud_mark, set_fraud_mark, get_params,
}
pub mod Final

-- What the chain knows of a task, the first of these that it has.
pub data Footprint : Type 0 where
  of_settled : SettledTask → Footprint
  of_pending : PendingTask → Footprint
  of_frozen : ℕ → Footprint

abbrev pub is_settled : TaskStatus → Bool
is_settled settled = true
is_settled _ = false

-- The fee of a task, where it is positive.
abbrev pub fee_or_zero : ℤ → ℕ
fee_or_zero (pos n) = n
fee_or_zero (negsuc n) = 0

module _ {S : Type 0} (c : Context S) where
  abbrev pub footprint : ℕ → Store S → Option Footprint
  footprint id s = elim (get_settled_task id s) [
    | some st ↦ some (of_settled st)
    | none ↦ elim (get_second_verification_pending id s) [
      | some apt ↦ some (of_pending apt)
      | none ↦ elim (lookup id s.frozen) [ none ↦ none | some amount ↦ some (of_frozen amount) ]
    ]
  ]

  -- The window and the reporter, where the record has a height and a user.
  abbrev pub check_binding : ℕ → ℕ → MsgFraudProof → Params → Option Error
  check_binding since user msg params =
      if ltb 0 since && ltb (since + params.fraud_window_blocks) c.height
      then some window_expired
      else if not (user == 0) && not (user == msg.reporter)
      then some wrong_reporter
      else none

  abbrev pub check_footprint : MsgFraudProof → Params → Footprint → Option Error
  check_footprint msg params (of_settled st) =
      if not (st.worker_address == 0) && not (st.worker_address == msg.worker_address)
      then some worker_mismatch
      else check_binding st.settled_at st.user_address msg params
  check_footprint msg params (of_pending apt) =
      check_binding apt.submitted_at apt.user_address msg params
  check_footprint msg params (of_frozen amount) = none

  -- Both payloads hash the task id with the committed hash.
  unfoldable pub check_evidence : MsgFraudProof → ℕ → Store S → Option Error
  check_evidence msg worker s = elim (c.worker_pubkey s.outer worker) [
    | none ↦ some bad_pubkey
    | some str ↦ elim (c.decode_pubkey str) [
      | none ↦ some bad_pubkey
      | some key ↦
          if not (
            c.verify_signature key (c.pair_hash msg.task_id msg.receipt_result_hash)
              msg.worker_receipt_sig)
          then some bad_signature
          else if not (
              c.verify_signature key (c.pair_hash msg.task_id msg.received_output_hash)
                msg.worker_content_sig)
          then some bad_signature
          else if msg.receipt_result_hash == msg.received_output_hash
          then some no_contradiction
          else none
    ]
  ]

  -- The user of the task, if the spelling is sound, and otherwise the reporter.
  abbrev pub refund_to : SettledTask → Option ℕ → Option ℕ
  refund_to st reporter =
      let user : Option ℕ = elim (c.decode st.user_address) [ none ↦ reporter | some a ↦ some a ] in
      if st.user_address == 0 then reporter else user

  -- A refused transfer is only logged. A share that is not positive is not sent.
  abbrev pub claw_back : SettledTask → ℕ → Option ℕ → Params → S → S
  claw_back st worker reporter params o =
      let amount = fee_or_zero st.fee * params.executor_fee_ratio / 1000 in
      let sent : S = elim (refund_to st reporter) [
        | none ↦ o
        | some to ↦ elim (c.send o worker to amount) [ none ↦ o | some o' ↦ o' ]
      ] in
      if amount == 0 then o else sent

  abbrev pub undo_settlement : ℕ → Option ℕ → Params → Footprint → Store S → Store S
  undo_settlement worker reporter params (of_settled st) s =
      let marked = set_settled_task (record st { status = fraud }) s in
      if is_settled st.status
      then record marked { outer = claw_back st worker reporter params marked.outer }
      else s
  undo_settlement worker reporter params (of_pending apt) s = s
  undo_settlement worker reporter params (of_frozen amount) s = s

  abbrev pub punish : ℕ → Option ℕ → Store S → Store S
  punish worker reporter s =
      let slashed : S = elim reporter [
        | none ↦ c.slash_worker s.outer worker 5
        | some a ↦ c.slash_worker_to s.outer worker 5 a
      ] in
      record s { outer = c.tombstone_worker slashed worker }

  unfoldable pub accept_proof : MsgFraudProof → ℕ → Footprint → Store S → Store S
  accept_proof msg worker f s =
      let reporter = c.decode msg.reporter in
      punish worker reporter
        (undo_settlement worker reporter (get_params s) f (set_fraud_mark msg.task_id s))

  -- The checks behind the address and the footprint.
  unfoldable pub judge_proof : MsgFraudProof → ℕ → Footprint → Store S → Result Error (Store S)
  unfolding accept_proof
  judge_proof msg worker f s = elim (check_footprint msg (get_params s) f) [
    | some e ↦ err e
    | none ↦ elim (check_evidence msg worker s) [
      | some e ↦ err e
      | none ↦ ok (accept_proof msg worker f s)
    ]
  ]

  unfoldable pub process_fraud_proof : MsgFraudProof → Store S → Result Error (Store S)
  unfolding judge_proof
  process_fraud_proof msg s =
      let judged : Result Error (Store S) = elim (c.decode msg.worker_address) [
        | none ↦ err bad_address
        | some worker ↦ elim (footprint msg.task_id s) [
          | none ↦ err no_footprint
          | some f ↦ judge_proof msg worker f s
        ]
      ] in
      if has_fraud_mark msg.task_id s then err fraud_marked else judged
