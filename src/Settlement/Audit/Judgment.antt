-- ===== src/Settlement/Audit/Judgment.antt =====
-- `processAuditJudgment` (keeper.go): the second verifiers' majority decides over a task, or hands it
-- on to a third verification.
use funai_chain.Base.{
  pos, ℕ, ◌+◌, Bool, true, false, not, ◌&&◌, ◌||◌, ltb, leb, if◌then◌else◌, none, some, List, [],
  ◌∷◌, u32, u64,
}
use funai_chain.Base.Result.{Result, ok, map_ok}
use funai_chain.Settlement.Params.{Params}
use funai_chain.Settlement.Types.{
  PendingTask, SecondVerificationRecord, SettlementStatus, EpochStats, Error, is_success, is_fail,
  failed,
}
use funai_chain.Settlement.Store.{
  Context, Store, set_second_verification_pending, delete_second_verification_pending,
  set_settled_task, set_epoch_stats, current_third_verification_rate,
}
use funai_chain.Settlement.Trigger.{should_trigger}
use funai_chain.Settlement.Fees.Median.{median}
use funai_chain.Settlement.Fees.Tokens.{effective_tolerance, delta}
use funai_chain.Settlement.Account.{unfreeze_balance}
use funai_chain.Settlement.Audit.Settle.{
  settle_audited_task, jail_where, jail_address, jail_worker_and_verifiers, jail_fail_verifiers,
  if_pass, outcome_of,
}

abbrev pub pass_count : List Bool → ℕ
pass_count [] = 0
pass_count (r ∷ rs) = let rest = pass_count rs in if r then u32 (rest + 1) else rest

-- Whether the second verifiers' reports contradict the output tokens that were charged.
unfoldable pub is_token_fraud : PendingTask → SecondVerificationRecord → Params → Bool
unfolding median effective_tolerance
is_token_fraud apt ar params =
    let reported = median ar.second_verifier_output_tokens in
    let tol =
      effective_tolerance apt.settled_output_tokens params.token_count_tolerance
        params.token_count_tolerance_pct in
    params.per_token_billing_enabled
    && ltb 0 apt.fee_per_output_token
    && ltb 0 reported
    && ltb 0 apt.settled_output_tokens
    && ltb tol (delta apt.settled_output_tokens reported)

-- The overturns and failures that the branches of a second verification count.
abbrev pub count_judgment : SettlementStatus → Bool → EpochStats → EpochStats
count_judgment status pass stats =
    let overturned = is_success status && not pass || is_fail status && pass in
    let one : EpochStats =
      if overturned
      then record stats { audit_overturn = u64 (stats.audit_overturn + 1) }
      else stats in
    if is_success status && pass || is_fail status && pass
    then one
    else record one { audit_fail = u64 (one.audit_fail + 1) }

module _ {S : Type 0} (c : Context S) where
  -- The votes of the first round are not handed on.
  abbrev pub third_pending_of : PendingTask → PendingTask
  third_pending_of apt = record apt {
    submitted_at = c.height;
    verifier_votes = [];
    is_third_verification = true;
  }

  abbrev pub hand_on : PendingTask → SecondVerificationRecord → EpochStats → Store S → Store S
  hand_on apt ar stats s = set_epoch_stats stats (
      delete_second_verification_pending ar.task_id false
        (set_second_verification_pending (third_pending_of apt) s))

  -- The task fails, nobody pays and nobody is paid.
  abbrev pub fail_unpaid : PendingTask → Store S → Store S
  fail_unpaid apt s = set_settled_task (outcome_of c apt failed (pos 0)) s

  unfoldable pub release : PendingTask → Store S → Store S
  release apt s = elim (c.decode apt.user_address) [
    | none ↦ s
    | some user ↦ unfreeze_balance c user apt.task_id s
  ]

  -- The worker and the verifiers who passed the task are jailed.
  unfoldable pub jail_contradicted : PendingTask → Store S → Store S
  jail_contradicted apt s = record s {
    outer =
        jail_where c if_pass apt.verifier_addresses apt.verifier_votes
          (jail_address c apt.worker_address s.outer);
  }

  -- What is written before the second settlement.
  unfoldable pub close_contradicted :
      PendingTask → SecondVerificationRecord → EpochStats → Store S → Store S
  close_contradicted apt ar stats s =
      set_epoch_stats (record stats { audit_overturn = u64 (stats.audit_overturn + 1) })
        (delete_second_verification_pending ar.task_id apt.is_third_verification
          (fail_unpaid apt (jail_contradicted apt (release apt s))))

  -- The task is settled once more as a failure, at the second verifiers' token count.
  unfoldable pub resettle :
      PendingTask
      → SecondVerificationRecord
      → Params
      → EpochStats
      → Store S
      → Result Error (Store S)
  resettle apt ar params stats s =
      map_ok (λ r. r.0)
        (settle_audited_task c apt false false params (median ar.second_verifier_output_tokens)
          (close_contradicted apt ar stats s))

  -- What becomes of the task, and whether it is settled for good.
  unfoldable pub conclude : PendingTask → Bool → Params → Store S → Result Error (Store S × Bool)
  conclude apt pass params s =
      let as_success = settle_audited_task c apt true false params 0 s in
      let as_fail = settle_audited_task c apt false false params 0 s in
      if is_success apt.original_status && pass
      then as_success
      else if is_success apt.original_status
      then ok (fail_unpaid apt (jail_worker_and_verifiers c apt s), true)
      else if is_fail apt.original_status && pass
      then map_ok (λ r. (jail_fail_verifiers c apt r.0, r.1)) as_success
      else as_fail

  unfoldable pub judge_second :
      PendingTask
      → SecondVerificationRecord
      → Params
      → EpochStats
      → Store S
      → Result Error (Store S)
  unfolding conclude resettle is_token_fraud
  judge_second apt ar params stats s =
      let pass = leb params.second_verification_match_threshold (pass_count ar.results) in
      let counted = count_judgment apt.original_status pass stats in
      let concluded =
        map_ok
          (λ r.
            let noted = set_epoch_stats counted r.0 in
            if r.1 then delete_second_verification_pending ar.task_id false noted else noted)
          (conclude apt pass params s) in
      if should_trigger c ar.task_id (current_third_verification_rate s)
      then ok (hand_on apt ar stats s)
      else if pass && is_token_fraud apt ar params
      then resettle apt ar params stats s
      else concluded
