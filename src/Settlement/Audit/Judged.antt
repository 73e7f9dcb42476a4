-- ===== src/Settlement/Audit/Judged.antt =====
-- The judgment of a task as a whole (`processAuditJudgment`) keeps the module solvent.
use funai_chain.Base.{
  is_nonneg, some, ℕ, ◌+◌, ◌/◌, ◌≡◌, ◌&&◌, not, Bool, true, false, if◌then◌else◌, arith, refl,
  lookup, Bool-cases, Option-cases, inl, inr, ap, u64, leb,
}
use funai_chain.Base.Result.{ok, Result-cases}
use funai_chain.Settlement.Params.{Params, HasRatios}
use funai_chain.Settlement.Types.{PendingTask, SecondVerificationRecord, EpochStats, is_success}
use funai_chain.Settlement.Store.{
  Context, Store, set_epoch_stats, get_epoch_stats, delete_second_verification_pending,
  current_third_verification_rate,
}
use funai_chain.Settlement.Trigger.{should_trigger}
use funai_chain.Settlement.Account.Solvent.{BankLaws, KeeperLaws, IsSolvent}
use funai_chain.Settlement.Audit.Settle.{
  settle_audited_task, jail_worker_and_verifiers, unless_fail,
}
use funai_chain.Settlement.Audit.Judgment.{
  fail_unpaid, conclude, judge_second, is_token_fraud, pass_count, count_judgment, hand_on,
}
use funai_chain.Settlement.Audit.Third.{
  jail_second_verifiers, jail_failed, conclude_third, judge_third, process_audit_judgment,
}
use funai_chain.Settlement.Audit.Solvent.{IsSolvent-same, settle_audited_task-IsSolvent}
use funai_chain.Settlement.Audit.Safety.{
  resettle-IsSolvent, conclude-IsSolvent, jail_where-held, jail_failed-held,
  worker_and_verifiers-IsSolvent,
}

module _ {S : Type 0} (c : Context S) where
  -- After the branches: the statistics are written, and a settled task stops waiting.
  finished-IsSolvent :
      (id : ℕ) (is_third : Bool) (stats : EpochStats) (r : Store S × Bool)
      → IsSolvent c r.0
      → IsSolvent c (
          let noted = set_epoch_stats stats r.0 in
          if r.1 then delete_second_verification_pending id is_third noted else noted)
  finished-IsSolvent id true stats (t, true) inv = record {
    keyed = inv.keyed;
    covered = inv.covered;
  }
  finished-IsSolvent id false stats (t, true) inv = record {
    keyed = inv.keyed;
    covered = inv.covered;
  }
  finished-IsSolvent id is_third stats (t, false) inv = record {
    keyed = inv.keyed;
    covered = inv.covered;
  }

  judge_second-IsSolvent :
      (apt : PendingTask) (ar : SecondVerificationRecord) (params : Params) (stats : EpochStats)
      (s t : Store S)
      → BankLaws c
      → KeeperLaws c
      → HasRatios params
      → is_nonneg apt.fee ≡ true
      → IsSolvent c s
      → judge_second c apt ar params stats s ≡ ok t
      → IsSolvent c t
  unfolding judge_second
  judge_second-IsSolvent apt ar params stats s t laws keep ratios sign inv h =
      let pass = leb params.second_verification_match_threshold (pass_count ar.results) in
      let counted = count_judgment apt.original_status pass stats in
      elim (Bool-cases (should_trigger c ar.task_id (current_third_verification_rate s))) [
        | inl drawn ↦
            let end : t ≡ hand_on c apt ar stats s = ground arith in
            rw end (record { keyed = inv.keyed; covered = inv.covered })
        | inr undrawn ↦ elim (Bool-cases (pass && is_token_fraud apt ar params)) [
          | inl contradicted ↦
              resettle-IsSolvent c apt ar params stats s t laws keep ratios sign inv (ground arith)
          | inr consistent ↦ elim (Result-cases (conclude c apt pass params s)) [
            | inl (r, done) ↦
                let noted = set_epoch_stats counted r.0 in
                let end : t ≡ (
                    if r.1
                    then delete_second_verification_pending ar.task_id false noted
                    else noted) =
                  ground arith in
                rw end (
                  finished-IsSolvent ar.task_id false counted r
                    (conclude-IsSolvent c apt pass params s r laws keep ratios sign inv done))
            | inr (inl (x, refused)) ↦ ground arith
            | inr (inr panics) ↦ ground arith
          ]
        ]
      ]

  conclude_third-IsSolvent :
      (apt : PendingTask) (orig : SecondVerificationRecord) (orig_pass pass : Bool)
      (params : Params) (s : Store S) (r : Store S × Bool)
      → BankLaws c
      → KeeperLaws c
      → HasRatios params
      → is_nonneg apt.fee ≡ true
      → IsSolvent c s
      → conclude_third c apt orig orig_pass pass params s ≡ ok r
      → IsSolvent c r.0
  unfolding conclude_third
  conclude_third-IsSolvent apt orig orig_pass pass params s r laws keep ratios sign inv h =
      let success = is_success apt.original_status in
      let again : (b : Bool) (u : Store S)
          → IsSolvent c u
          → settle_audited_task c apt b false params 0 u ≡ ok r
          → IsSolvent c r.0 =
        λ b u solvent e.
          settle_audited_task-IsSolvent c apt b params 0 u r laws keep ratios sign solvent e in
      let failed_now : (u : Store S)
          → IsSolvent c u
          → r.0 ≡ fail_unpaid c apt (jail_worker_and_verifiers c apt u)
          → IsSolvent c r.0 =
        λ u solvent e.
          let jailed = worker_and_verifiers-IsSolvent c apt u keep solvent in
          rw e (record { keyed = jailed.keyed; covered = jailed.covered }) in
      elim (Bool-cases (orig_pass && not pass)) [
        | inl overturned ↦
            let punished = jail_second_verifiers c orig s in
            failed_now punished
              (IsSolvent-same c s punished refl
                (jail_where-held c unless_fail orig.second_verifier_addresses orig.results s.outer
                  keep)
                inv)
              (ground arith)
        | inr same ↦ elim (Bool-cases (not orig_pass && pass)) [
          | inl overturned ↦
              elim (Result-cases
                (jail_failed c orig.second_verifier_addresses orig.results s.outer)) [
                  | inl (o, jailed) ↦
                      again success (record s { outer = o })
                        (IsSolvent-same c s (record s { outer = o }) refl
                          (jail_failed-held c orig.second_verifier_addresses orig.results s.outer o
                            keep jailed)
                          inv)
                        (ground arith)
                  | inr (inl (x, refused)) ↦ ground arith
                  | inr (inr panics) ↦ ground arith
                ]
          | inr agreed ↦ elim (Bool-cases orig_pass) [
            | inl passed ↦ again success s inv (ground arith)
            | inr not_passed ↦ elim (Bool-cases success) [
              | inl succeeded ↦ failed_now s inv (ground arith)
              | inr did_not ↦ again false s inv (ground arith)
            ]
          ]
        ]
      ]

  judge_third-IsSolvent :
      (apt : PendingTask) (ar : SecondVerificationRecord) (params : Params) (stats : EpochStats)
      (s t : Store S)
      → BankLaws c
      → KeeperLaws c
      → HasRatios params
      → is_nonneg apt.fee ≡ true
      → IsSolvent c s
      → judge_third c apt ar params stats s ≡ ok t
      → IsSolvent c t
  unfolding judge_third
  judge_third-IsSolvent apt ar params stats s t laws keep ratios sign inv h =
      elim (Option-cases (lookup ar.task_id s.records)) [
        | inl unknown ↦
            let e : (t.accounts ≡ s.accounts) × (t.outer ≡ s.outer) = ground arith in
            IsSolvent-same c s t e.0 (omega (arith, ap (λ o. c.balance o c.module_account) e.1)) inv
        | inr (orig, known) ↦
            let threshold = params.second_verification_match_threshold in
            let pass = leb threshold (pass_count ar.results) in
            let orig_pass = leb threshold (pass_count orig.results) in
            elim (Result-cases (conclude_third c apt orig orig_pass pass params s)) [
              | inl (r, done) ↦
                  let e : (t.accounts ≡ r.0.accounts) × (t.outer ≡ r.0.outer) =
                    elim (Bool-cases r.1) [
                      | inl over ↦ ground arith
                      | inr waiting ↦ ground arith
                    ] in
                  IsSolvent-same c r.0 t e.0
                    (omega (arith, ap (λ o. c.balance o c.module_account) e.1))
                    (conclude_third-IsSolvent apt orig orig_pass pass params s r laws keep ratios
                      sign inv done)
              | inr (inl (x, refused)) ↦ ground arith
              | inr (inr panics) ↦ ground arith
            ]
      ]

  -- The judgment of a task whose results suffice leaves the module solvent, in a second
  -- verification and in a third, whatever it
  -- decides, where the task's fee is not negative.
  pub process_audit_judgment-IsSolvent :
      (ar : SecondVerificationRecord) (params : Params) (s t : Store S)
      → BankLaws c
      → KeeperLaws c
      → HasRatios params
      → ((apt : PendingTask)
          → lookup ar.task_id s.second_pending ≡ some apt
          → is_nonneg apt.fee ≡ true)
      → IsSolvent c s
      → process_audit_judgment c ar params s ≡ ok t
      → IsSolvent c t
  unfolding process_audit_judgment
  process_audit_judgment-IsSolvent ar params s t laws keep ratios sign inv h =
      let old = get_epoch_stats (c.height / 100) s in
      let stats : EpochStats = record old {
        second_verification_total = u64 (old.second_verification_total + 1);
      } in
      elim (Option-cases (lookup ar.task_id s.second_pending)) [
        | inl nothing ↦ let end : t ≡ s = ground arith in rw end inv
        | inr (apt, waits) ↦ elim (Bool-cases apt.is_third_verification) [
          | inl third ↦
              judge_third-IsSolvent apt ar params stats s t laws keep ratios (sign apt waits) inv
                (ground arith)
          | inr second ↦
              judge_second-IsSolvent apt ar params stats s t laws keep ratios (sign apt waits) inv
                (ground arith)
        ]
      ]
