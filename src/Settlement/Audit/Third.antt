-- ===== src/Settlement/Audit/Third.antt =====
-- The judgment of a third verification, and `processAuditJudgment` as a whole (keeper.go).
use funai_chain.Base.{
  ℕ, ◌+◌, ◌/◌, Bool, true, false, not, ◌&&◌, ◌||◌, leb, if◌then◌else◌, none, some, List, [], ◌∷◌,
  u64, lookup,
}
use funai_chain.Base.Result.{Result, ok, panic, ◌>>=◌, map_ok}
use funai_chain.Settlement.Params.{Params}
use funai_chain.Settlement.Types.{
  PendingTask, SecondVerificationRecord, EpochStats, Error, is_success,
}
use funai_chain.Settlement.Store.{
  Context, Store, get_second_verification_pending, delete_second_verification_pending,
  get_epoch_stats, set_epoch_stats,
}
use funai_chain.Settlement.Audit.Settle.{
  settle_audited_task, jail_where, jail_address, jail_worker_and_verifiers, unless_fail,
}
use funai_chain.Settlement.Audit.Judgment.{pass_count, fail_unpaid, judge_second}

module _ {S : Type 0} (c : Context S) where
  abbrev pub jail_second_verifiers : SecondVerificationRecord → Store S → Store S
  jail_second_verifiers ar s = record s {
    outer = jail_where c unless_fail ar.second_verifier_addresses ar.results s.outer;
  }

  -- An address without a result is an index out of range.
  unfoldable pub jail_failed : List ℕ → List Bool → S → Result Error S
  jail_failed [] votes o = ok o
  jail_failed (a ∷ as') [] o = panic
  jail_failed (a ∷ as') (v ∷ vs) o =
      let next : S = if v then o else jail_address c a o in jail_failed as' vs next

  abbrev pub jail_fail_second_verifiers :
      SecondVerificationRecord → Store S → Result Error (Store S)
  jail_fail_second_verifiers ar s =
      map_ok (λ o. record s { outer = o })
        (jail_failed ar.second_verifier_addresses ar.results s.outer)

  -- Whether the first round passed and whether the third passes.
  unfoldable pub conclude_third :
      PendingTask
      → SecondVerificationRecord
      → Bool
      → Bool
      → Params
      → Store S
      → Result Error (Store S × Bool)
  conclude_third apt orig orig_pass pass params s =
      let success = is_success apt.original_status in
      let as_before = settle_audited_task c apt success false params 0 s in
      let after_jailing = jail_fail_second_verifiers orig s >>= λ t.
      settle_audited_task c apt success false params 0 t in
      let as_fail = settle_audited_task c apt false false params 0 s in
      if orig_pass && not pass
      then ok
          (fail_unpaid c apt (jail_worker_and_verifiers c apt (jail_second_verifiers orig s)), true)
      else if not orig_pass && pass
      then after_jailing
      else if orig_pass
      then as_before
      else if success
      then ok (fail_unpaid c apt (jail_worker_and_verifiers c apt s), true)
      else as_fail

  unfoldable pub judge_third :
      PendingTask
      → SecondVerificationRecord
      → Params
      → EpochStats
      → Store S
      → Result Error (Store S)
  unfolding conclude_third
  judge_third apt ar params stats s =
      let threshold = params.second_verification_match_threshold in
      let pass = leb threshold (pass_count ar.results) in
      let one : EpochStats = record stats {
        third_verification_total = u64 (stats.third_verification_total + 1);
      } in
      elim (lookup ar.task_id s.records) [
        | none ↦ ok (set_epoch_stats one (delete_second_verification_pending ar.task_id true s))
        | some orig ↦
            let orig_pass = leb threshold (pass_count orig.results) in
            let agree = (orig_pass && pass) || (not orig_pass && not pass) in
            let counted : EpochStats = if agree then one else record one {
              third_verification_overturn = u64 (one.third_verification_overturn + 1);
            } in
            map_ok
              (λ r.
                let noted = set_epoch_stats counted r.0 in
                if r.1 then delete_second_verification_pending ar.task_id true noted else noted)
              (conclude_third apt orig orig_pass pass params s)
      ]

  unfoldable pub process_audit_judgment :
      SecondVerificationRecord → Params → Store S → Result Error (Store S)
  unfolding judge_second judge_third
  process_audit_judgment ar params s = elim (get_second_verification_pending ar.task_id s) [
    | none ↦ ok s
    | some apt ↦
        let old = get_epoch_stats (c.height / 100) s in
        let stats : EpochStats = record old {
          second_verification_total = u64 (old.second_verification_total + 1);
        } in
        if apt.is_third_verification
        then judge_third apt ar params stats s
        else judge_second c apt ar params stats s
  ]
