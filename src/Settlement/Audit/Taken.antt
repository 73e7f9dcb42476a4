-- ===== src/Settlement/Audit/Taken.antt =====
-- A second verifier's result (`ProcessSecondVerificationResult`) keeps the module solvent.
use funai_chain.Base.{
  is_nonneg, true, some, lookup, ◌+◌, ◌/◌, ◌≡◌, arith, Bool-cases, Option-cases, inl, inr, ap, u64,
  leb, u32, length,
}
use funai_chain.Base.Result.{ok}
use funai_chain.Settlement.Params.{HasRatios}
use funai_chain.Settlement.Types.{
  PendingTask, SecondVerificationRecord, MsgSecondVerificationResult,
}
use funai_chain.Settlement.Store.{
  Context, Store, set_epoch_stats, get_epoch_stats, get_params,
  increment_second_verifier_epoch_count, set_second_verification_record,
}
use funai_chain.Settlement.Account.Solvent.{BankLaws, KeeperLaws, IsSolvent}
use funai_chain.Settlement.Audit.Results.{
  process_second_verification_result, process_second_verification_result_parts, note_result,
  first_record, extended_record,
}
use funai_chain.Settlement.Audit.Solvent.{IsSolvent-same, HasCharges}
use funai_chain.Settlement.Audit.Judged.{process_audit_judgment-IsSolvent}

module _ {S : Type 0} (c : Context S) where
  note_result-IsSolvent :
      (msg : MsgSecondVerificationResult) (ar : SecondVerificationRecord) (s t : Store S)
      → BankLaws c
      → KeeperLaws c
      → HasRatios (get_params s)
      → HasCharges s.second_pending
      → IsSolvent c s
      → note_result c msg ar s ≡ ok t
      → IsSolvent c t
  unfolding note_result
  note_result-IsSolvent msg ar s t laws keep ratios sign inv h =
      let counted =
        increment_second_verifier_epoch_count c msg.second_verifier
          (set_second_verification_record ar s) in
      let stats = get_epoch_stats (c.height / 100) counted in
      let noted =
        set_epoch_stats
          (record stats {
            second_verification_person_count = u64 (stats.second_verification_person_count + 1);
          })
          counted in
      let e : (noted.accounts ≡ s.accounts) × (noted.outer ≡ s.outer) =
        elim (Option-cases (c.decode msg.second_verifier)) [
          | inl malformed ↦ ground arith
          | inr (a, known) ↦ ground arith
        ] in
      let signs : (apt : PendingTask)
          → lookup ar.task_id noted.second_pending ≡ some apt
          → is_nonneg apt.fee ≡ true =
        λ apt waits. sign ar.task_id apt (ground arith) in
      let solvent =
        IsSolvent-same c s noted e.0 (omega (arith, ap (λ o. c.balance o c.module_account) e.1))
          inv in
      elim (Bool-cases (leb (get_params s).second_verifier_count (u32 (length ar.results)))) [
        | inl enough ↦
            process_audit_judgment-IsSolvent c ar (get_params s) noted t laws keep ratios signs
              solvent (ground arith)
        | inr few ↦ let end : t ≡ noted = ground arith in rw end solvent
      ]

  -- With a bank and modules that keep their laws, and fee ratios that leave the executor a share: a
  -- second verifier's result that is taken, where no task that waits has a negative fee, leaves a solvent module solvent, whether it is only
  -- recorded or leads to the settlement of the task.
  pub process_second_verification_result-IsSolvent :
      (msg : MsgSecondVerificationResult) (s t : Store S)
      → BankLaws c
      → KeeperLaws c
      → HasRatios (get_params s)
      → HasCharges s.second_pending
      → IsSolvent c s
      → process_second_verification_result c msg s ≡ ok t
      → IsSolvent c t
  process_second_verification_result-IsSolvent msg s t laws keep ratios sign inv h =
      elim (process_second_verification_result_parts c msg s t h) [
        | inl (same, full) ↦ rw same inv
        | inr (apt, waits, open', other, inl (new, taken)) ↦
            note_result-IsSolvent msg (first_record c msg) s t laws keep ratios sign inv taken
        | inr (apt, waits, open', other, inr (ar, known, fresh, taken)) ↦
            note_result-IsSolvent msg (extended_record c msg ar) s t laws keep ratios sign inv taken
      ]
