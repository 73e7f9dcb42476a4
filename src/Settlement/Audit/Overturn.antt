-- ===== src/Settlement/Audit/Overturn.antt =====
-- A successful task that its second verification overturns.
use funai_chain.Base.{
  ℕ, Bool, true, List, [], ◌∷◌, pos, ◌<◌, ◌+◌, ◌/◌, ◌≡◌, false, none, some, lookup, leb, u64, refl,
  arith, lookup-erase, lookup-insert_self,
}
use funai_chain.Base.Result.{ok}
use funai_chain.Settlement.Params.{Params}
use funai_chain.Settlement.Types.{
  EpochStats, PendingTask, SecondVerificationRecord, SettledTask, success, failed,
}
use funai_chain.Settlement.Store.{
  Context, Store, get_epoch_stats, set_epoch_stats, delete_second_verification_pending,
  current_third_verification_rate,
}
use funai_chain.Settlement.Trigger.{should_trigger}
use funai_chain.Settlement.Audit.Settle.{
  outcome_of, jail_worker_and_verifiers, jail_where, jail_address, unless_fail,
}
use funai_chain.Settlement.Audit.Judgment.{
  count_judgment, fail_unpaid, pass_count, judge_second, conclude,
}
use funai_chain.Settlement.Audit.Third.{process_audit_judgment}

-- The verifiers who did not fail the task: those with a vote for it, and those without a vote.
abbrev pub blamed : List ℕ → List Bool → List ℕ
blamed [] votes = []
blamed (a ∷ as') [] = a ∷ blamed as' []
blamed (a ∷ as') (true ∷ votes) = a ∷ blamed as' votes
blamed (a ∷ as') (false ∷ votes) = blamed as' votes

module _ {S : Type 0} (c : Context S) where
  -- Each of the addresses that is well-formed is jailed, in their order.
  abbrev pub jail_all : List ℕ → S → S
  jail_all [] o = o
  jail_all (a ∷ as') o = jail_all as' (elim (c.decode a) [ none ↦ o | some w ↦ c.jail_worker o w ])

  jail_where-jail_all :
      (as' : List ℕ) (votes : List Bool) (o : S)
      → jail_where c unless_fail as' votes o ≡ jail_all (blamed as' votes) o
  unfolding jail_where
  jail_where-jail_all [] votes o = refl
  jail_where-jail_all (a ∷ as') [] o = jail_where-jail_all as' [] (jail_address c a o)
  jail_where-jail_all (a ∷ as') (true ∷ votes) o =
      jail_where-jail_all as' votes (jail_address c a o)
  jail_where-jail_all (a ∷ as') (false ∷ votes) o = jail_where-jail_all as' votes o

  -- When too few second verifiers pass a task that had succeeded, and no third verification is drawn,
  -- the judgment goes through: exactly the worker and the verifiers who did not fail the task are
  -- jailed, the task is recorded as failed with a fee of 0, it no longer waits, and no account
  -- changes. The reservation that the task has stays as it is.
  pub process_audit_judgment_overturned :
      (ar : SecondVerificationRecord) (params : Params) (s : Store S) (apt : PendingTask)
      → lookup ar.task_id s.second_pending ≡ some apt
      → apt.is_third_verification ≡ false
      → apt.original_status ≡ success
      → pass_count ar.results < params.second_verification_match_threshold
      → should_trigger c ar.task_id (current_third_verification_rate s) ≡ false
      → (t : Store S) × (process_audit_judgment c ar params s ≡ ok t)
        × (t.outer
            ≡ jail_all
                (apt.worker_address ∷ blamed apt.verifier_addresses apt.verifier_votes)
                s.outer)
        × ((st : SettledTask) × (lookup apt.task_id t.settled ≡ some st)
            × (st.status ≡ failed)
            × (st.fee ≡ pos 0)
            × (st.worker_address ≡ apt.worker_address))
        × (lookup ar.task_id t.second_pending ≡ none)
        × (t.accounts ≡ s.accounts)
        × (t.frozen ≡ s.frozen)
  unfolding process_audit_judgment judge_second conclude
  process_audit_judgment_overturned ar params s apt waits second succeeded few undrawn =
      let old = get_epoch_stats (c.height / 100) s in
      let stats : EpochStats = record old {
        second_verification_total = u64 (old.second_verification_total + 1);
      } in
      let failed_now = fail_unpaid c apt (jail_worker_and_verifiers c apt s) in
      let noted = set_epoch_stats (count_judgment apt.original_status false stats) failed_now in
      let t = delete_second_verification_pending ar.task_id false noted in
      let few_passed : leb params.second_verification_match_threshold (pass_count ar.results)
          ≡ false =
        ground arith in
      let judged : judge_second c apt ar params stats s ≡ ok t = ground arith in
      (
        t,
        ground arith,
        jail_where-jail_all apt.verifier_addresses apt.verifier_votes
            (jail_address c apt.worker_address s.outer),
        (
          outcome_of c apt failed (pos 0),
          lookup-insert_self apt.task_id (outcome_of c apt failed (pos 0)) s.settled,
          refl,
          refl,
          refl,
        ),
        ground (arith, lookup-erase ar.task_id ar.task_id s.second_pending),
        refl,
        refl,
      )
