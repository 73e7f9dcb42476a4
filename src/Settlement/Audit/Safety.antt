-- ===== src/Settlement/Audit/Safety.antt =====
-- The branches of a second verification's judgment keep the module solvent.
use funai_chain.Base.{
  is_nonneg, ℕ, ◌+◌, ◌≤◌, ◌≡◌, ◌&&◌, Bool, true, false, if◌then◌else◌, arith, refl, Bool-cases,
  Option-cases, inl, inr, ap, List, [], ◌∷◌, Option, u64,
}
use funai_chain.Base.Result.{ok, Result-cases}
use funai_chain.Settlement.Params.{Params, HasRatios}
use funai_chain.Settlement.Types.{
  PendingTask, SecondVerificationRecord, EpochStats, is_success, is_fail,
}
use funai_chain.Settlement.Store.{
  Context, Store, set_epoch_stats, delete_second_verification_pending,
}
use funai_chain.Settlement.Fees.Median.{median}
use funai_chain.Settlement.Account.{unfreeze_balance}
use funai_chain.Settlement.Account.Solvent.{BankLaws, KeeperLaws, IsSolvent}
use funai_chain.Settlement.Batch.Solvent.{unfreeze_balance-IsSolvent}
use funai_chain.Settlement.Audit.Settle.{
  settle_audited_task, vote, later_votes, jail_where, jail_address, unless_fail, unless_pass,
  if_pass, jail_fail_verifiers, jail_worker_and_verifiers,
}
use funai_chain.Settlement.Audit.Judgment.{
  close_contradicted, jail_contradicted, release, fail_unpaid, conclude, resettle,
}
use funai_chain.Settlement.Audit.Third.{jail_failed}
use funai_chain.Settlement.Audit.Solvent.{IsSolvent-same, settle_audited_task-IsSolvent}

module _ {S : Type 0} (c : Context S) where
  abbrev held : S → ℕ
  held o = c.balance o c.module_account

  jail_address-held : (a : ℕ) (o : S) → KeeperLaws c → held o ≤ held (jail_address c a o)
  jail_address-held a o keep = elim (Option-cases (c.decode a)) [
    | inl malformed ↦ ground arith
    | inr (worker, known) ↦ ground (arith, keep.jail_keeps o worker)
  ]

  pub jail_where-held :
      (punished : Option Bool → Bool) (as' : List ℕ) (votes : List Bool) (o : S)
      → KeeperLaws c
      → held o ≤ held (jail_where c punished as' votes o)
  unfolding jail_where
  jail_where-held punished [] votes o keep = omega arith
  jail_where-held punished (a ∷ as') votes o keep = elim (Bool-cases (punished (vote votes))) [
    | inl jailed ↦ omega (
      arith,
      jail_address-held a o keep,
      jail_where-held punished as' (later_votes votes) (jail_address c a o) keep,
      ap
          (λ b.
            held
              (jail_where c punished as' (later_votes votes) (if b then jail_address c a o else o)))
          jailed,
    )
    | inr spared ↦ omega (
      arith,
      jail_where-held punished as' (later_votes votes) o keep,
      ap
          (λ b.
            held
              (jail_where c punished as' (later_votes votes) (if b then jail_address c a o else o)))
          spared,
    )
  ]

  pub jail_failed-held :
      (as' : List ℕ) (votes : List Bool) (o o' : S)
      → KeeperLaws c
      → jail_failed c as' votes o ≡ ok o'
      → held o ≤ held o'
  unfolding jail_failed
  jail_failed-held [] votes o o' keep e = ground arith
  jail_failed-held (a ∷ as') [] o o' keep e = ground arith
  jail_failed-held (a ∷ as') (true ∷ vs) o o' keep e = jail_failed-held as' vs o o' keep e
  jail_failed-held (a ∷ as') (false ∷ vs) o o' keep e =
      omega
        (arith, jail_address-held a o keep, jail_failed-held as' vs (jail_address c a o) o' keep e)

  pub worker_and_verifiers-IsSolvent :
      (apt : PendingTask) (s : Store S)
      → KeeperLaws c
      → IsSolvent c s
      → IsSolvent c (jail_worker_and_verifiers c apt s)
  worker_and_verifiers-IsSolvent apt s keep inv =
      IsSolvent-same c s (jail_worker_and_verifiers c apt s) refl
        (omega (
          arith,
          jail_address-held apt.worker_address s.outer keep,
          jail_where-held unless_fail apt.verifier_addresses apt.verifier_votes
              (jail_address c apt.worker_address s.outer) keep,
        ))
        inv

  pub conclude-IsSolvent :
      (apt : PendingTask) (pass : Bool) (params : Params) (s : Store S) (r : Store S × Bool)
      → BankLaws c
      → KeeperLaws c
      → HasRatios params
      → is_nonneg apt.fee ≡ true
      → IsSolvent c s
      → conclude c apt pass params s ≡ ok r
      → IsSolvent c r.0
  unfolding conclude
  conclude-IsSolvent apt pass params s r laws keep ratios sign inv h =
      elim (Bool-cases (is_success apt.original_status)) [
        | inl succeeded ↦ elim (Bool-cases pass) [
          | inl passed ↦
              settle_audited_task-IsSolvent c apt true params 0 s r laws keep ratios sign inv
                (ground arith)
          | inr overturned ↦
              let jailed = jail_worker_and_verifiers c apt s in
              let end : r.0 ≡ fail_unpaid c apt jailed = ground arith in
              rw end (
                IsSolvent-same c jailed (fail_unpaid c apt jailed) refl (omega arith)
                  (worker_and_verifiers-IsSolvent apt s keep inv))
        ]
        | inr otherwise ↦ elim (Bool-cases (is_fail apt.original_status && pass)) [
          | inl overturned ↦ elim (Result-cases (settle_audited_task c apt true false params 0 s)) [
            | inl (x, done) ↦
                let end : r.0 ≡ jail_fail_verifiers c apt x.0 = ground arith in
                rw end (
                  IsSolvent-same c x.0 (jail_fail_verifiers c apt x.0) refl
                    (jail_where-held unless_pass apt.verifier_addresses apt.verifier_votes x.0.outer
                      keep)
                    (settle_audited_task-IsSolvent c apt true params 0 s x laws keep ratios sign inv
                      done))
            | inr (inl (x, refused)) ↦ ground arith
            | inr (inr panics) ↦ ground arith
          ]
          | inr failed' ↦
              settle_audited_task-IsSolvent c apt false params 0 s r laws keep ratios sign inv
                (ground arith)
        ]
      ]

  -- The statistics and the waiting tasks have nothing to do with money.
  pub noted-IsSolvent :
      (id : ℕ) (is_third : Bool) (stats : EpochStats) (s : Store S)
      → IsSolvent c s
      → IsSolvent c (set_epoch_stats stats (delete_second_verification_pending id is_third s))
  noted-IsSolvent id true stats s inv =
      IsSolvent-same c s (set_epoch_stats stats (delete_second_verification_pending id true s)) refl
        (omega arith) inv
  noted-IsSolvent id false stats s inv =
      IsSolvent-same c s (set_epoch_stats stats (delete_second_verification_pending id false s))
        refl (omega arith) inv

  jail_contradicted-IsSolvent :
      (apt : PendingTask) (s : Store S)
      → KeeperLaws c
      → IsSolvent c s
      → IsSolvent c (jail_contradicted c apt s)
  unfolding jail_contradicted
  jail_contradicted-IsSolvent apt s keep inv = record {
    keyed = inv.keyed;
    covered = omega (
      arith,
      inv.covered,
      jail_address-held apt.worker_address s.outer keep,
      jail_where-held if_pass apt.verifier_addresses apt.verifier_votes
          (jail_address c apt.worker_address s.outer) keep,
    );
  }

  release-IsSolvent :
      (apt : PendingTask) (s : Store S) → IsSolvent c s → IsSolvent c (release c apt s)
  unfolding release
  release-IsSolvent apt s inv = elim (Option-cases (c.decode apt.user_address)) [
    | inl malformed ↦ let end : release c apt s ≡ s = ground arith in rw end inv
    | inr (user, known) ↦
        let end : release c apt s ≡ unfreeze_balance c user apt.task_id s = ground arith in
        rw end (unfreeze_balance-IsSolvent c user apt.task_id s inv)
  ]

  close_contradicted-IsSolvent :
      (apt : PendingTask) (ar : SecondVerificationRecord) (stats : EpochStats) (s : Store S)
      → KeeperLaws c
      → IsSolvent c s
      → IsSolvent c (close_contradicted c apt ar stats s)
  unfolding close_contradicted
  close_contradicted-IsSolvent apt ar stats s keep inv =
      let jailed = jail_contradicted c apt (release c apt s) in
      let solvent =
        jail_contradicted-IsSolvent apt (release c apt s) keep (release-IsSolvent apt s inv) in
      noted-IsSolvent ar.task_id apt.is_third_verification
        (record stats { audit_overturn = u64 (stats.audit_overturn + 1) })
        (fail_unpaid c apt jailed) (record { keyed = solvent.keyed; covered = solvent.covered })

  pub resettle-IsSolvent :
      (apt : PendingTask) (ar : SecondVerificationRecord) (params : Params) (stats : EpochStats)
      (s t : Store S)
      → BankLaws c
      → KeeperLaws c
      → HasRatios params
      → is_nonneg apt.fee ≡ true
      → IsSolvent c s
      → resettle c apt ar params stats s ≡ ok t
      → IsSolvent c t
  unfolding resettle
  resettle-IsSolvent apt ar params stats s t laws keep ratios sign inv h =
      let closed = close_contradicted c apt ar stats s in
      let reported = median ar.second_verifier_output_tokens in
      elim (Result-cases (settle_audited_task c apt false false params reported closed)) [
        | inl (x, done) ↦
            let end : t ≡ x.0 = ground arith in
            rw end (
              settle_audited_task-IsSolvent c apt false params reported closed x laws keep ratios
                sign (close_contradicted-IsSolvent apt ar stats s keep inv) done)
        | inr (inl (x, refused)) ↦ ground arith
        | inr (inr panics) ↦ ground arith
      ]
