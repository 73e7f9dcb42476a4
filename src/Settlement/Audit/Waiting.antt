-- ===== src/Settlement/Audit/Waiting.antt =====
-- `settleAuditedTask` (keeper.go) leaves the tasks that wait alone.
use funai_chain.Base.{
  ℕ, ℤ, pos, negsuc, ◌*◌, ◌/◌, ◌≡◌, ◌==◌, ltb, Bool, false, if◌then◌else◌, arith, refl, ap, ◌∙◌,
  lookup, Bool-cases, Option-cases, inl, inr,
}
use funai_chain.Base.Result.{Result, ok, Result-cases, >>=-eq-ok}
use funai_chain.Settlement.Params.{Params, HasRatios}
use funai_chain.Settlement.Types.{PendingTask, InferenceAccount, Error, fail_settled}
use funai_chain.Settlement.Store.{Context, Store, set_settled_task, has_fraud_mark}
use funai_chain.Settlement.Account.{unfreeze_balance}
use funai_chain.Settlement.Account.Reservation.{unfreeze_balance_cases}
use funai_chain.Settlement.Account.Solvent.{BankLaws}
use funai_chain.Settlement.Payout.{distribute_success_fee, distribute_fail_fee}
use funai_chain.Settlement.Payout.Shares.{distribute_success_fee_ok, distribute_fail_fee_ok}
use funai_chain.Settlement.Batch.Settle.{debit, lesser, fail_fee, account_or_zero}
use funai_chain.Settlement.Audit.Settle.{
  unsigned_results, settle_as_success, charge_as_fail, settle_found, settle_audited_task, base_fee,
  outcome_of, succeeded,
}

module _ {S : Type 0} (c : Context S) where
  -- The tasks that wait are the same.
  abbrev pub SameWaiting : Store S → Store S → Type 0
  SameWaiting s t = (t.second_pending ≡ s.second_pending) × (t.third_pending ≡ s.third_pending)

  settle_as_success-SameWaiting :
      (apt : PendingTask) (worker : ℕ) (fee : ℤ) (params : Params) (ia : InferenceAccount)
      (s : Store S) (r : Store S × Bool)
      → BankLaws c
      → settle_as_success c apt worker fee false params ia s ≡ ok r
      → SameWaiting s r.0
  unfolding settle_as_success
  settle_as_success-SameWaiting apt worker (negsuc n) params ia s r laws h =
      (ground arith, ground arith)
  settle_as_success-SameWaiting apt worker (pos fee) params ia s r laws h =
      let payable = lesser ia.balance fee in
      let amount : ℕ = if ltb ia.balance fee then fee * payable / fee else fee in
      let debited = debit c ia payable s in
      let payment : Result Error (Store S) =
        if amount == 0
        then ok debited
        else distribute_success_fee c amount worker (unsigned_results apt.verifier_addresses) params
            debited in
      elim (Result-cases payment) [
        | inl (t, paid) ↦
            let same : SameWaiting debited t = elim (Bool-cases (amount == 0)) [
              | inl nothing ↦ (ground arith, ground arith)
              | inr some_fee ↦
                  let (moved, more) =
                    distribute_success_fee_ok c amount worker
                      (unsigned_results apt.verifier_addresses) params debited t laws
                      (ground arith) in
                  (ap (λ x. x.second_pending) moved, ap (λ x. x.third_pending) moved)
            ] in
            let end : r.0 ≡ succeeded c apt worker (pos amount) t = ground arith in rw end same
        | inr (inl (x, refused)) ↦ let end : r.0 ≡ s = ground arith in rw end (refl, refl)
        | inr (inr panics) ↦ ground arith
      ]

  charge_as_fail-SameWaiting :
      (apt : PendingTask) (worker due : ℕ) (params : Params) (ia : InferenceAccount) (s : Store S)
      (r : Store S × Bool)
      → BankLaws c
      → HasRatios params
      → charge_as_fail c apt worker due params ia s ≡ ok r
      → SameWaiting s r.0
  unfolding charge_as_fail
  charge_as_fail-SameWaiting apt worker due params ia s r laws ratios h =
      let charge = lesser ia.balance due in
      let debited = debit c ia charge s in
      let verifiers = unsigned_results apt.verifier_addresses in
      let payment : Result Error (Store S) =
        if charge == 0 then ok debited else distribute_fail_fee c charge verifiers params debited in
      elim (Result-cases payment) [
        | inl (t, paid) ↦
            let same : SameWaiting debited t = elim (Bool-cases (charge == 0)) [
              | inl nothing ↦ (ground arith, ground arith)
              | inr some_fee ↦
                  let (moved, more, fits) =
                    distribute_fail_fee_ok c charge verifiers params debited t laws (omega arith)
                      (ground arith) in
                  (ap (λ x. x.second_pending) moved, ap (λ x. x.third_pending) moved)
            ] in
            let end : r.0
                ≡ set_settled_task (outcome_of c apt fail_settled (pos charge))
                    (record t { outer = c.jail_worker t.outer worker }) =
              ground arith in
            rw end same
        | inr (inl (x, refused)) ↦ let end : r.0 ≡ s = ground arith in rw end (refl, refl)
        | inr (inr panics) ↦ ground arith
      ]

  unfreeze_balance-SameWaiting :
      (user id : ℕ) (s : Store S) → SameWaiting s (unfreeze_balance c user id s)
  unfreeze_balance-SameWaiting user id s = elim (unfreeze_balance_cases c user id s) [
    | inl same ↦ rw same (refl, refl)
    | inr (amount, ia, e, f, written) ↦ rw written (refl, refl)
  ]

  pub settle_audited_task-SameWaiting :
      (apt : PendingTask) (as_success : Bool) (params : Params) (override : ℕ) (s : Store S)
      (r : Store S × Bool)
      → BankLaws c
      → HasRatios params
      → settle_audited_task c apt as_success false params override s ≡ ok r
      → SameWaiting s r.0
  unfolding settle_audited_task settle_found
  settle_audited_task-SameWaiting apt as_success params override s r laws ratios h =
      let stays : r.0 ≡ s → SameWaiting s r.0 = λ end. rw end (refl, refl) in
      elim (Bool-cases (has_fraud_mark apt.task_id s)) [
        | inl marked ↦ stays (ground arith)
        | inr unmarked ↦ elim (Option-cases (c.decode apt.user_address)) [
          | inl malformed ↦ stays (ground arith)
          | inr (user, known) ↦ elim (Option-cases (c.decode apt.worker_address)) [
            | inl malformed ↦ stays (ground arith)
            | inr (worker, also) ↦ elim (Option-cases (lookup user s.accounts)) [
              | inl nobody ↦ stays (ground arith)
              | inr (ia, there) ↦
                  let released = unfreeze_balance c user apt.task_id s in
                  let j = account_or_zero (lookup user released.accounts) in
                  let (p, q) = unfreeze_balance-SameWaiting user apt.task_id s in
                  let after : SameWaiting released r.0 → SameWaiting s r.0 =
                    λ w. (w.0 ∙ p, w.1 ∙ q) in
                  elim (Result-cases (base_fee c apt override)) [
                    | inl (fee, charged) ↦ elim (Bool-cases as_success) [
                      | inl success ↦ after (
                          settle_as_success-SameWaiting apt worker fee params j released r laws
                            (ground arith))
                      | inr failure ↦
                          let (due, coin, rest) =
                            >>=-eq-ok (fail_fee params fee)
                              (λ n. charge_as_fail c apt worker n params j released)
                              (ground arith) in
                          after (
                            charge_as_fail-SameWaiting apt worker due params j released r laws
                              ratios rest)
                    ]
                    | inr (inl (x, refused)) ↦ ground arith
                    | inr (inr panics) ↦ ground arith
                  ]
            ]
          ]
        ]
      ]
