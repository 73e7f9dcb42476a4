-- ===== src/Settlement/Audit/Solvent.antt =====
-- The settlement of a task after its second verification keeps the module solvent.
use native.Mathlib.Nat.{mul-div_cancel_left}
use funai_chain.Base.{
  Dict, ℤ, pos, negsuc, is_nonneg, true, ℕ, ◌*◌, ◌/◌, ◌≤◌, ◌≡◌, ◌==◌, ltb, ltb→lt, Bool, false,
  if◌then◌else◌, some, arith, refl, lookup, Bool-cases, Option-cases, inl, inr,
}
use funai_chain.Base.Result.{Result, ok, Result-cases, >>=-eq-ok}
use funai_chain.Settlement.Params.{Params, HasRatios}
use funai_chain.Settlement.Types.{PendingTask, InferenceAccount, Error, fail_settled}
use funai_chain.Settlement.Store.{Context, Store, set_settled_task, has_fraud_mark}
use funai_chain.Settlement.Account.{unfreeze_balance}
use funai_chain.Settlement.Account.Solvent.{BankLaws, KeeperLaws, IsSolvent, holdings}
use funai_chain.Settlement.Payout.{distribute_success_fee, distribute_fail_fee}
use funai_chain.Settlement.Batch.Settle.{debit, lesser, fail_fee}
use funai_chain.Settlement.Batch.Charge.{uint64}
use funai_chain.Settlement.Batch.Solvent.{
  debit-IsSolvent, success_paid, request_paid, unfreeze_balance-IsSolvent, lookup-unfreeze_balance,
}
use funai_chain.Settlement.Audit.Settle.{
  unsigned_results, settle_as_success, charge_as_fail, succeeded, settle_found, settle_audited_task,
  base_fee, outcome_of,
}

-- The part of the fee that is shared out is what the user pays.
distributable-eq :
    (balance fee : ℕ)
    → (if ltb balance fee then fee * lesser balance fee / fee else fee) ≡ lesser balance fee
distributable-eq balance fee = elim (Bool-cases (ltb balance fee)) [
  | inl short ↦
      ground
        (arith, mul-div_cancel_left balance {n = fee} (omega (arith, ltb→lt balance fee short)))
  | inr enough ↦ ground arith
]

-- No waiting task has a negative fee.
abbrev pub HasCharges : Dict PendingTask → Type 0
HasCharges pending =
    (id : ℕ) (apt : PendingTask) → lookup id pending ≡ some apt → is_nonneg apt.fee ≡ true

module _ {S : Type 0} (c : Context S) where
  -- The same accounts, and holdings that are no lower.
  pub IsSolvent-same :
      (s t : Store S)
      → t.accounts ≡ s.accounts
      → holdings c s ≤ holdings c t
      → IsSolvent c s
      → IsSolvent c t
  IsSolvent-same s t same more inv = record {
    keyed = λ a ia e. inv.keyed a ia (rw same at e);
    covered = rw same (omega (arith, inv.covered));
  }

  settle_as_success-IsSolvent :
      (apt : PendingTask) (user worker : ℕ) (fee : ℤ) (params : Params) (ia : InferenceAccount)
      (s : Store S) (r : Store S × Bool)
      → BankLaws c
      → KeeperLaws c
      → is_nonneg fee ≡ true
      → IsSolvent c s
      → lookup user s.accounts ≡ some ia
      → settle_as_success c apt worker fee false params ia s ≡ ok r
      → IsSolvent c r.0
  unfolding settle_as_success
  settle_as_success-IsSolvent apt user worker (negsuc n) params ia s r laws keep sign inv there h =
      ground arith
  settle_as_success-IsSolvent apt user worker (pos fee) params ia s r laws keep sign inv there h =
      let payable = lesser ia.balance fee in
      let amount : ℕ = if ltb ia.balance fee then fee * payable / fee else fee in
      let same_amount : amount ≡ payable = distributable-eq ia.balance fee in
      let debited = debit c ia payable s in
      let payment : Result Error (Store S) =
        if amount == 0
        then ok debited
        else distribute_success_fee c amount worker (unsigned_results apt.verifier_addresses) params
            debited in
      elim (Result-cases payment) [
        | inl (t, paid) ↦
            let (same, left) =
              success_paid c params (unsigned_results apt.verifier_addresses) worker payable ia s t
                laws (rw same_amount at paid) in
            let solvent =
              debit-IsSolvent c user payable ia s t inv there (ground arith) same left in
            let after : Store S = succeeded c apt worker (pos amount) t in
            let end : r.0 ≡ after = ground arith in
            rw end (
              IsSolvent-same t after refl
                (omega (
                  arith,
                  keep.streak_keeps t.outer worker,
                  keep.stats_keeps (c.increment_success_streak t.outer worker) worker (pos amount),
                ))
                solvent)
        | inr (inl (x, refused)) ↦ let end : r.0 ≡ s = ground arith in rw end inv
        | inr (inr panics) ↦ ground arith
      ]

  charge_as_fail-IsSolvent :
      (apt : PendingTask) (user worker due : ℕ) (params : Params) (ia : InferenceAccount)
      (s : Store S) (r : Store S × Bool)
      → BankLaws c
      → KeeperLaws c
      → HasRatios params
      → IsSolvent c s
      → lookup user s.accounts ≡ some ia
      → charge_as_fail c apt worker due params ia s ≡ ok r
      → IsSolvent c r.0
  unfolding charge_as_fail
  charge_as_fail-IsSolvent apt user worker due params ia s r laws keep ratios inv there h =
      let charge = lesser ia.balance due in
      let debited = debit c ia charge s in
      let verifiers = unsigned_results apt.verifier_addresses in
      let payment : Result Error (Store S) =
        if charge == 0 then ok debited else distribute_fail_fee c charge verifiers params debited in
      elim (Result-cases payment) [
        | inl (t, paid) ↦
            let (same, left) = request_paid c params verifiers charge ia s t laws ratios paid in
            let solvent = debit-IsSolvent c user charge ia s t inv there (ground arith) same left in
            let after : Store S =
              set_settled_task (outcome_of c apt fail_settled (pos charge))
                (record t { outer = c.jail_worker t.outer worker }) in
            let end : r.0 ≡ after = ground arith in
            rw end (IsSolvent-same t after refl (keep.jail_keeps t.outer worker) solvent)
        | inr (inl (x, refused)) ↦ let end : r.0 ≡ s = ground arith in rw end inv
        | inr (inr panics) ↦ ground arith
      ]

  base_fee-sign :
      (apt : PendingTask) (override : ℕ) (fee : ℤ)
      → is_nonneg apt.fee ≡ true
      → base_fee c apt override ≡ ok fee
      → is_nonneg fee ≡ true
  unfolding base_fee
  base_fee-sign apt override fee sign h = elim (Result-cases (uint64 apt.max_fee)) [
    | inl (max_fee, fits) ↦ ground arith
    | inr (inl (x, refused)) ↦ ground arith
    | inr (inr panics) ↦ ground arith
  ]

  -- With a bank and modules that keep their laws, and fee ratios that leave the executor a share: a
  -- task that is settled after its second verification, with nothing paid for it before and
  -- a fee that is not negative, leaves a solvent module solvent, whether it succeeds, fails, or stays as it was.
  pub settle_audited_task-IsSolvent :
      (apt : PendingTask) (as_success : Bool) (params : Params) (override : ℕ) (s : Store S)
      (r : Store S × Bool)
      → BankLaws c
      → KeeperLaws c
      → HasRatios params
      → is_nonneg apt.fee ≡ true
      → IsSolvent c s
      → settle_audited_task c apt as_success false params override s ≡ ok r
      → IsSolvent c r.0
  unfolding settle_audited_task settle_found
  settle_audited_task-IsSolvent apt as_success params override s r laws keep ratios sign inv h =
      elim (Bool-cases (has_fraud_mark apt.task_id s)) [
        | inl marked ↦ let end : r.0 ≡ s = ground arith in rw end inv
        | inr unmarked ↦ elim (Option-cases (c.decode apt.user_address)) [
          | inl malformed ↦ let end : r.0 ≡ s = ground arith in rw end inv
          | inr (user, known) ↦ elim (Option-cases (c.decode apt.worker_address)) [
            | inl malformed ↦ let end : r.0 ≡ s = ground arith in rw end inv
            | inr (worker, also) ↦ elim (Option-cases (lookup user s.accounts)) [
              | inl nobody ↦ let end : r.0 ≡ s = ground arith in rw end inv
              | inr (ia, there) ↦
                  let released = unfreeze_balance c user apt.task_id s in
                  let still = unfreeze_balance-IsSolvent c user apt.task_id s inv in
                  let (j, found) = lookup-unfreeze_balance c user apt.task_id s ia inv there in
                  elim (Result-cases (base_fee c apt override)) [
                    | inl (fee, charged) ↦ elim (Bool-cases as_success) [
                      | inl success ↦
                          settle_as_success-IsSolvent apt user worker fee params j released r laws
                            keep (base_fee-sign apt override fee sign charged) still found
                            (ground arith)
                      | inr failure ↦
                          let (due, coin, rest) =
                            >>=-eq-ok (fail_fee params fee)
                              (λ n. charge_as_fail c apt worker n params j released)
                              (ground arith) in
                          charge_as_fail-IsSolvent apt user worker due params j released r laws keep
                            ratios still found rest
                    ]
                    | inr (inl (x, refused)) ↦ ground arith
                    | inr (inr panics) ↦ ground arith
                  ]
            ]
          ]
        ]
      ]
