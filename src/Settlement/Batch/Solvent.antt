-- ===== src/Settlement/Batch/Solvent.antt =====
-- A batch keeps the module solvent, entry by entry.
use funai_chain.Base.{
  ℤ, pos, negsuc, is_nonneg, true, List, ℕ, ◌+◌, ◌-◌, ◌≤◌, ◌≡◌, not, ◌&&◌, leb, ◌==◌, if◌then◌else◌,
  some, arith, refl, lookup, Bool-cases, inl, inr, ap, lookup-insert_self,
}
use funai_chain.Base.Result.{Result, ok, Result-cases}
use funai_chain.Settlement.Params.{Params, HasRatios}
use funai_chain.Settlement.Types.{
  VerifierResult, SettlementEntry, InferenceAccount, Error, settled, fail_settled,
}
use funai_chain.Settlement.Store.{Context, Store}
use funai_chain.Settlement.Account.{unfreeze_balance}
use funai_chain.Settlement.Account.Reservation.{unfreeze_balance_cases}
use funai_chain.Settlement.Account.Solvent.{
  BankLaws, KeeperLaws, IsSolvent, holdings, balances-set, set_inference_account_keyed,
}
use funai_chain.Settlement.Payout.{distribute_success_fee, distribute_fail_fee}
use funai_chain.Settlement.Payout.Shares.{distribute_success_fee_ok, distribute_fail_fee_ok}
use funai_chain.Settlement.Batch.Keeps.{
  Keeps-trans, Keeps-IsSolvent, Keeps-credit_worker, Keeps-done, Keeps-jail,
}
use funai_chain.Settlement.Batch.Entry.{Parties}
use funai_chain.Settlement.Batch.Settle.{
  Tally, settle_success, charge_fail_per_token, credit_worker, debit, lesser, done, finish_success,
}

module _ {S : Type 0} (c : Context S) where
  -- The release of a reservation changes no balance.
  pub unfreeze_balance-IsSolvent :
      (user task_id : ℕ) (s : Store S)
      → IsSolvent c s
      → IsSolvent c (unfreeze_balance c user task_id s)
  unfreeze_balance-IsSolvent user task_id s inv = elim (unfreeze_balance_cases c user task_id s) [
    | inl same ↦ rw same inv
    | inr (amount, ia, e, f, written) ↦
        let new : InferenceAccount = record ia { frozen_balance = ia.frozen_balance - amount } in
        rw written (record {
          keyed = set_inference_account_keyed c s new inv.keyed;
          covered = omega (arith, balances-set c s user ia new inv f refl, inv.covered);
        })
  ]

  pub lookup-unfreeze_balance :
      (user task_id : ℕ) (s : Store S) (ia : InferenceAccount)
      → IsSolvent c s
      → lookup user s.accounts ≡ some ia
      → (j : InferenceAccount) × (lookup user (unfreeze_balance c user task_id s).accounts ≡ some j)
  lookup-unfreeze_balance user task_id s ia inv f = elim (unfreeze_balance_cases c user task_id s) [
    | inl same ↦ (ia, rw same f)
    | inr (amount, i, e, g, written) ↦
        let new : InferenceAccount = record i { frozen_balance = i.frozen_balance - amount } in
        (new, ground (arith, inv.keyed user i g, lookup-insert_self user new s.accounts))
  ]

  -- A payment out of a user's balance, of which at most the amount leaves the module.
  pub debit-IsSolvent :
      (user amount : ℕ) (ia : InferenceAccount) (s t : Store S)
      → IsSolvent c s
      → lookup user s.accounts ≡ some ia
      → amount ≤ ia.balance
      → t.accounts ≡ (debit c ia amount s).accounts
      → holdings c s ≤ holdings c t + amount
      → IsSolvent c t
  debit-IsSolvent user amount ia s t inv there enough same left =
      let new : InferenceAccount = record ia { balance = ia.balance - amount } in
      record {
        keyed = λ a i e. set_inference_account_keyed c s new inv.keyed a i (rw same at e);
        covered = rw same (omega (arith, balances-set c s user ia new inv there refl, inv.covered));
      }

  -- The payment of a success: nothing is sent for a fee of 0.
  pub success_paid :
      (params : Params) (vs : List VerifierResult) (worker amount : ℕ) (ia : InferenceAccount)
      (s t : Store S)
      → BankLaws c
      → (if amount == 0
          then ok (debit c ia amount s)
          else distribute_success_fee c amount worker vs params (debit c ia amount s))
        ≡ ok t
      → (t.accounts ≡ (debit c ia amount s).accounts) × (holdings c s ≤ holdings c t + amount)
  success_paid params vs worker amount ia s t laws h = elim (Bool-cases (amount == 0)) [
    | inl nothing ↦ (ground arith, ground arith)
    | inr some_fee ↦
        let (same, kept) =
          distribute_success_fee_ok c amount worker vs params (debit c ia amount s) t laws
            (ground arith) in
        (ap (λ x. x.accounts) same, omega arith)
  ]

  pub fail_paid :
      (params : Params) (vs : List VerifierResult) (amount : ℕ) (ia : InferenceAccount)
      (s t : Store S)
      → BankLaws c
      → HasRatios params
      → distribute_fail_fee c amount vs params (debit c ia amount s) ≡ ok t
      → (t.accounts ≡ (debit c ia amount s).accounts) × (holdings c s ≤ holdings c t + amount)
  fail_paid params vs amount ia s t laws ratios h =
      let (same, kept, fits) =
        distribute_fail_fee_ok c amount vs params (debit c ia amount s) t laws (omega arith) h in
      (ap (λ x. x.accounts) same, omega arith)

  pub request_paid :
      (params : Params) (vs : List VerifierResult) (amount : ℕ) (ia : InferenceAccount)
      (s t : Store S)
      → BankLaws c
      → HasRatios params
      → (if amount == 0
          then ok (debit c ia amount s)
          else distribute_fail_fee c amount vs params (debit c ia amount s))
        ≡ ok t
      → (t.accounts ≡ (debit c ia amount s).accounts) × (holdings c s ≤ holdings c t + amount)
  request_paid params vs amount ia s t laws ratios h = elim (Bool-cases (amount == 0)) [
    | inl nothing ↦ (ground arith, ground arith)
    | inr some_fee ↦ fail_paid params vs amount ia s t laws ratios (ground arith)
  ]

  finish_success-IsSolvent :
      (worker : ℕ) (fee : ℤ) (e : SettlementEntry) (y z : Tally S) (t : Store S)
      → KeeperLaws c
      → IsSolvent c t
      → finish_success c worker fee e y t ≡ ok z
      → IsSolvent c z.store
  unfolding finish_success
  finish_success-IsSolvent worker fee e y z t keep inv h =
      elim (Result-cases (credit_worker c worker fee e t)) [
        | inl (credited, counted) ↦
            let end : z.store ≡ done c settled fee e credited = ground arith in
            rw end (
              Keeps-IsSolvent c t (done c settled fee e credited)
                (Keeps-trans c t credited _
                  (Keeps-credit_worker c worker fee e t credited keep counted)
                  (Keeps-done c settled fee e credited))
                inv)
        | inr (inl (x, refused)) ↦ ground arith
        | inr (inr panics) ↦ ground arith
      ]

  pub settle_success-IsSolvent :
      (params : Params) (e : SettlementEntry) (who : Parties) (fee : ℤ) (ia : InferenceAccount)
      (y z : Tally S)
      → BankLaws c
      → KeeperLaws c
      → is_nonneg fee ≡ true
      → IsSolvent c y.store
      → lookup who.user y.store.accounts ≡ some ia
      → settle_success c params e who fee ia y ≡ ok z
      → IsSolvent c z.store
  unfolding settle_success
  settle_success-IsSolvent params e who (negsuc n) ia y z laws keep sign inv there h = ground arith
  settle_success-IsSolvent params e who (pos fee) ia y z laws keep sign inv there h =
      let payable = lesser ia.balance fee in
      let debited = debit c ia payable y.store in
      let payment : Result Error (Store S) =
        if payable == 0
        then ok debited
        else distribute_success_fee c payable who.worker e.verifier_results params debited in
      elim (Result-cases payment) [
        | inl (t, paid) ↦
            let (same, left) =
              success_paid params e.verifier_results who.worker payable ia y.store t laws paid in
            let solvent =
              debit-IsSolvent who.user payable ia y.store t inv there (ground arith) same left in
            finish_success-IsSolvent who.worker (pos payable) e y z t keep solvent (ground arith)
        | inr (inl (x, refused)) ↦ let end : z ≡ y = ground arith in rw end inv
        | inr (inr panics) ↦ ground arith
      ]

  -- A failed task is recorded, and its worker jailed, without touching the accounts.
  pub finished-IsSolvent :
      (fee : ℤ) (e : SettlementEntry) (worker : ℕ) (s : Store S)
      → KeeperLaws c
      → IsSolvent c s
      → IsSolvent c (record (done c fail_settled fee e s) {
        outer = c.jail_worker (done c fail_settled fee e s).outer worker;
      })
  finished-IsSolvent fee e worker s keep inv =
      let recorded = done c fail_settled fee e s in
      Keeps-IsSolvent c s (record recorded { outer = c.jail_worker recorded.outer worker })
        (Keeps-trans c s recorded _ (Keeps-done c fail_settled fee e s)
          (Keeps-jail c worker recorded keep))
        inv

  pub charge_fail_per_token-IsSolvent :
      (params : Params) (e : SettlementEntry) (who : Parties) (fee : ℤ) (charge : ℕ)
      (ia : InferenceAccount) (y z : Tally S)
      → BankLaws c
      → KeeperLaws c
      → HasRatios params
      → IsSolvent c y.store
      → lookup who.user y.store.accounts ≡ some ia
      → charge_fail_per_token c params e who fee charge ia y ≡ ok z
      → IsSolvent c z.store
  unfolding charge_fail_per_token
  charge_fail_per_token-IsSolvent params e who fee charge ia y z laws keep ratios inv there h =
      let debited = debit c ia charge y.store in
      let finish : Store S → Store S = λ t. record (done c fail_settled (pos 0) e t) {
        outer = c.jail_worker t.outer who.worker;
      } in
      elim (Bool-cases (leb charge ia.balance && not (charge == 0))) [
        | inl charged ↦
            elim (Result-cases (distribute_fail_fee c charge e.verifier_results params debited)) [
              | inl (t, paid) ↦
                  let (same, left) =
                    fail_paid params e.verifier_results charge ia y.store t laws ratios paid in
                  let solvent =
                    debit-IsSolvent who.user charge ia y.store t inv there (ground arith) same
                      left in
                  let end : z.store ≡ finish t = ground arith in
                  rw end (finished-IsSolvent (pos 0) e who.worker t keep solvent)
              | inr (inl (x, refused)) ↦
                  let end : z.store ≡ finish y.store = ground arith in
                  rw end (finished-IsSolvent (pos 0) e who.worker y.store keep inv)
              | inr (inr panics) ↦ ground arith
            ]
        | inr free ↦
            let end : z.store ≡ finish y.store = ground arith in
            rw end (finished-IsSolvent (pos 0) e who.worker y.store keep inv)
      ]
