-- ===== src/Settlement/Audit/Settle.antt =====
-- `settleAuditedTask` and the jailing loops (keeper.go): what becomes of a task when its second
-- verification, or the wait for it, is over.
use funai_chain.Base.{
  ℕ, suc, ℤ, pos, negsuc, ◌&&◌, ◌-◌, ◌*◌, ◌/◌, Bool, true, false, not, ◌||◌, ltb, ◌==◌,
  if◌then◌else◌, Option, none, some, List, [], ◌∷◌,
}
use funai_chain.Base.Result.{Result, ok, err, panic, map_ok, ◌>>=◌}
use funai_chain.Settlement.Params.{Params}
use funai_chain.Settlement.Types.{
  PendingTask, SettledTask, TaskStatus, VerifierResult, InferenceAccount, Error, settled,
  fail_settled,
}
use funai_chain.Settlement.Store.{
  Context, Store, get_inference_account, has_fraud_mark, set_settled_task,
}
use funai_chain.Settlement.Fees.Fee.{calculate_per_token_fee}
use funai_chain.Settlement.Account.{unfreeze_balance}
use funai_chain.Settlement.Payout.{distribute_success_fee, distribute_fail_fee}
use funai_chain.Settlement.Batch.Settle.{
  lesser, fail_fee_of, fail_fee, account_or_zero, debit, refund,
}
use funai_chain.Settlement.Batch.Charge.{uint64}

abbrev pub unsigned_results : List ℕ → List VerifierResult
unsigned_results [] = []
unsigned_results (a ∷ as') =
    record {
      address = a;
      pass = false;
      signature = 0;
      logits_hash = 0;
      verified_input_tokens = 0;
      verified_output_tokens = 0;
    }
    ∷ unsigned_results as'

abbrev pub vote : List Bool → Option Bool
vote [] = none
vote (v ∷ vs) = some v

abbrev pub later_votes : List Bool → List Bool
later_votes [] = []
later_votes (v ∷ vs) = vs

-- Which votes are punished, where a vote may be missing.
abbrev pub unless_fail : Option Bool → Bool
unless_fail none = true
unless_fail (some v) = v

abbrev pub unless_pass : Option Bool → Bool
unless_pass none = true
unless_pass (some v) = not v

abbrev pub if_pass : Option Bool → Bool
if_pass none = false
if_pass (some v) = v

abbrev pub if_fail : Option Bool → Bool
if_fail none = false
if_fail (some v) = not v

module _ {S : Type 0} (c : Context S) where
  abbrev pub jail_address : ℕ → S → S
  jail_address str o = elim (c.decode str) [ none ↦ o | some a ↦ c.jail_worker o a ]

  -- The loop over addresses and votes.
  unfoldable pub jail_where : (Option Bool → Bool) → List ℕ → List Bool → S → S
  jail_where punished [] votes o = o
  jail_where punished (a ∷ as') votes o =
      jail_where punished as' (later_votes votes)
        (if punished (vote votes) then jail_address a o else o)

  abbrev pub jail_worker_and_verifiers : PendingTask → Store S → Store S
  jail_worker_and_verifiers apt s = record s {
    outer =
        jail_where unless_fail apt.verifier_addresses apt.verifier_votes
          (jail_address apt.worker_address s.outer);
  }

  abbrev pub jail_fail_verifiers : PendingTask → Store S → Store S
  jail_fail_verifiers apt s = record s {
    outer = jail_where unless_pass apt.verifier_addresses apt.verifier_votes s.outer;
  }

  abbrev pub outcome_of : PendingTask → TaskStatus → ℤ → SettledTask
  outcome_of apt status fee = record {
    task_id = apt.task_id;
    status = status;
    expire_block = apt.expire_block;
    settled_at = c.height;
    worker_address = apt.worker_address;
    original_verifiers = apt.verifier_addresses;
    fee = fee;
    user_address = apt.user_address;
  }

  -- The fee of the task, recomputed for per-token billing, where an override may replace the output
  -- tokens.
  unfoldable pub base_fee : PendingTask → ℕ → Result Error ℤ
  base_fee apt override =
      let out = if ltb 0 override then override else apt.settled_output_tokens in
      if ltb 0 apt.fee_per_input_token || ltb 0 apt.fee_per_output_token
      then map_ok
          (λ max_fee. pos (
            calculate_per_token_fee apt.settled_input_tokens out apt.fee_per_input_token
              apt.fee_per_output_token max_fee))
          (uint64 apt.max_fee)
      else ok apt.fee

  abbrev pub succeeded : PendingTask → ℕ → ℤ → Store S → Store S
  succeeded apt worker fee t = set_settled_task (outcome_of apt settled fee) (record t {
    outer = c.update_worker_stats (c.increment_success_streak t.outer worker) worker fee;
  })

  -- The success branch. A refused transfer keeps only the released reservation, and reports false.
  -- A negative fee is added to the balance; with a part paid before, the coin of the rest panics.
  unfoldable pub settle_as_success :
      PendingTask
      → ℕ
      → ℤ
      → Bool
      → Params
      → InferenceAccount
      → Store S
      → Result Error (Store S × Bool)
  settle_as_success apt worker (negsuc n) already_paid_fail params ia s =
      let rest = if already_paid_fail then suc n - fail_fee_of params (suc n) else suc n in
      if already_paid_fail && not (rest == 0)
      then panic
      else ok (succeeded apt worker (negsuc n) (refund c ia rest s), true)
  settle_as_success apt worker (pos fee) already_paid_fail params ia s =
      let charge = if already_paid_fail then fee - fail_fee_of params fee else fee in
      let payable = lesser ia.balance charge in
      let distributable = if ltb ia.balance charge then fee * payable / charge else fee in
      let debited = debit c ia payable s in
      elim (if distributable == 0
        then ok debited
        else distribute_success_fee c distributable worker (unsigned_results apt.verifier_addresses)
            params debited) [
              | err x ↦ ok (s, false)
              | panic ↦ panic
              | ok t ↦ ok (succeeded apt worker (pos distributable) t, true)
            ]

  unfoldable pub charge_as_fail :
      PendingTask → ℕ → ℕ → Params → InferenceAccount → Store S → Result Error (Store S × Bool)
  charge_as_fail apt worker due params ia s =
      let charge = lesser ia.balance due in
      let debited = debit c ia charge s in
      elim (if charge == 0
        then ok debited
        else distribute_fail_fee c charge (unsigned_results apt.verifier_addresses) params
            debited) [
              | err x ↦ ok (s, false)
              | panic ↦ panic
              | ok t ↦ ok (
                set_settled_task (outcome_of apt fail_settled (pos charge))
                    (record t { outer = c.jail_worker t.outer worker }),
                true,
              )
            ]

  abbrev pub settle_as_fail :
      PendingTask → ℕ → ℤ → Params → InferenceAccount → Store S → Result Error (Store S × Bool)
  settle_as_fail apt worker fee params ia s =
      fail_fee params fee >>= λ due. charge_as_fail apt worker due params ia s

  -- Behind the lookups: the reservation is released, then one of the branches runs.
  unfoldable pub settle_found :
      PendingTask → ℕ → ℕ → Bool → Bool → Params → ℕ → Store S → Result Error (Store S × Bool)
  settle_found apt user worker as_success already_paid_fail params override s =
      let released = unfreeze_balance c user apt.task_id s in
      let ia = account_or_zero (get_inference_account user released) in
      base_fee apt override >>= λ fee.
      if as_success
      then settle_as_success apt worker fee already_paid_fail params ia released
      else settle_as_fail apt worker fee params ia released

  -- True where the task has reached a terminal state.
  unfoldable pub settle_audited_task :
      PendingTask → Bool → Bool → Params → ℕ → Store S → Result Error (Store S × Bool)
  settle_audited_task apt as_success already_paid_fail params override s =
      let found : Result Error (Store S × Bool) = elim (c.decode apt.user_address) [
        | none ↦ ok (s, false)
        | some user ↦ elim (c.decode apt.worker_address) [
          | none ↦ ok (s, false)
          | some worker ↦ elim (get_inference_account user s) [
            | none ↦ ok (s, false)
            | some ia ↦ settle_found apt user worker as_success already_paid_fail params override s
          ]
        ]
      ] in
      if has_fraud_mark apt.task_id s then ok (s, true) else found
