-- ===== src/Settlement/Batch/Settle.antt =====
-- `ProcessBatchSettlement` (keeper.go), the settlement of one entry. A branch of the store is kept
-- only when every transfer goes through: that is the `CacheContext` of the source. The events that
-- report a shortfall are left out.
use funai_chain.Base.{
  ℕ, suc, ℤ, pos, negsuc, ◌+ℤ◌, ◌+◌, ◌-◌, ◌*◌, ◌/◌, not, ◌&&◌, ltb, leb, ◌==◌, if◌then◌else◌, List,
  [], ◌∷◌, u32, Option, none, some, get_or,
}
use funai_chain.Base.Result.{Result, ok, err, panic, map_ok, ◌>>=◌}
use funai_chain.Settlement.Params.{Params}
use funai_chain.Settlement.Types.{
  SettlementEntry, SettledTask, TaskStatus, InferenceAccount, Error, is_per_token, is_success,
  settled, fail_settled,
}
use funai_chain.Settlement.Store.{
  Context, Store, set_inference_account, get_inference_account, set_settled_task,
}
use funai_chain.Settlement.Account.{unfreeze_balance}
use funai_chain.Settlement.Payout.{distribute_success_fee, distribute_fail_fee}
use funai_chain.Settlement.Mismatch.{reset_dishonest_count}
use funai_chain.Settlement.Batch.Entry.{
  Parties, addresses_of, admit, audit_rate, is_put_off, put_off,
}
use funai_chain.Settlement.Batch.Charge.{count_verifiers, actual_fee, uint64}

-- The loop's variables. The counts are uint32.
pub record Tally (S : Type 0) : Type 0 where
  pub store : Store S
  pub success_count : ℕ
  pub fail_count : ℕ
  pub total_fees : ℤ

abbrev pub lesser : ℕ → ℕ → ℕ
lesser a b = if ltb a b then a else b

-- The share of a failed task's fee that is charged.
abbrev pub fail_fee_of : Params → ℕ → ℕ
fail_fee_of params fee = fee * params.fail_settlement_fee_ratio / 1000

-- The fail fee as a coin: `sdk.NewCoin` panics on a negative amount.
abbrev pub fail_fee : Params → ℤ → Result Error ℕ
fail_fee params (pos n) = ok (fail_fee_of params n)
fail_fee params (negsuc n) = if fail_fee_of params (suc n) == 0 then ok 0 else panic

-- `ia, _ = GetInferenceAccount(...)`: the zero value where there is none.
abbrev pub account_or_zero : Option InferenceAccount → InferenceAccount
account_or_zero o = get_or (record { address = 0; balance = 0; frozen_balance = 0 }) o

module _ {S : Type 0} (c : Context S) where
  abbrev pub record_of : SettlementEntry → TaskStatus → ℤ → SettledTask
  record_of e status fee = record {
    task_id = e.task_id;
    status = status;
    expire_block = e.expire_block;
    settled_at = c.height;
    worker_address = e.worker_address;
    original_verifiers = addresses_of e.verifier_results;
    fee = fee;
    user_address = e.user_address;
  }

  -- What a success is worth to the worker's standing, and to the model's statistics, which take the
  -- fee as a uint64.
  unfoldable pub credit_worker : ℕ → ℤ → SettlementEntry → Store S → Result Error (Store S)
  credit_worker worker fee e s =
      let streak = c.increment_success_streak s.outer worker in
      let s1 =
        if leb 50 (c.success_streak streak worker)
        then reset_dishonest_count worker (record s { outer = streak })
        else record s { outer = streak } in
      let accepted = c.reputation_on_accept (c.update_worker_stats s1.outer worker fee) worker in
      let timed =
        if ltb 0 e.latency_ms
        then c.update_avg_latency accepted worker (u32 e.latency_ms)
        else accepted in
      if e.model_id == 0
      then ok (record s1 { outer = timed })
      else map_ok (λ n. record s1 { outer = c.record_model_task timed e.model_id n e.latency_ms })
          (uint64 fee)

  abbrev pub debit : InferenceAccount → ℕ → Store S → Store S
  debit ia amount s = set_inference_account c (record ia { balance = ia.balance - amount }) s

  -- The debit of a negative amount.
  abbrev pub refund : InferenceAccount → ℕ → Store S → Store S
  refund ia amount s = set_inference_account c (record ia { balance = ia.balance + amount }) s

  abbrev pub done : TaskStatus → ℤ → SettlementEntry → Store S → Store S
  done status fee e s = set_settled_task (record_of e status fee) s

  -- What follows a success that is paid.
  unfoldable pub finish_success :
      ℕ → ℤ → SettlementEntry → Tally S → Store S → Result Error (Tally S)
  unfolding credit_worker
  finish_success worker payable e y t =
      map_ok
        (λ credited. record y {
          store = done settled payable e credited;
          success_count = u32 (y.success_count + 1);
          total_fees = y.total_fees +ℤ payable;
        })
        (credit_worker worker payable e t)

  -- SUCCESS: the user pays the fee, or all of a smaller balance. A negative fee is added to the
  -- balance, and nothing is shared out.
  unfoldable pub settle_success :
      Params → SettlementEntry → Parties → ℤ → InferenceAccount → Tally S → Result Error (Tally S)
  unfolding finish_success
  settle_success params e who (negsuc n) ia y =
      finish_success who.worker (negsuc n) e y (refund ia (suc n) y.store)
  settle_success params e who (pos fee) ia y =
      let payable = lesser ia.balance fee in
      let debited = debit ia payable y.store in
      elim (if payable == 0
        then ok debited
        else distribute_success_fee c payable who.worker e.verifier_results params debited) [
          | err x ↦ ok y
          | panic ↦ panic
          | ok t ↦ finish_success who.worker (pos payable) e y t
        ]

  -- A failed per-token task: the fail fee is charged if the balance covers it and the payment goes
  -- through. The task is recorded and the worker jailed in any case.
  unfoldable pub charge_fail_per_token :
      Params
      → SettlementEntry
      → Parties
      → ℤ
      → ℕ
      → InferenceAccount
      → Tally S
      → Result Error (Tally S)
  charge_fail_per_token params e who fee charge ia y =
      let finish : Store S → Result Error (Tally S) = λ t. ok (record y {
        store =
            let recorded = done fail_settled (pos 0) e t in
            record recorded { outer = c.jail_worker recorded.outer who.worker };
        fail_count = u32 (y.fail_count + 1);
        total_fees = y.total_fees +ℤ fee;
      }) in
      if leb charge ia.balance && not (charge == 0)
      then elim (distribute_fail_fee c charge e.verifier_results params (debit ia charge y.store)) [
        | ok t ↦ finish t
        | err x ↦ finish y.store
        | panic ↦ panic
      ]
      else finish y.store

  abbrev pub settle_fail_per_token :
      Params → SettlementEntry → Parties → ℤ → InferenceAccount → Tally S → Result Error (Tally S)
  settle_fail_per_token params e who fee ia y =
      fail_fee params fee >>= λ charge. charge_fail_per_token params e who fee charge ia y

  -- A failed per-request task: the user pays the fail fee, or all of a smaller balance.
  unfoldable pub charge_fail_per_request :
      Params
      → SettlementEntry
      → Parties
      → ℤ
      → ℕ
      → InferenceAccount
      → Tally S
      → Result Error (Tally S)
  charge_fail_per_request params e who fee due ia y =
      let charge = lesser ia.balance due in
      let debited = debit ia charge y.store in
      elim (if charge == 0
        then ok debited
        else distribute_fail_fee c charge e.verifier_results params debited) [
          | err x ↦ ok y
          | panic ↦ panic
          | ok t ↦ ok (record y {
            store =
                done fail_settled (pos charge) e
                  (record t { outer = c.jail_worker t.outer who.worker });
            fail_count = u32 (y.fail_count + 1);
            total_fees = y.total_fees +ℤ fee;
          })
        ]

  abbrev pub settle_fail_per_request :
      Params → SettlementEntry → Parties → ℤ → InferenceAccount → Tally S → Result Error (Tally S)
  settle_fail_per_request params e who fee ia y =
      fail_fee params e.fee.amount >>= λ due. charge_fail_per_request params e who fee due ia y

  -- The choice by status and billing mode, behind the release of the task's reservation.
  unfoldable pub settle_charged :
      Params → SettlementEntry → Parties → ℤ → Tally S → Result Error (Tally S)
  unfolding settle_success charge_fail_per_token charge_fail_per_request
  settle_charged params e who fee y =
      let released = unfreeze_balance c who.user e.task_id y.store in
      let ia = account_or_zero (get_inference_account who.user released) in
      let z = record y { store = released } in
      if is_success e.status
      then settle_success params e who fee ia z
      else if is_per_token e
      then settle_fail_per_token params e who fee ia z
      else settle_fail_per_request params e who fee ia z

  -- The rest of the loop's body for an entry that is not passed over.
  unfoldable pub settle_entry :
      Params → SettlementEntry → Parties → ℕ → Tally S → Result Error (Tally S)
  settle_entry params e who rate y =
      if is_put_off c params e rate then ok (record y { store = put_off c e y.store }) else do
        (fee, s) ← actual_fee c params who.worker e (count_verifiers c e.verifier_results y.store)
        settle_charged params e who fee (record y { store = s })

  unfoldable pub process_entry : Params → SettlementEntry → Tally S → Result Error (Tally S)
  unfolding settle_entry
  process_entry params e y = elim (admit c e y.store) [
    | none ↦ ok y
    | some who ↦ audit_rate c params e y.store >>= λ rate. settle_entry params e who rate y
  ]

  unfoldable pub process_entries : Params → List SettlementEntry → Tally S → Result Error (Tally S)
  process_entries params [] y = ok y
  process_entries params (e ∷ es) y = elim (process_entry params e y) [
    | ok z ↦ process_entries params es z
    | err x ↦ err x
    | panic ↦ panic
  ]
