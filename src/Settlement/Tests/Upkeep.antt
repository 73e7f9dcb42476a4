-- ===== src/Settlement/Tests/Upkeep.antt =====
-- The theorems about the end of a block, at the fixtures' bank some 20,000 blocks later, when task 77
-- waits for its second verification and task 78 has a reservation that has expired.
use funai_chain.Base.{
  negsuc, false, Bool-cases, ◌==◌, inl, inr, arith, ◌≡◌, true, some, [], ◌∷◌, arith, refl,
}
use funai_chain.Base.Result.{Result, ok, err, panic}
use funai_chain.Settlement.Params.{default_params}
use funai_chain.Settlement.Types.{fail, Error, PendingTask, FrozenTaskMeta}
use funai_chain.Settlement.Store.{Context, Store}
use funai_chain.Settlement.Account.{unfreeze_balance}
use funai_chain.Settlement.Account.Solvent.{BankLaws, KeeperLaws, IsSolvent}
use funai_chain.Settlement.Batch.Entry.{pending_of}
use funai_chain.Settlement.Payout.{
  distribute_success_fee, pay_verifiers, pay_verifier, pay_executor, dedup_verifier_results,
  dedup_from,
}
use funai_chain.Settlement.Audit.Solvent.{HasCharges}
use funai_chain.Settlement.Audit.Settle.{
  settle_audited_task, settle_found, base_fee, settle_as_success,
}
use funai_chain.Settlement.Upkeep.Timeouts.{
  time_out, time_out_all, process_timeouts_by_index, handle_second_verification_timeouts,
  cleanup_expired_tasks,
}
use funai_chain.Settlement.Upkeep.Frozen.{
  charge_timeout, jail_expired, expire_reservation, expire_reservations,
  handle_frozen_balance_timeouts, upkeep,
}
use funai_chain.Settlement.Upkeep.Solvent.{upkeep-IsSolvent}
use funai_chain.Settlement.Tests.Bank.{
  Book, bank, store, entry, store-IsSolvent, bank-laws, keeper-laws,
}

abbrev late : Context Book
late = record bank { height = 21000 }

late-BankLaws : BankLaws late
late-BankLaws = record {
  send_debit = bank-laws.send_debit;
  send_exact = bank-laws.send_exact;
  send_credit = bank-laws.send_credit;
  send_others = bank-laws.send_others;
  decode-encode = bank-laws.decode-encode;
}

late-KeeperLaws : KeeperLaws late
late-KeeperLaws = record {
  jail_keeps = keeper-laws.jail_keeps;
  streak_keeps = keeper-laws.streak_keeps;
  stats_keeps = keeper-laws.stats_keeps;
  accept_keeps = keeper-laws.accept_keeps;
  latency_keeps = keeper-laws.latency_keeps;
  model_keeps = keeper-laws.model_keeps;
}

abbrev waiting : PendingTask
waiting = pending_of bank entry

abbrev expired : FrozenTaskMeta
expired = record {
  task_id = 78;
  user_address = 11;
  worker_address = 21;
  max_fee = 100;
  expire_block = 1200;
}

abbrev waiting_store : Store Book
waiting_store = record store {
  second_pending = (77, waiting) ∷ [];
  second_timeouts = (1000, 77) ∷ [];
  frozen_index = expired ∷ [];
  params = some (record default_params { per_token_billing_enabled = true });
}

waiting_store-IsSolvent : IsSolvent late waiting_store
waiting_store-IsSolvent = record {
  keyed = store-IsSolvent.keyed;
  covered = store-IsSolvent.covered;
}

waiting_store-HasCharges : HasCharges waiting_store.second_pending
waiting_store-HasCharges id apt e = elim (Bool-cases (id == 77)) [
  | inl here ↦ ground (arith, here, e)
  | inr other ↦ ground (arith, other, e)
]

abbrev store_of : Result Error (Store Book) → Store Book
store_of (ok t) = t
store_of (err e) = store
store_of panic = store

abbrev kept : Store Book
kept = store_of (upkeep late waiting_store)

upkeep_succeeds : upkeep late waiting_store ≡ ok kept
unfolding upkeep cleanup_expired_tasks handle_second_verification_timeouts process_timeouts_by_index
    time_out_all time_out settle_audited_task settle_found base_fee settle_as_success
    handle_frozen_balance_timeouts expire_reservations expire_reservation charge_timeout
    jail_expired distribute_success_fee pay_verifiers pay_verifier pay_executor
    dedup_verifier_results dedup_from unfreeze_balance
upkeep_succeeds = refl

upkeep-IsSolvent_example : IsSolvent late kept
upkeep-IsSolvent_example =
    upkeep-IsSolvent late waiting_store kept late-BankLaws late-KeeperLaws (omega arith)
      waiting_store-HasCharges (λ id apt e. ground (arith, e)) waiting_store-IsSolvent
      upkeep_succeeds

abbrev timed_out : Store Book
timed_out = store_of (time_out late true default_params waiting (1000, 77) waiting_store)

-- A failed task with a negative fee that has been put off: its timeout panics, at the end of a block.
negative_fee_panics :
    time_out late false default_params
      (record waiting { original_status = fail; fee = negsuc 99 })
      (1000, 77)
      waiting_store
    ≡ panic
unfolding time_out settle_audited_task settle_found base_fee unfreeze_balance
negative_fee_panics = refl
