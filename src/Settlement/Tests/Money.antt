-- ===== src/Settlement/Tests/Money.antt =====
-- The theorems about money, at the fixtures' bank.
use funai_chain.Base.{negsuc, ℕ, ◌+◌, ◌≤◌, ◌≡◌, none, some, [], ◌∷◌, lookup, arith, refl, length}
use funai_chain.Base.Result.{Result, ok, err, panic}
use funai_chain.Settlement.Params.{default_params}
use funai_chain.Settlement.Types.{InferenceAccount, Coin, default_denom, Error, MsgBatchReserve}
use funai_chain.Settlement.Store.{Store}
use funai_chain.Settlement.Account.{
  available_balance, process_deposit, process_withdraw, withdraw_from, freeze_balance,
  freeze_account, unfreeze_balance,
}
use funai_chain.Settlement.Account.Solvent.{
  IsSolvent, balances, holdings, process_withdraw-IsSolvent,
}
use funai_chain.Settlement.Account.Reservation.{unfreeze-freeze}
use funai_chain.Settlement.Payout.{
  verifier_pool, audit_fund, distribute_success_fee, distribute_fail_fee, pay_verifiers,
  pay_verifier, pay_executor, dedup_verifier_results, dedup_from,
}
use funai_chain.Settlement.Payout.Shares.{distribute_success_fee_exact}
use funai_chain.Settlement.Batch.Message.{
  batch_settle, process_batch_settlement, verify_proposer_sig, close_batch, close_or_panic,
  empty_tally,
}
use funai_chain.Settlement.Batch.Settle.{
  process_entries, process_entry, settle_entry, settle_charged, settle_success, finish_success,
  credit_worker, refund,
}
use funai_chain.Settlement.Batch.Entry.{
  admit, is_fresh, parties, audit_rate, is_put_off, forces_audit,
}
use funai_chain.Settlement.Batch.Charge.{count_verifiers, actual_fee}
use funai_chain.Settlement.Trigger.{should_trigger}
use funai_chain.Settlement.Batch.Safety.{batch_settle-IsSolvent}
use funai_chain.Settlement.Merkle.{verify_merkle_root, merkle_root, collapse, level}
use funai_chain.Settlement.Reserve.{
  process_batch_reserve, batch_reserve, reserve_entries, reserve_entry, reserve_for, is_reservable,
}
use funai_chain.Settlement.Reserve.Safe.{Reserves, process_batch_reserve_ok}
use funai_chain.Settlement.Tests.Bank.{
  Book, bank, bank-laws, keeper-laws, store, store-IsSolvent, verdicts, batch, entry,
}

-- The store that an operation leaves; the fixture's where it fails.
abbrev store_of : Result Error (Store Book) → Store Book
store_of (ok t) = t
store_of (err e) = store
store_of panic = store

abbrev coins : ℕ → Coin
coins n = record { denom = default_denom; amount = n }

abbrev deposited : Store Book
deposited = store_of (process_deposit bank 10 (coins 30) store)

deposit_succeeds : process_deposit bank 10 (coins 30) store ≡ ok deposited
unfolding process_deposit
deposit_succeeds = refl

abbrev withdrawn : Store Book
withdrawn = store_of (process_withdraw bank 10 (coins 450) store)

withdrawal_succeeds : process_withdraw bank 10 (coins 450) store ≡ ok withdrawn
unfolding process_withdraw withdraw_from available_balance
withdrawal_succeeds = refl

process_withdraw-IsSolvent_example :
    IsSolvent bank withdrawn
    × (balances bank withdrawn + 450 ≡ balances bank store)
    × ((ia : InferenceAccount) × (lookup 10 store.accounts ≡ some ia)
        × (450 ≤ available_balance ia))
process_withdraw-IsSolvent_example =
    process_withdraw-IsSolvent bank 10 (coins 450) store withdrawn bank-laws store-IsSolvent
      withdrawal_succeeds

abbrev frozen : Store Book
frozen = store_of (freeze_balance bank 10 78 100 store)

freeze_succeeds : freeze_balance bank 10 78 100 store ≡ ok frozen
unfolding freeze_balance freeze_account available_balance
freeze_succeeds = refl

abbrev account : InferenceAccount
account = record { address = 11; balance = 500; frozen_balance = 50 }

unfreeze-freeze_example :
    ((j : InferenceAccount) × (lookup 10 frozen.accounts ≡ some j)
      × (available_balance j + 100 ≡ available_balance account))
    × (lookup 10 (unfreeze_balance bank 10 78 frozen).accounts ≡ some account)
    × (lookup 78 (unfreeze_balance bank 10 78 frozen).frozen ≡ none)
unfreeze-freeze_example =
    unfreeze-freeze bank 10 78 100 store frozen account refl refl freeze_succeeds

abbrev shared : Store Book
shared = store_of (distribute_success_fee bank 50 20 verdicts default_params store)

split_succeeds : distribute_success_fee bank 50 20 verdicts default_params store ≡ ok shared
unfolding distribute_success_fee pay_verifiers pay_verifier pay_executor dedup_verifier_results
    dedup_from
split_succeeds = refl

distribute_success_fee_exact_example :
    (holdings bank store + audit_fund 50 default_params ≡ holdings bank shared + 50)
    × (store.outer 20 + 50
        ≤ shared.outer 20 + verifier_pool 50 default_params + audit_fund 50 default_params)
distribute_success_fee_exact_example =
    distribute_success_fee_exact bank 50 20 verdicts default_params store shared bank-laws
      (λ e. ground arith, (λ e. ground arith, (λ e. ground arith, tt))) (λ e. ground arith)
      split_succeeds

abbrev fail_shared : Store Book
fail_shared = store_of (distribute_fail_fee bank 50 verdicts default_params store)

fail_split_succeeds : distribute_fail_fee bank 50 verdicts default_params store ≡ ok fail_shared
unfolding distribute_fail_fee pay_verifiers pay_verifier dedup_verifier_results dedup_from
fail_split_succeeds = refl

-- The batch is settled: the user pays 50, and of it 6 go to the verifiers and 43 to the worker.
batch_pays :
    (lookup 10 (batch_settle bank batch store).accounts
      ≡ some (record { address = 11; balance = 450; frozen_balance = 0 }))
    × ((batch_settle bank batch store).outer 20 ≡ 43)
    × ((batch_settle bank batch store).outer 32 ≡ 2)
    × ((batch_settle bank batch store).outer 0 ≡ 651)
unfolding batch_settle process_batch_settlement verify_proposer_sig verify_merkle_root merkle_root
    collapse level close_batch process_entries process_entry admit is_fresh parties audit_rate
    settle_entry is_put_off forces_audit should_trigger count_verifiers actual_fee settle_charged
    unfreeze_balance settle_success finish_success credit_worker close_or_panic
    distribute_success_fee pay_verifiers pay_verifier pay_executor dedup_verifier_results dedup_from
batch_pays = (refl, refl, refl, refl)

-- A success with a fee of -100 adds 100 to the user's balance, and sends nothing.
negative_fee_pays_user :
    settle_success bank default_params
      (record entry { model_id = 0 })
      (record { user = 10; worker = 20; account = account })
      (negsuc 99)
      account
      (empty_tally bank store)
    ≡ finish_success bank 20
        (negsuc 99)
        (record entry { model_id = 0 })
        (empty_tally bank store)
        (refund bank account 100 store)
unfolding settle_success
negative_fee_pays_user = refl

batch_settle-IsSolvent_example : IsSolvent bank (batch_settle bank batch store)
batch_settle-IsSolvent_example =
    batch_settle-IsSolvent bank batch store bank-laws keeper-laws (omega arith) refl store-IsSolvent

abbrev reservations : MsgBatchReserve
reservations = record {
  proposer = 21;
  merkle_root = 24727;
  entries =
      record { task_id = 78; user_address = 11; max_fee = coins 100; expire_block = 2000 }
      ∷ record { task_id = 79; user_address = 11; max_fee = coins 900; expire_block = 2000 }
      ∷ [];
  proposer_sig = 24847;
  result_count = 2;
}

-- The first entry is reserved; the second is more than the user's available balance.
abbrev reserved : Store Book
reserved = (process_batch_reserve bank reservations store).0

reservations_run : process_batch_reserve bank reservations store ≡ (reserved, ok (1, 1))
unfolding process_batch_reserve verify_proposer_sig verify_merkle_root merkle_root collapse level
    reserve_entries reserve_entry is_reservable reserve_for freeze_balance freeze_account
    available_balance
reservations_run = refl

process_batch_reserve_ok_example :
    Reserves bank store reserved
    × (batch_reserve bank reservations store ≡ reserved)
    × (1 + 1 ≡ length reservations.entries)
process_batch_reserve_ok_example =
    process_batch_reserve_ok bank reservations store reserved 1 1 store-IsSolvent reservations_run
      (omega arith)
