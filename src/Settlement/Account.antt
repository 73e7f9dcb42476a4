-- ===== src/Settlement/Account.antt =====
-- x/settlement/keeper/keeper.go, the users' accounts: deposits, withdrawals, and the reservations
-- that freeze a part of a balance for a task. An error discards what the call wrote, as the
-- transaction around it does. All stored coins are ufai.
pub mod Reservation
pub mod Solvent
use funai_chain.Base.{
  ℕ, ◌+◌, ◌-◌, Bool, not, ltb, leb, ◌==◌, if◌then◌else◌, Option, none, some, List, insert, erase,
  lookup,
}
use funai_chain.Base.Result.{Result, ok, err, panic}
use funai_chain.Settlement.Types.{
  Coin, InferenceAccount, Error, default_denom, wrong_denom, insufficient_balance,
  account_not_found, send_failed,
}
use funai_chain.Settlement.Store.{Context, Store, set_inference_account, get_inference_account}

-- `AvailableBalance`: what is not frozen, and 0 where more is frozen than there is.
unfoldable pub available_balance : InferenceAccount → ℕ
available_balance ia =
    if ia.frozen_balance == 0
    then ia.balance
    else if ltb ia.balance ia.frozen_balance
    then 0
    else ia.balance - ia.frozen_balance

module _ {S : Type 0} (c : Context S) where
  -- The account that a deposit writes: a new one, or the old one with a higher balance.
  abbrev pub credited : ℕ → ℕ → Option InferenceAccount → InferenceAccount
  credited creator amount none = record {
    address = c.encode creator;
    balance = amount;
    frozen_balance = 0;
  }
  credited creator amount (some ia) = record ia { balance = ia.balance + amount }

  unfoldable pub process_deposit : ℕ → Coin → Store S → Result Error (Store S)
  process_deposit creator amount s =
      let account = credited creator amount.amount (get_inference_account creator s) in
      if not (amount.denom == default_denom)
      then err wrong_denom
      else elim (c.send s.outer creator c.module_account amount.amount) [
        | none ↦ err insufficient_balance
        | some paid ↦ ok (set_inference_account c account (record s { outer = paid }))
      ]

  -- The part of `ProcessWithdraw` behind the account lookup: the debit, then the transfer.
  unfoldable pub withdraw_from : ℕ → ℕ → Store S → InferenceAccount → Result Error (Store S)
  unfolding available_balance
  withdraw_from creator amount s ia =
      let debited = set_inference_account c (record ia { balance = ia.balance - amount }) s in
      if ltb (available_balance ia) amount
      then err insufficient_balance
      else elim (c.send debited.outer c.module_account creator amount) [
        | none ↦ err send_failed
        | some paid ↦ ok (record debited { outer = paid })
      ]

  unfoldable pub process_withdraw : ℕ → Coin → Store S → Result Error (Store S)
  unfolding withdraw_from
  process_withdraw creator amount s =
      if not (amount.denom == default_denom)
      then err wrong_denom
      else elim (get_inference_account creator s) [
        | none ↦ err account_not_found
        | some ia ↦ withdraw_from creator amount.amount s ia
      ]

  -- The task's record is a uint64: converting a larger amount panics.
  unfoldable pub freeze_account : ℕ → ℕ → Store S → InferenceAccount → Result Error (Store S)
  unfolding available_balance
  freeze_account task_id amount s ia =
      let more = if ia.frozen_balance == 0 then amount else ia.frozen_balance + amount in
      let reserved = set_inference_account c (record ia { frozen_balance = more }) s in
      if ltb (available_balance ia) amount
      then err insufficient_balance
      else if ltb amount 18446744073709551616
      then ok (record reserved { frozen = insert task_id amount reserved.frozen })
      else panic

  unfoldable pub freeze_balance : ℕ → ℕ → ℕ → Store S → Result Error (Store S)
  unfolding freeze_account
  freeze_balance user task_id amount s = elim (get_inference_account user s) [
    | none ↦ err account_not_found
    | some ia ↦ freeze_account task_id amount s ia
  ]

  -- Releases what is frozen for a task. With no record, or no account, nothing changes; the
  -- callers ignore the amount and the error.
  unfoldable pub unfreeze_balance : ℕ → ℕ → Store S → Store S
  unfreeze_balance user task_id s = elim (lookup task_id s.frozen) [
    | none ↦ s
    | some amount ↦ elim (get_inference_account user s) [
      | none ↦ s
      | some ia ↦
          let rest = if leb amount ia.frozen_balance then ia.frozen_balance - amount else 0 in
          let released = set_inference_account c (record ia { frozen_balance = rest }) s in
          record released { frozen = erase task_id released.frozen }
    ]
  ]
