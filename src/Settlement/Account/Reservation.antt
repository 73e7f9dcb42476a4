-- ===== src/Settlement/Account/Reservation.antt =====
-- Reservations: what a freeze takes off the available balance, an unfreeze gives back.
use funai_chain.Base.{
  ℕ, ◌+◌, ◌-◌, ◌≤◌, ◌≡◌, none, some, lookup, insert, erase, arith, lookup-insert_self, lookup-erase,
  Option-cases, ◌⊎◌, inl, inr,
}
use funai_chain.Base.Result.{ok}
use funai_chain.Settlement.Types.{InferenceAccount}
use funai_chain.Settlement.Store.{Context, Store, acc_address}
use funai_chain.Settlement.Account.{available_balance, freeze_balance, unfreeze_balance}

module _ {S : Type 0} (c : Context S) where
  -- What a successful freeze writes.
  pub freeze_balance_writes :
      (user task_id amount : ℕ) (s t : Store S) (ia : InferenceAccount)
      → lookup user s.accounts ≡ some ia
      → freeze_balance c user task_id amount s ≡ ok t
      → (t ≡ record s {
        accounts =
            insert
              (acc_address c ia.address)
              (record ia { frozen_balance = ia.frozen_balance + amount })
              s.accounts;
        frozen = insert task_id amount s.frozen;
      })
        × (amount ≤ available_balance ia)
  unfolding freeze_balance
  freeze_balance_writes user task_id amount s t ia e f = ground arith

  -- What an unfreeze writes where a reservation and the account are there.
  pub unfreeze_balance_writes :
      (user task_id amount : ℕ) (s : Store S) (ia : InferenceAccount)
      → lookup user s.accounts ≡ some ia
      → lookup task_id s.frozen ≡ some amount
      → unfreeze_balance c user task_id s ≡ record s {
        accounts =
            insert
              (acc_address c ia.address)
              (record ia { frozen_balance = ia.frozen_balance - amount })
              s.accounts;
        frozen = erase task_id s.frozen;
      }
  unfolding unfreeze_balance
  unfreeze_balance_writes user task_id amount s ia e f = ground arith

  pub unfreeze_balance_cases :
      (user task_id : ℕ) (s : Store S)
      → (unfreeze_balance c user task_id s ≡ s)
        ⊎ ((amount : ℕ) × (ia : InferenceAccount) × (lookup task_id s.frozen ≡ some amount)
            × (lookup user s.accounts ≡ some ia)
            × (unfreeze_balance c user task_id s ≡ record s {
              accounts =
                  insert
                    (acc_address c ia.address)
                    (record ia { frozen_balance = ia.frozen_balance - amount })
                    s.accounts;
              frozen = erase task_id s.frozen;
            }))
  unfolding unfreeze_balance
  unfreeze_balance_cases user task_id s = elim (Option-cases (lookup task_id s.frozen)) [
    | inl e ↦ inl (ground arith)
    | inr (amount, e) ↦ elim (Option-cases (lookup user s.accounts)) [
      | inl f ↦ inl (ground arith)
      | inr (ia, f) ↦ inr (amount, ia, e, f, ground arith)
    ]
  ]

  available-reserved :
      (amount : ℕ) (ia : InferenceAccount)
      → amount ≤ available_balance ia
      → available_balance (record ia { frozen_balance = ia.frozen_balance + amount }) + amount
        ≡ available_balance ia
  unfolding available_balance
  available-reserved amount ia h = ground arith

  -- For an account that is stored under its own address: a successful freeze takes its amount off
  -- the available balance of the account, and an unfreeze of the task restores the account as it
  -- was and leaves no reservation for the task.
  pub unfreeze-freeze :
      (user task_id amount : ℕ) (s t : Store S) (ia : InferenceAccount)
      → lookup user s.accounts ≡ some ia
      → acc_address c ia.address ≡ user
      → freeze_balance c user task_id amount s ≡ ok t
      → ((j : InferenceAccount) × (lookup user t.accounts ≡ some j)
          × (available_balance j + amount ≡ available_balance ia))
        × (lookup user (unfreeze_balance c user task_id t).accounts ≡ some ia)
        × (lookup task_id (unfreeze_balance c user task_id t).frozen ≡ none)
  unfreeze-freeze user task_id amount s t ia e k f =
      let j : InferenceAccount = record ia { frozen_balance = ia.frozen_balance + amount } in
      let (written, enough) = freeze_balance_writes user task_id amount s t ia e f in
      let there : lookup user t.accounts ≡ some j =
        ground (arith, lookup-insert_self user j s.accounts) in
      let noted : lookup task_id t.frozen ≡ some amount =
        ground (arith, lookup-insert_self task_id amount s.frozen) in
      let back = unfreeze_balance_writes user task_id amount t j there noted in
      (
        (j, there, available-reserved amount ia enough),
        ground (arith, lookup-insert_self user ia t.accounts),
        ground (arith, lookup-erase task_id task_id t.frozen),
      )
