-- ===== src/Settlement/Batch/Safety.antt =====
-- A whole batch keeps the module solvent.
use funai_chain.Base.{
  ℤ, pos, sign_cases, is_nonneg, true, ℕ, ◌≡◌, Bool, ◌&&◌, ◌==◌, if◌then◌else◌, some, List, [], ◌∷◌,
  arith, lookup, Option-cases, Bool-cases, inl, inr, u32, length,
}
use funai_chain.Base.Result.{Result, ok, Result-cases, >>=-eq-ok}
use funai_chain.Settlement.Params.{Params, HasRatios}
use funai_chain.Settlement.Types.{
  SettlementEntry, InferenceAccount, Error, fail_settled, is_success, is_per_token,
  MsgBatchSettlement,
}
use funai_chain.Settlement.Store.{Context, Store, get_params}
use funai_chain.Settlement.Account.{unfreeze_balance}
use funai_chain.Settlement.Account.Solvent.{BankLaws, KeeperLaws, IsSolvent}
use funai_chain.Settlement.Payout.{distribute_fail_fee}
use funai_chain.Settlement.Merkle.{verify_merkle_root}
use funai_chain.Settlement.Batch.Message.{
  batch_settle, close_batch, close_or_panic, empty_tally, verify_proposer_sig,
}
use funai_chain.Settlement.Batch.Solvent.{
  unfreeze_balance-IsSolvent, lookup-unfreeze_balance, debit-IsSolvent, request_paid,
  finished-IsSolvent, settle_success-IsSolvent, charge_fail_per_token-IsSolvent,
}
use funai_chain.Settlement.Batch.Keeps.{
  Keeps-trans, Keeps-IsSolvent, Keeps-accounts, Keeps-count_verifiers, Keeps-put_off,
  Keeps-actual_fee,
}
use funai_chain.Settlement.Batch.Entry.{Parties, admit, put_off, is_put_off, audit_rate}
use funai_chain.Settlement.Batch.Charge.{count_verifiers, actual_fee, per_token_fee, uint64}
use funai_chain.Settlement.Batch.Settle.{
  Tally, charge_fail_per_token, charge_fail_per_request, fail_fee, settle_charged, settle_entry,
  process_entry, process_entries, debit, lesser, done,
}

-- No negative fee.
abbrev pub has_charges : SettlementEntry → Bool
has_charges e = is_nonneg e.fee.amount && is_nonneg e.max_fee.amount

abbrev pub have_charges : List SettlementEntry → Bool
have_charges [] = true
have_charges (e ∷ es) = has_charges e && have_charges es

module _ {S : Type 0} (c : Context S) where
  charge_fail_per_request-IsSolvent :
      (params : Params) (e : SettlementEntry) (who : Parties) (fee : ℤ) (due : ℕ)
      (ia : InferenceAccount) (y z : Tally S)
      → BankLaws c
      → KeeperLaws c
      → HasRatios params
      → IsSolvent c y.store
      → lookup who.user y.store.accounts ≡ some ia
      → charge_fail_per_request c params e who fee due ia y ≡ ok z
      → IsSolvent c z.store
  unfolding charge_fail_per_request
  charge_fail_per_request-IsSolvent params e who fee due ia y z laws keep ratios inv there h =
      let charge = lesser ia.balance due in
      let debited = debit c ia charge y.store in
      let finish : Store S → Store S = λ t.
        done c fail_settled (pos charge) e
          (record t { outer = c.jail_worker t.outer who.worker }) in
      let payment : Result Error (Store S) =
        if charge == 0
        then ok debited
        else distribute_fail_fee c charge e.verifier_results params debited in
      elim (Result-cases payment) [
        | inl (t, paid) ↦
            let (same, left) =
              request_paid c params e.verifier_results charge ia y.store t laws ratios paid in
            let solvent =
              debit-IsSolvent c who.user charge ia y.store t inv there (ground arith) same left in
            let end : z.store ≡ finish t = ground arith in
            rw end (finished-IsSolvent c (pos charge) e who.worker t keep solvent)
        | inr (inl (x, refused)) ↦ let end : z ≡ y = ground arith in rw end inv
        | inr (inr panics) ↦ ground arith
      ]

  lookup-admit :
      (e : SettlementEntry) (s : Store S) (who : Parties)
      → admit c e s ≡ some who
      → lookup who.user s.accounts ≡ some who.account
  unfolding admit
  lookup-admit e s who h = ground arith

  settle_charged-IsSolvent :
      (params : Params) (e : SettlementEntry) (who : Parties) (fee : ℤ) (i : InferenceAccount)
      (y z : Tally S)
      → BankLaws c
      → KeeperLaws c
      → HasRatios params
      → is_nonneg fee ≡ true
      → IsSolvent c y.store
      → lookup who.user y.store.accounts ≡ some i
      → settle_charged c params e who fee y ≡ ok z
      → IsSolvent c z.store
  unfolding settle_charged
  settle_charged-IsSolvent params e who fee i y z laws keep ratios sign inv there h =
      let released = unfreeze_balance c who.user e.task_id y.store in
      let inv' = unfreeze_balance-IsSolvent c who.user e.task_id y.store inv in
      let (ia, found) = lookup-unfreeze_balance c who.user e.task_id y.store i inv there in
      let y' : Tally S = record y { store = released } in
      elim (Bool-cases (is_success e.status)) [
        | inl success ↦
            settle_success-IsSolvent c params e who fee ia y' z laws keep sign inv' found
              (ground arith)
        | inr failed ↦ elim (Bool-cases (is_per_token e)) [
          | inl per_token ↦
              let (charge, coin, rest) =
                >>=-eq-ok (fail_fee params fee)
                  (λ n. charge_fail_per_token c params e who fee n ia y') (ground arith) in
              charge_fail_per_token-IsSolvent c params e who fee charge ia y' z laws keep ratios
                inv' found rest
          | inr per_request ↦
              let (due, coin, rest) =
                >>=-eq-ok (fail_fee params e.fee.amount)
                  (λ n. charge_fail_per_request c params e who fee n ia y') (ground arith) in
              charge_fail_per_request-IsSolvent params e who fee due ia y' z laws keep ratios inv'
                found rest
        ]
      ]

  -- A fee that is billed has the sign of the entry's fees.
  actual_fee-sign :
      (params : Params) (worker : ℕ) (e : SettlementEntry) (s t : Store S) (fee : ℤ)
      → has_charges e ≡ true
      → actual_fee c params worker e s ≡ ok (fee, t)
      → is_nonneg fee ≡ true
  unfolding actual_fee per_token_fee
  actual_fee-sign params worker e s t fee sign h = elim (Bool-cases (is_per_token e)) [
    | inl per_token ↦ elim (Bool-cases params.per_token_billing_enabled) [
      | inl enabled ↦ elim (Result-cases (uint64 e.max_fee.amount)) [
        | inl (max_fee, fits) ↦ ground arith
        | inr (inl (x, refused)) ↦ ground arith
        | inr (inr panics) ↦ ground arith
      ]
      | inr disabled ↦ ground arith
    ]
    | inr per_request ↦ ground arith
  ]

  settle_entry-IsSolvent :
      (params : Params) (e : SettlementEntry) (who : Parties) (rate : ℕ) (y z : Tally S)
      → BankLaws c
      → KeeperLaws c
      → HasRatios params
      → has_charges e ≡ true
      → IsSolvent c y.store
      → lookup who.user y.store.accounts ≡ some who.account
      → settle_entry c params e who rate y ≡ ok z
      → IsSolvent c z.store
  unfolding settle_entry
  settle_entry-IsSolvent params e who rate y z laws keep ratios sign inv there h =
      let counted = count_verifiers c e.verifier_results y.store in
      elim (Bool-cases (is_put_off c params e rate)) [
        | inl later ↦
            let end : z.store ≡ put_off c e y.store = ground arith in
            rw end (Keeps-IsSolvent c y.store (put_off c e y.store) (Keeps-put_off c e y.store) inv)
        | inr now ↦ elim (Result-cases (actual_fee c params who.worker e counted)) [
          | inl ((fee, s), charged) ↦
              let first = Keeps-count_verifiers c e.verifier_results y.store in
              let kept =
                Keeps-trans c y.store counted s first
                  (Keeps-actual_fee c params who.worker e counted s fee keep charged) in
              settle_charged-IsSolvent params e who fee who.account (record y { store = s }) z laws
                keep ratios (actual_fee-sign params who.worker e counted s fee sign charged)
                (Keeps-IsSolvent c y.store s kept inv) (rw (Keeps-accounts c y.store s kept) there)
                (ground arith)
          | inr (inl (x, refused)) ↦ ground arith
          | inr (inr panics) ↦ ground arith
        ]
      ]

  process_entry-IsSolvent :
      (params : Params) (e : SettlementEntry) (y z : Tally S)
      → BankLaws c
      → KeeperLaws c
      → HasRatios params
      → has_charges e ≡ true
      → IsSolvent c y.store
      → process_entry c params e y ≡ ok z
      → IsSolvent c z.store
  unfolding process_entry
  process_entry-IsSolvent params e y z laws keep ratios sign inv h =
      elim (Option-cases (admit c e y.store)) [
        | inl skipped ↦ let end : z ≡ y = ground arith in rw end inv
        | inr (who, admitted) ↦ elim (Result-cases (audit_rate c params e y.store)) [
          | inl (rate, rated) ↦
              settle_entry-IsSolvent params e who rate y z laws keep ratios sign inv
                (lookup-admit e y.store who admitted) (ground arith)
          | inr (inl (x, refused)) ↦ ground arith
          | inr (inr panics) ↦ ground arith
        ]
      ]

  process_entries-IsSolvent :
      (params : Params) (es : List SettlementEntry) (y z : Tally S)
      → BankLaws c
      → KeeperLaws c
      → HasRatios params
      → have_charges es ≡ true
      → IsSolvent c y.store
      → process_entries c params es y ≡ ok z
      → IsSolvent c z.store
  unfolding process_entries
  process_entries-IsSolvent params [] y z laws keep ratios sign inv h =
      let end : z ≡ y = ground arith in rw end inv
  process_entries-IsSolvent params (e ∷ es) y z laws keep ratios sign inv h =
      elim (Result-cases (process_entry c params e y)) [
        | inl (t, first) ↦
            process_entries-IsSolvent params es t z laws keep ratios (ground arith)
              (process_entry-IsSolvent params e y t laws keep ratios (ground arith) inv first)
              (ground arith)
        | inr (inl (x, refused)) ↦ ground arith
        | inr (inr panics) ↦ ground arith
      ]

  closed-IsSolvent :
      (msg : MsgBatchSettlement) (fees : ℕ) (y : Tally S)
      → IsSolvent c y.store
      → IsSolvent c (close_batch c msg fees y)
  unfolding close_batch
  closed-IsSolvent msg fees y inv = record { keyed = inv.keyed; covered = inv.covered }

  -- The three checks of the message.
  abbrev passes : MsgBatchSettlement → Store S → Bool
  passes msg s =
      msg.result_count == u32 (length msg.entries)
      && verify_proposer_sig c msg.proposer msg.merkle_root msg.proposer_sig s
      && verify_merkle_root c.entry_hash c.pair_hash msg.merkle_root msg.entries

  -- With a bank and modules that keep their laws, and fee ratios that leave the executor a share:
  -- whatever batch of entries without a negative fee a proposer submits, and whichever transfers the
  -- bank refuses, the transaction leaves a solvent module solvent. It never pays out more than it
  -- takes off the users' balances.
  pub batch_settle-IsSolvent :
      (msg : MsgBatchSettlement) (s : Store S)
      → BankLaws c
      → KeeperLaws c
      → HasRatios (get_params s)
      → have_charges msg.entries ≡ true
      → IsSolvent c s
      → IsSolvent c (batch_settle c msg s)
  unfolding batch_settle close_or_panic
  batch_settle-IsSolvent msg s laws keep ratios signs inv =
      let run = process_entries c (get_params s) msg.entries (empty_tally c s) in
      let stays : batch_settle c msg s ≡ s → IsSolvent c (batch_settle c msg s) =
        λ end. rw end inv in
      elim (Result-cases run) [
        | inl (y, done') ↦ elim (Bool-cases (passes msg s)) [
          | inl good ↦ elim (sign_cases y.total_fees) [
            | inl (fees, total) ↦
                let end : batch_settle c msg s ≡ close_batch c msg fees y = ground arith in
                rw end (
                  closed-IsSolvent msg fees y (
                    process_entries-IsSolvent (get_params s) msg.entries (empty_tally c s) y laws
                      keep ratios signs inv done'))
            | inr (debt, total) ↦ stays (ground arith)
          ]
          | inr bad ↦ stays (ground arith)
        ]
        | inr (inl (x, refused)) ↦ stays (ground arith)
        | inr (inr panics) ↦ stays (ground arith)
      ]
