-- ===== src/Settlement/Reserve.antt =====
-- `ProcessBatchReserve` (keeper.go): the leader of a round reserves the maximal fee of each task that
-- it accepted.
use funai_chain.Base.{
  ℕ, ◌+◌, Bool, true, false, not, ◌||◌, ◌&&◌, ltb, ◌==◌, if◌then◌else◌, Option, none, some, List,
  [], ◌∷◌, lookup, is_some, length, u32,
}
use funai_chain.Base.Result.{Result, ok, err, panic}
use funai_chain.Settlement.Types.{
  ReserveEntry, MsgBatchReserve, Error, default_denom, invalid_settlement,
}
use funai_chain.Settlement.Store.{Context, Store, get_settled_task, get_inference_account}
use funai_chain.Settlement.Account.{freeze_balance}
use funai_chain.Settlement.Merkle.{verify_merkle_root}
use funai_chain.Settlement.Batch.Message.{verify_proposer_sig, jail_proposer, transaction}
pub mod Safe

-- The store with the number of entries that were accepted and rejected, both uint32.
pub record Reserved (S : Type 0) : Type 0 where
  pub store : Store S
  pub accepted : ℕ
  pub rejected : ℕ

module _ {S : Type 0} (c : Context S) where
  -- The guards that need no address.
  unfoldable pub is_reservable : ReserveEntry → Store S → Bool
  is_reservable e s =
      not (e.max_fee.amount == 0)
      && e.max_fee.denom == default_denom
      && not (e.task_id == 0)
      && not (ltb 0 e.expire_block && ltb e.expire_block c.height)
      && not (is_some (get_settled_task e.task_id s))
      && not (is_some (lookup e.task_id s.frozen))

  abbrev pub reject : Reserved S → Reserved S
  reject y = record y { rejected = u32 (y.rejected + 1) }

  unfoldable pub reserve_for : ReserveEntry → ℕ → Reserved S → Result Error (Reserved S)
  reserve_for e user y = elim (get_inference_account user y.store) [
    | none ↦ ok (reject y)
    | some ia ↦ elim (freeze_balance c user e.task_id e.max_fee.amount y.store) [
      | err x ↦ ok (reject y)
      | panic ↦ panic
      | ok t ↦ ok (record y { store = t; accepted = u32 (y.accepted + 1) })
    ]
  ]

  unfoldable pub reserve_entry : ReserveEntry → Reserved S → Result Error (Reserved S)
  unfolding is_reservable reserve_for
  reserve_entry e y =
      let tried : Result Error (Reserved S) = elim (c.decode e.user_address) [
        | none ↦ ok (reject y)
        | some user ↦ reserve_for e user y
      ] in
      if is_reservable e y.store then tried else ok (reject y)

  unfoldable pub reserve_entries : List ReserveEntry → Reserved S → Result Error (Reserved S)
  unfolding reserve_entry
  reserve_entries [] y = ok y
  reserve_entries (e ∷ es) y = elim (reserve_entry e y) [
    | err x ↦ err x
    | panic ↦ panic
    | ok z ↦ reserve_entries es z
  ]

  unfoldable pub process_batch_reserve : MsgBatchReserve → Store S → Store S × Result Error (ℕ × ℕ)
  unfolding reserve_entries
  process_batch_reserve msg s =
      let reserved =
        reserve_entries msg.entries (record { store = s; accepted = 0; rejected = 0 }) in
      let run : Store S × Result Error (ℕ × ℕ) = elim reserved [
        | ok y ↦ (y.store, ok (y.accepted, y.rejected))
        | err x ↦ (s, err x)
        | panic ↦ (s, panic)
      ] in
      if not (verify_proposer_sig c msg.proposer msg.merkle_root msg.proposer_sig s)
      then (s, err invalid_settlement)
      else if not (verify_merkle_root c.reserve_hash c.pair_hash msg.merkle_root msg.entries)
      then (jail_proposer c msg.proposer s, err invalid_settlement)
      else if not (msg.result_count == u32 (length msg.entries))
      then (jail_proposer c msg.proposer s, err invalid_settlement)
      else run

  -- `msgServer.BatchReserve`.
  unfoldable pub batch_reserve : MsgBatchReserve → Store S → Store S
  unfolding process_batch_reserve
  batch_reserve msg s = transaction c s (process_batch_reserve msg s)
