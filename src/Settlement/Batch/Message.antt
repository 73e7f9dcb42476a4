-- ===== src/Settlement/Batch/Message.antt =====
-- `ProcessBatchSettlement` (keeper.go): the checks of the message, the loop, and the bookkeeping of
-- the batch. The keeper's result is the store that it leaves with the batch's number or an error; the
-- message server's transaction keeps that store only if there is no error.
use funai_chain.Base.{
  ℤ, pos, negsuc, ℕ, ◌+◌, ◌*◌, ◌/◌, Bool, false, not, ◌==◌, if◌then◌else◌, none, some, length, u32,
  u64,
}
use funai_chain.Base.Result.{Result, ok, err, panic}
use funai_chain.Settlement.Types.{MsgBatchSettlement, EpochStats, Error, invalid_settlement}
use funai_chain.Settlement.Store.{
  Context, Store, acc_address, get_params, get_epoch_stats, set_epoch_stats, get_next_batch_id,
  set_batch_record, set_batch_counter,
}
use funai_chain.Settlement.Merkle.{verify_merkle_root}
use funai_chain.Settlement.Batch.Settle.{Tally, process_entries}

module _ {S : Type 0} (c : Context S) where
  -- `verifyProposerSigOnRoot`: true when it returns no error.
  unfoldable pub verify_proposer_sig : ℕ → ℕ → ℕ → Store S → Bool
  verify_proposer_sig proposer root sig s =
      let known : Bool = elim (c.decode proposer) [
        | none ↦ false
        | some a ↦ elim (c.worker_pubkey s.outer a) [
          | none ↦ false
          | some str ↦ elim (c.decode_pubkey str) [
            | none ↦ false
            | some key ↦ if str == 0 then false else c.verify_signature key (c.sha256 root) sig
          ]
        ]
      ] in
      if sig == 0 then false else known

  abbrev pub jail_proposer : ℕ → Store S → Store S
  jail_proposer proposer s = record s { outer = c.jail_worker s.outer (acc_address c proposer) }

  -- The statistics of the epoch and the record of the batch. The counts are uint32 and uint64.
  unfoldable pub close_batch : MsgBatchSettlement → ℕ → Tally S → Store S
  close_batch msg fees y =
      let both = u32 (y.success_count + y.fail_count) in
      let stats = get_epoch_stats (c.height / 100) y.store in
      let new_stats : EpochStats = record stats {
        total_settled = u64 (stats.total_settled + both);
        fail_settled = u64 (stats.fail_settled + y.fail_count);
        total_fees = stats.total_fees + fees;
        verification_count = u64 (stats.verification_count + both * 3);
      } in
      let s = set_epoch_stats new_stats y.store in
      let id = get_next_batch_id s in
      set_batch_counter id (
        set_batch_record
          (record {
            batch_id = id;
            proposer = msg.proposer;
            merkle_root = msg.merkle_root;
            result_count = both;
            total_fees = fees;
            settled_at = c.height;
          })
          s)

  -- `sdk.NewCoin` panics on a total below 0.
  unfoldable pub close_or_panic : MsgBatchSettlement → ℤ → Tally S → Store S × Result Error ℕ
  unfolding close_batch
  close_or_panic msg (pos fees) y = (close_batch msg fees y, ok (get_next_batch_id y.store))
  close_or_panic msg (negsuc fees) y = (y.store, panic)

  abbrev pub empty_tally : Store S → Tally S
  empty_tally s = record { store = s; success_count = 0; fail_count = 0; total_fees = pos 0 }

  unfoldable pub process_batch_settlement : MsgBatchSettlement → Store S → Store S × Result Error ℕ
  process_batch_settlement msg s =
      let settled = process_entries c (get_params s) msg.entries (empty_tally s) in
      let run : Store S × Result Error ℕ = elim settled [
        | ok y ↦ close_or_panic msg y.total_fees y
        | err x ↦ (s, err x)
        | panic ↦ (s, panic)
      ] in
      if not (msg.result_count == u32 (length msg.entries))
      then (jail_proposer msg.proposer s, err invalid_settlement)
      else if not (verify_proposer_sig msg.proposer msg.merkle_root msg.proposer_sig s)
      then (s, err invalid_settlement)
      else if not (verify_merkle_root c.entry_hash c.pair_hash msg.merkle_root msg.entries)
      then (jail_proposer msg.proposer s, err invalid_settlement)
      else run

  -- The transaction of a message: an error or a panic discards every write.
  abbrev pub transaction : {A : Type 0} → Store S → Store S × Result Error A → Store S
  transaction s (t, ok a) = t
  transaction s (t, err e) = s
  transaction s (t, panic) = s

  -- `msgServer.BatchSettle`.
  unfoldable pub batch_settle : MsgBatchSettlement → Store S → Store S
  unfolding process_batch_settlement
  batch_settle msg s = transaction s (process_batch_settlement msg s)
