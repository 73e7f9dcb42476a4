-- ===== src/Settlement/Batch/Entry.antt =====
-- `ProcessBatchSettlement` (keeper.go), the head of the loop over the entries: which entries are
-- passed over, and which are put off for a second verification instead of being settled.
use funai_chain.Base.{
  ℕ, pos, ◌+◌, ◌*◌, ◌/◌, Bool, false, not, ◌&&◌, ◌||◌, ltb, ◌==◌, if◌then◌else◌, Option, none, some,
  List, [], ◌∷◌, length, is_some, u32,
}
use funai_chain.Base.Result.{Result, ok, ◌>>=◌}
use funai_chain.Settlement.Params.{Params}
use funai_chain.Settlement.Types.{
  SettlementEntry, VerifierResult, PendingTask, Error, default_denom, is_per_token,
  pending_second_verification, InferenceAccount,
}
use funai_chain.Settlement.Store.{
  Context, Store, get_settled_task, has_fraud_mark, get_inference_account,
  current_second_verification_rate, set_second_verification_pending, set_settled_task,
}
use funai_chain.Settlement.Mismatch.{calculate_worker_audit_boost}
use funai_chain.Settlement.Trigger.{should_trigger}

abbrev pub any_empty : List ℕ → Bool
any_empty [] = false
any_empty (h ∷ hs) = h == 0 || any_empty hs

abbrev pub addresses_of : List VerifierResult → List ℕ
addresses_of [] = []
addresses_of (v ∷ vs) = v.address ∷ addresses_of vs

abbrev pub votes_of : List VerifierResult → List Bool
votes_of [] = []
votes_of (v ∷ vs) = v.pass ∷ votes_of vs

abbrev pub has_output_tokens : List VerifierResult → Bool
has_output_tokens [] = false
has_output_tokens (v ∷ vs) = ltb 0 v.verified_output_tokens || has_output_tokens vs

-- What an entry that is not passed over is settled with.
pub record Parties : Type 0 where
  pub user : ℕ
  pub worker : ℕ
  pub account : InferenceAccount

module _ {S : Type 0} (c : Context S) where
  -- The guards that need no address.
  unfoldable pub is_fresh : SettlementEntry → Store S → Bool
  is_fresh e s =
      (if is_per_token e then e.max_fee.denom == default_denom else e.fee.denom == default_denom)
      && not (is_some (get_settled_task e.task_id s))
      && not (has_fraud_mark e.task_id s)
      && not (ltb 0 e.expire_block && ltb e.expire_block c.height)
      && not (e.user_sig_hash == 0 || e.worker_sig_hash == 0)
      && not (ltb (length e.verify_sig_hashes) 3)
      && not (any_empty e.verify_sig_hashes)

  unfoldable pub parties : SettlementEntry → Store S → Option Parties
  parties e s = elim (c.decode e.user_address) [
    | none ↦ none
    | some user ↦ elim (c.decode e.worker_address) [
      | none ↦ none
      | some worker ↦ elim (get_inference_account user s) [
        | none ↦ none
        | some ia ↦ some (record { user = user; worker = worker; account = ia })
      ]
    ]
  ]

  -- None for an entry that the loop passes over.
  unfoldable pub admit : SettlementEntry → Store S → Option Parties
  unfolding is_fresh parties
  admit e s = if is_fresh e s then parties e s else none

  -- The rate for the draw: raised for a worker with suspicious pairs, and capped, when per-token
  -- billing is on. uint32 arithmetic wraps.
  unfoldable pub audit_rate : Params → SettlementEntry → Store S → Result Error ℕ
  audit_rate params e s =
      let base = current_second_verification_rate s in
      let boosted : Result Error ℕ = do
        boost ← calculate_worker_audit_boost e.worker_address params s
        let rate = u32 (base + u32 (boost * params.second_verification_base_rate) / 10)
        ok (
            if ltb params.second_verification_rate_max rate
            then params.second_verification_rate_max
            else rate)
      in if params.per_token_billing_enabled then boosted else ok base

  -- A per-token entry for which no verifier counted tokens is always verified again.
  unfoldable pub forces_audit : Params → SettlementEntry → Bool
  forces_audit params e =
      is_per_token e
      && params.per_token_billing_enabled
      && not (has_output_tokens e.verifier_results)
      && ltb 0 e.worker_output_tokens

  abbrev pub pending_of : SettlementEntry → PendingTask
  pending_of e = record {
    task_id = e.task_id;
    original_status = e.status;
    submitted_at = c.height;
    user_address = e.user_address;
    worker_address = e.worker_address;
    verifier_addresses = addresses_of e.verifier_results;
    verifier_votes = votes_of e.verifier_results;
    fee = e.fee.amount;
    expire_block = e.expire_block;
    is_third_verification = false;
    fee_per_input_token = if is_per_token e then e.fee_per_input_token else 0;
    fee_per_output_token = if is_per_token e then e.fee_per_output_token else 0;
    max_fee = if is_per_token e then e.max_fee.amount else pos 0;
    settled_output_tokens = if is_per_token e then e.worker_output_tokens else 0;
    settled_input_tokens = if is_per_token e then e.worker_input_tokens else 0;
  }

  -- Nothing is paid for a task that waits for its second verification.
  unfoldable pub put_off : SettlementEntry → Store S → Store S
  put_off e s =
      set_settled_task
        (record {
          task_id = e.task_id;
          status = pending_second_verification;
          expire_block = e.expire_block;
          settled_at = c.height;
          worker_address = e.worker_address;
          original_verifiers = addresses_of e.verifier_results;
          fee = e.fee.amount;
          user_address = e.user_address;
        })
        (set_second_verification_pending (pending_of e) s)

  unfoldable pub is_put_off : Params → SettlementEntry → ℕ → Bool
  unfolding forces_audit
  is_put_off params e rate = forces_audit params e || should_trigger c e.task_id rate
