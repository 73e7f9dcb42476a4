-- ===== src/Settlement/Store.antt =====
-- x/settlement/keeper/keeper.go, the stored state: one dictionary for each key prefix, and what the
-- keeper reads from the block's context and calls in other modules.
use funai_chain.Base.{
  ℤ, ℕ, ◌+◌, Bool, ◌&&◌, ◌||◌, ltb, ◌==◌, if◌then◌else◌, Option, none, some, List, [], ◌∷◌, Dict,
  lookup, insert, erase, get_or, is_some, u64,
}
use funai_chain.Settlement.Params.{Params, default_params}
use funai_chain.Settlement.Types.{
  InferenceAccount, SettledTask, BatchRecord, SecondVerificationRecord, PendingTask, EpochStats,
  default_epoch_stats, FrozenTaskMeta, TokenMismatchRecord, SettlementEntry, ReserveEntry,
}

-- The context of one block and the modules behind `BankKeeper`, `WorkerKeeper` and `ModelRegKeeper`,
-- all of which the application configures; `S` is their state. Bech32, SHA-256 and secp256k1 belong
-- to other libraries. `decode` is `sdk.AccAddressFromBech32`, `encode` is `AccAddress.String`;
-- `pair_hash` hashes the concatenation of two byte strings, `vrf_hash` a task id with the hash of
-- the block, as a number below 2^256.
pub record Context (S : Type 0) : Type 0 where
  pub height : ℕ
  pub module_account : ℕ
  pub decode : ℕ → Option ℕ
  pub encode : ℕ → ℕ
  pub vrf_hash : ℕ → ℕ
  pub sha256 : ℕ → ℕ
  pub pair_hash : ℕ → ℕ → ℕ
  pub entry_hash : SettlementEntry → ℕ
  pub reserve_hash : ReserveEntry → ℕ
  pub decode_pubkey : ℕ → Option ℕ
  pub verify_signature : ℕ → ℕ → ℕ → Bool
  pub balance : S → ℕ → ℕ
  pub send : S → ℕ → ℕ → ℕ → Option S
  pub jail_worker : S → ℕ → S
  pub slash_worker : S → ℕ → ℕ → S
  pub slash_worker_to : S → ℕ → ℕ → ℕ → S
  pub tombstone_worker : S → ℕ → S
  pub increment_success_streak : S → ℕ → S
  pub success_streak : S → ℕ → ℕ
  pub update_worker_stats : S → ℕ → ℤ → S
  pub worker_pubkey : S → ℕ → Option ℕ
  pub reputation_on_accept : S → ℕ → S
  pub update_avg_latency : S → ℕ → ℕ → S
  pub record_model_task : S → ℕ → ℕ → ℕ → S

-- A key of a timeout index: the height first, then the task.
abbrev pub TimeoutKey : Type 0
TimeoutKey = ℕ × ℕ

pub record Store (S : Type 0) : Type 0 where
  pub outer : S
  pub accounts : Dict InferenceAccount
  pub settled : Dict SettledTask
  pub batches : Dict BatchRecord
  pub batch_counter : Option ℕ
  pub fraud_marks : Dict (Unit {0})
  pub records : Dict SecondVerificationRecord
  pub second_pending : Dict PendingTask
  pub third_pending : Dict PendingTask
  pub second_timeouts : List TimeoutKey
  pub third_timeouts : List TimeoutKey
  pub epoch_stats : Dict EpochStats
  pub verifier_counts : Dict ℕ
  pub second_verifier_counts : Dict ℕ
  pub verifier_fees : Dict ℕ
  pub second_verifier_fees : Dict ℕ
  pub second_rate : Option ℕ
  pub third_rate : Option ℕ
  pub frozen : Dict ℕ
  pub dishonest : Dict ℕ
  pub frozen_index : List FrozenTaskMeta
  pub mismatches : List TokenMismatchRecord
  pub params : Option Params

-- Keys in ascending order, as the store iterates over them.
abbrev pub put_key : TimeoutKey → List TimeoutKey → List TimeoutKey
put_key k [] = k ∷ []
put_key (h, t) ((h', t') ∷ ks) =
    let rest = (h', t') ∷ put_key (h, t) ks in
    if ltb h h' || (h == h' && ltb t t')
    then (h, t) ∷ (h', t') ∷ ks
    else if h == h' && t == t'
    then (h', t') ∷ ks
    else rest

abbrev pub drop_key : TimeoutKey → List TimeoutKey → List TimeoutKey
drop_key k [] = []
drop_key (h, t) ((h', t') ∷ ks) =
    let rest = drop_key (h, t) ks in if h == h' && t == t' then rest else (h', t') ∷ rest

module _ {S : Type 0} (c : Context S) where
  -- `addr, _ := sdk.AccAddressFromBech32(s)`: the nil address on an error.
  abbrev pub acc_address : ℕ → ℕ
  acc_address str = get_or 0 (c.decode str)

  -- The account is stored under the address that it names itself.
  abbrev pub set_inference_account : InferenceAccount → Store S → Store S
  set_inference_account ia s = record s { accounts = insert (acc_address ia.address) ia s.accounts }

  abbrev pub increment_verifier_epoch_count : ℕ → Store S → Store S
  increment_verifier_epoch_count str s = elim (c.decode str) [
    | none ↦ s
    | some a ↦ record s {
      verifier_counts =
          insert a (u64 (get_or 0 (lookup a s.verifier_counts) + 1)) s.verifier_counts;
    }
  ]

  abbrev pub increment_second_verifier_epoch_count : ℕ → Store S → Store S
  increment_second_verifier_epoch_count str s = elim (c.decode str) [
    | none ↦ s
    | some a ↦ record s {
      second_verifier_counts =
          insert a (u64 (get_or 0 (lookup a s.second_verifier_counts) + 1))
            s.second_verifier_counts;
    }
  ]

  abbrev pub increment_verifier_epoch_fee : ℕ → ℕ → Store S → Store S
  increment_verifier_epoch_fee str amount s =
      let added : Store S = elim (c.decode str) [
        | none ↦ s
        | some a ↦ record s {
          verifier_fees = insert a (get_or 0 (lookup a s.verifier_fees) + amount) s.verifier_fees;
        }
      ] in
      if amount == 0 then s else added

  abbrev pub increment_second_verifier_epoch_fee : ℕ → ℕ → Store S → Store S
  increment_second_verifier_epoch_fee str amount s =
      let added : Store S = elim (c.decode str) [
        | none ↦ s
        | some a ↦ record s {
          second_verifier_fees =
              insert a (get_or 0 (lookup a s.second_verifier_fees) + amount) s.second_verifier_fees;
        }
      ] in
      if amount == 0 then s else added

module _ {S : Type 0} where
  abbrev pub get_inference_account : ℕ → Store S → Option InferenceAccount
  get_inference_account a s = lookup a s.accounts

  abbrev pub get_settled_task : ℕ → Store S → Option SettledTask
  get_settled_task id s = lookup id s.settled

  abbrev pub set_settled_task : SettledTask → Store S → Store S
  set_settled_task st s = record s { settled = insert st.task_id st s.settled }

  abbrev pub set_batch_record : BatchRecord → Store S → Store S
  set_batch_record br s = record s { batches = insert br.batch_id br s.batches }

  abbrev pub get_next_batch_id : Store S → ℕ
  get_next_batch_id s = elim s.batch_counter [ none ↦ 1 | some n ↦ u64 (n + 1) ]

  abbrev pub set_batch_counter : ℕ → Store S → Store S
  set_batch_counter n s = record s { batch_counter = some n }

  abbrev pub set_fraud_mark : ℕ → Store S → Store S
  set_fraud_mark id s = record s { fraud_marks = insert id tt s.fraud_marks }

  abbrev pub has_fraud_mark : ℕ → Store S → Bool
  has_fraud_mark id s = is_some (lookup id s.fraud_marks)

  abbrev pub set_second_verification_record : SecondVerificationRecord → Store S → Store S
  set_second_verification_record ar s = record s { records = insert ar.task_id ar s.records }

  -- Second and third verification are kept apart, each with its timeout index.
  abbrev pub set_second_verification_pending : PendingTask → Store S → Store S
  set_second_verification_pending apt s =
      let key : TimeoutKey = (apt.submitted_at, apt.task_id) in
      if apt.is_third_verification
      then record s {
        third_pending = insert apt.task_id apt s.third_pending;
        third_timeouts = put_key key s.third_timeouts;
      }
      else record s {
        second_pending = insert apt.task_id apt s.second_pending;
        second_timeouts = put_key key s.second_timeouts;
      }

  abbrev pub get_second_verification_pending : ℕ → Store S → Option PendingTask
  get_second_verification_pending id s = lookup id s.second_pending

  abbrev pub delete_second_verification_pending : ℕ → Bool → Store S → Store S
  delete_second_verification_pending id is_third s =
      let drop_third : List TimeoutKey = elim (lookup id s.third_pending) [
        | none ↦ s.third_timeouts
        | some apt ↦ drop_key (apt.submitted_at, id) s.third_timeouts
      ] in
      let drop_second : List TimeoutKey = elim (lookup id s.second_pending) [
        | none ↦ s.second_timeouts
        | some apt ↦ drop_key (apt.submitted_at, id) s.second_timeouts
      ] in
      if is_third
      then record s { third_pending = erase id s.third_pending; third_timeouts = drop_third }
      else record s { second_pending = erase id s.second_pending; second_timeouts = drop_second }

  abbrev pub get_epoch_stats : ℕ → Store S → EpochStats
  get_epoch_stats n s = get_or (default_epoch_stats n) (lookup n s.epoch_stats)

  abbrev pub set_epoch_stats : EpochStats → Store S → Store S
  set_epoch_stats stats s = record s { epoch_stats = insert stats.epoch stats s.epoch_stats }

  -- `DefaultSecondVerificationBaseRate` and `DefaultThirdVerificationBaseRate` where none is set.
  abbrev pub current_second_verification_rate : Store S → ℕ
  current_second_verification_rate s = get_or 100 s.second_rate

  abbrev pub current_third_verification_rate : Store S → ℕ
  current_third_verification_rate s = get_or 10 s.third_rate

  abbrev pub get_params : Store S → Params
  get_params s = get_or default_params s.params
