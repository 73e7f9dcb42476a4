-- ===== src/Settlement/Tests/Bank.antt =====
-- The fixtures: a bank that maps addresses to balances, in which 0 is the module's account and the
-- spelling of an address is its successor; a signature is sound if it is the sum of key and message.
use funai_chain.Base.{
  pos, ℕ, suc, zero, ◌+◌, ◌-◌, ◌*◌, ◌^◌, ◌≡◌, leb, ◌==◌, if◌then◌else◌, true, Option, none, some,
  List, [], ◌∷◌, lookup, arith,
}
use funai_chain.Settlement.Params.{default_params}
use funai_chain.Settlement.Types.{
  InferenceAccount, VerifierResult, SettlementEntry, MsgBatchSettlement, success, default_denom,
}
use funai_chain.Settlement.Store.{Context, Store, acc_address}
use funai_chain.Settlement.Account.Solvent.{BankLaws, KeeperLaws, IsSolvent}

abbrev pub Book : Type 0
Book = ℕ → ℕ

abbrev pub send : Book → ℕ → ℕ → ℕ → Option Book
send o from to n =
    let moved : Book = λ a.
      if from == to then o a else if a == from then o a - n else if a == to then o a + n else o a in
    if leb n (o from) then some moved else none

abbrev pub decode : ℕ → Option ℕ
decode zero = none
decode (suc n) = some n

abbrev pub key_of : ℕ → Option ℕ
key_of n = if n == 0 then none else some n

abbrev pub bank : Context Book
bank = record {
  height = 1000;
  module_account = 0;
  decode = decode;
  encode = λ a. a + 1;
  vrf_hash = λ id. 2 ^ 255 + id;
  sha256 = λ x. x;
  pair_hash = λ a b. (a + b) * (a + b) + a;
  entry_hash = λ e. e.task_id;
  reserve_hash = λ e. e.task_id;
  decode_pubkey = key_of;
  verify_signature = λ key msg sig. key + msg == sig;
  balance = λ o a. o a;
  send = send;
  jail_worker = λ o a. o;
  slash_worker = λ o a n. o;
  slash_worker_to = λ o a n b. o;
  tombstone_worker = λ o a. o;
  increment_success_streak = λ o a. o;
  success_streak = λ o a. 0;
  update_worker_stats = λ o a n. o;
  worker_pubkey = λ o a. some (a + 100);
  reputation_on_accept = λ o a. o;
  update_avg_latency = λ o a n. o;
  record_model_task = λ o a n m. o;
}

decode-encode : (a : ℕ) → decode (a + 1) ≡ some a
decode-encode a = ground arith

pub bank-laws : BankLaws bank
bank-laws = record {
  send_debit = λ s from to amount s' e. ground arith;
  send_exact = λ s from to amount s' ne e. ground arith;
  send_credit = λ s from to amount s' ne e. ground arith;
  send_others = λ s from to other amount s' ne e. ground arith;
  decode-encode = decode-encode;
}

pub keeper-laws : KeeperLaws bank
keeper-laws = record {
  jail_keeps = λ s a. omega arith;
  streak_keeps = λ s a. omega arith;
  stats_keeps = λ s a n. omega arith;
  accept_keeps = λ s a. omega arith;
  latency_keeps = λ s a n. omega arith;
  model_keeps = λ s a n m. omega arith;
}

-- The module holds 700, user 10 owns 500 of it, of which 50 are reserved for task 77; worker 20.
abbrev pub store : Store Book
store = record {
  outer = λ a. if a == 0 then 700 else if a == 10 then 40 else 0;
  accounts = (10, record { address = 11; balance = 500; frozen_balance = 50 }) ∷ [];
  settled = [];
  batches = [];
  batch_counter = none;
  fraud_marks = [];
  records = [];
  second_pending = [];
  third_pending = [];
  second_timeouts = [];
  third_timeouts = [];
  epoch_stats = [];
  verifier_counts = [];
  second_verifier_counts = [];
  verifier_fees = [];
  second_verifier_fees = [];
  second_rate = none;
  third_rate = none;
  frozen = (77, 50) ∷ [];
  dishonest = [];
  frozen_index = [];
  mismatches = [];
  params = some default_params;
}

store-keyed :
    (a : ℕ) (ia : InferenceAccount)
    → lookup a store.accounts ≡ some ia
    → acc_address bank ia.address ≡ a
store-keyed a ia e = ground arith

pub store-IsSolvent : IsSolvent bank store
store-IsSolvent = record { keyed = store-keyed; covered = omega arith }

abbrev pub verdict : ℕ → VerifierResult
verdict address = record {
  address = address;
  pass = true;
  signature = 1;
  logits_hash = 1;
  verified_input_tokens = 9;
  verified_output_tokens = 90;
}

abbrev pub verdicts : List VerifierResult
verdicts = verdict 31 ∷ verdict 32 ∷ verdict 33 ∷ []

abbrev pub entry : SettlementEntry
entry = record {
  task_id = 77;
  user_address = 11;
  worker_address = 21;
  verifier_results = verdicts;
  fee = record { denom = default_denom; amount = pos 50 };
  status = success;
  expire_block = 2000;
  model_id = 5;
  latency_ms = 300;
  user_sig_hash = 1;
  worker_sig_hash = 1;
  verify_sig_hashes = 1 ∷ 2 ∷ 3 ∷ [];
  result_count = 3;
  fee_per_input_token = 0;
  fee_per_output_token = 0;
  max_fee = record { denom = default_denom; amount = pos 50 };
  worker_input_tokens = 9;
  worker_output_tokens = 90;
  dispatch_rank = 0;
  accepted_at_ms = 0;
  receipt_at_ms = 0;
}

-- The worker 20 proposes the one entry; its key is 120.
abbrev pub batch : MsgBatchSettlement
batch = record {
  proposer = 21;
  merkle_root = 77;
  entries = entry ∷ [];
  proposer_sig = 197;
  result_count = 1;
}
