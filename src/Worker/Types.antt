-- ===== src/Worker/Types.antt =====
-- x/worker/types/worker.go, params.go and msgs.go: a worker's record, the parameters, the messages.
-- A stake is an amount of the one denomination of the minimal stake.
use funai_chain.Base.{ℤ, ℕ, ◌&&◌, ◌||◌, not, Bool, true, false, ltb, leb, ◌==◌, List}

pub data WorkerStatus : Type 0 where
  active jailed exiting exited : WorkerStatus

abbrev pub is_status_active : WorkerStatus → Bool
is_status_active active = true
is_status_active _ = false

abbrev pub is_status_exiting : WorkerStatus → Bool
is_status_exiting exiting = true
is_status_exiting _ = false

pub record Worker : Type 0 where
  pub address : ℕ
  pub pubkey : ℕ
  pub stake : ℕ
  pub supported_models : List ℕ
  pub status : WorkerStatus
  pub joined_at : ℕ
  pub exit_requested_at : ℕ
  pub endpoint : ℕ
  pub gpu_model : ℕ
  pub gpu_vram_gb : ℕ
  pub gpu_count : ℕ
  pub operator_id : ℕ
  pub jail_count : ℕ
  pub is_jailed : Bool
  pub jail_until : ℕ
  pub tombstoned : Bool
  pub success_streak : ℕ
  pub total_tasks : ℕ
  pub total_fee_earned : ℤ
  pub last_active_block : ℕ
  pub max_concurrent_tasks : ℕ
  pub max_concurrent_verify : ℕ
  pub reputation_score : ℕ
  pub consecutive_rejects : ℕ
  pub avg_latency_ms : ℕ

abbrev pub reputation_initial : ℕ
reputation_initial = 10000

abbrev pub reputation_max : ℕ
reputation_max = 12000

abbrev pub is_active : Worker → Bool
is_active w = is_status_active w.status && not w.is_jailed && not w.tombstoned

abbrev pub can_unjail : Worker → ℕ → Bool
can_unjail w height = w.is_jailed && not w.tombstoned && leb w.jail_until height

pub record WorkerParams : Type 0 where
  pub min_stake : ℕ
  pub exit_wait_period : ℕ
  pub cold_start_free_blocks : ℕ
  pub jail1_duration : ℕ
  pub jail2_duration : ℕ
  pub slash_fraud_percent : ℕ
  pub jail_decay_interval : ℕ

abbrev pub default_worker_params : WorkerParams
default_worker_params = record {
  min_stake = 10000000000;
  exit_wait_period = 362880;
  cold_start_free_blocks = 51840;
  jail1_duration = 120;
  jail2_duration = 720;
  slash_fraud_percent = 5;
  jail_decay_interval = 1000;
}

-- `Params.Validate`: true when it returns no error. The periods are natural numbers here.
unfoldable pub validate_worker_params : WorkerParams → Bool
validate_worker_params p =
    not (p.min_stake == 0)
    && not (p.exit_wait_period == 0)
    && not (p.jail1_duration == 0 || p.jail2_duration == 0)
    && not (p.slash_fraud_percent == 0 || ltb 100 p.slash_fraud_percent)
    && not (p.jail_decay_interval == 0)

pub record MsgRegisterWorker : Type 0 where
  pub creator : ℕ
  pub pubkey : ℕ
  pub supported_models : List ℕ
  pub endpoint : ℕ
  pub gpu_model : ℕ
  pub gpu_vram_gb : ℕ
  pub gpu_count : ℕ
  pub operator_id : ℕ
  pub max_concurrent_tasks : ℕ

-- The errors of the handlers, by kind.
pub data WorkerError : Type 0 where
  bad_creator already_registered insufficient_stake worker_not_found worker_is_jailed : WorkerError
  worker_tombstoned worker_not_active worker_not_jailed jail_period_not_elapsed : WorkerError
