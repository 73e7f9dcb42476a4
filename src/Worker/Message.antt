-- ===== src/Worker/Message.antt =====
-- x/worker/keeper/msg_server.go: registration, exit, models, stake and release.
use funai_chain.Base.{pos, ℕ, ◌+◌, not, false, leb, ◌==◌, if◌then◌else◌, none, some, List}
use funai_chain.Base.Result.{Result, ok, err, panic}
use funai_chain.Settlement.Types.{Coin, default_denom}
use funai_chain.Worker.Types.{
  Worker, WorkerError, MsgRegisterWorker, active, exiting, is_active, is_status_active, bad_creator,
  already_registered, insufficient_stake, worker_not_found, worker_is_jailed, worker_tombstoned,
  worker_not_active,
}
use funai_chain.Worker.Keeper.{
  Register, WorkerContext, get_worker, set_worker, set_model_indices, remove_model_indices,
  get_worker_params, notify,
}
use funai_chain.Worker.Jail.{unjail_worker}

module _ {S : Type 0} (c : WorkerContext S) where
  abbrev pub new_worker : MsgRegisterWorker → ℕ → Worker
  new_worker msg stake = record {
    address = msg.creator;
    pubkey = msg.pubkey;
    stake = stake;
    supported_models = msg.supported_models;
    status = active;
    joined_at = c.height;
    exit_requested_at = 0;
    endpoint = msg.endpoint;
    gpu_model = msg.gpu_model;
    gpu_vram_gb = msg.gpu_vram_gb;
    gpu_count = msg.gpu_count;
    operator_id = msg.operator_id;
    jail_count = 0;
    is_jailed = false;
    jail_until = 0;
    tombstoned = false;
    success_streak = 0;
    total_tasks = 0;
    total_fee_earned = pos 0;
    last_active_block = c.height;
    max_concurrent_tasks = if msg.max_concurrent_tasks == 0 then 1 else msg.max_concurrent_tasks;
    max_concurrent_verify = 2;
    reputation_score = 0;
    consecutive_rejects = 0;
    avg_latency_ms = 0;
  }

  abbrev pub enrol_worker : MsgRegisterWorker → ℕ → ℕ → Register S → Register S
  enrol_worker msg a stake s =
      set_model_indices a msg.supported_models (set_worker c (new_worker msg stake) s)

  -- During the cold start no stake is taken.
  unfoldable pub register_worker : MsgRegisterWorker → Register S → Result WorkerError (Register S)
  register_worker msg s = elim (c.decode msg.creator) [
    | none ↦ err bad_creator
    | some a ↦ elim (get_worker a s) [
      | some w ↦ err already_registered
      | none ↦
          let params = get_worker_params s in
          let staked : Result WorkerError (Register S) =
            elim (c.stake_in s.outer a params.min_stake) [
              | none ↦ err insufficient_stake
              | some o ↦ ok (enrol_worker msg a params.min_stake (record s { outer = o }))
            ] in
          if leb c.height params.cold_start_free_blocks then ok (enrol_worker msg a 0 s) else staked
    ]
  ]

  unfoldable pub exit_worker : ℕ → Register S → Result WorkerError (Register S)
  exit_worker creator s = elim (c.decode creator) [
    | none ↦ err bad_creator
    | some a ↦ elim (get_worker a s) [
      | none ↦ err worker_not_found
      | some w ↦
          if w.is_jailed
          then err worker_is_jailed
          else if w.tombstoned
          then err worker_tombstoned
          else if not (is_status_active w.status)
          then err worker_not_active
          else ok (set_worker c (record w { status = exiting; exit_requested_at = c.height }) s)
    ]
  ]

  unfoldable pub update_models : ℕ → List ℕ → Register S → Result WorkerError (Register S)
  update_models creator models s = elim (c.decode creator) [
    | none ↦ err bad_creator
    | some a ↦ elim (get_worker a s) [
      | none ↦ err worker_not_found
      | some w ↦
          if not (is_active w)
          then err worker_not_active
          else ok (
              set_model_indices a models (
                set_worker c (record w { supported_models = models })
                  (remove_model_indices a w.supported_models s)))
    ]
  ]

  -- Another denomination panics in `Coin.Add`, unless the bank has refused it before; either way the
  -- message fails.
  unfoldable pub add_stake : ℕ → Coin → Register S → Result WorkerError (Register S)
  add_stake creator amount s = elim (c.decode creator) [
    | none ↦ err bad_creator
    | some a ↦ elim (get_worker a s) [
      | none ↦ err worker_not_found
      | some w ↦
          let staked : Result WorkerError (Register S) = elim (c.stake_in s.outer a amount.amount) [
            | none ↦ err insufficient_stake
            | some o ↦ ok (
                notify c a (
                  set_worker c (record w { stake = w.stake + amount.amount })
                    (record s { outer = o })))
          ] in
          if w.tombstoned
          then err worker_tombstoned
          else if not (amount.denom == default_denom)
          then panic
          else staked
    ]
  ]

  unfoldable pub unjail : ℕ → Register S → Result WorkerError (Register S)
  unfolding unjail_worker
  unjail creator s = elim (c.decode creator) [
    | none ↦ err bad_creator
    | some a ↦ unjail_worker c a s
  ]
