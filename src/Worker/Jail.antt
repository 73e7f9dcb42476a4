-- ===== src/Worker/Jail.antt =====
-- x/worker/keeper/keeper.go: slashing, jail, release, tombstone, the success streak, and the end of
-- an exit's waiting period.
use funai_chain.Base.{
  ℤ, ◌+ℤ◌, ℕ, ◌+◌, ◌-◌, ◌*◌, ◌/◌, not, true, false, ltb, leb, ◌==◌, if◌then◌else◌, Option, none,
  some, u32, u64,
}
use funai_chain.Base.Result.{Result, ok, err}
use funai_chain.Worker.Types.{
  Worker, WorkerError, active, jailed, is_status_exiting, worker_not_found, worker_not_jailed,
  worker_tombstoned, jail_period_not_elapsed,
}
use funai_chain.Worker.Keeper.{
  Register, WorkerContext, get_worker, set_worker, delete_worker, get_all_workers,
  remove_model_indices, get_worker_params, notify, for_workers,
}

abbrev pub tombstoned_worker : Worker → Worker
tombstoned_worker w = record w {
  tombstoned = true;
  status = jailed;
  is_jailed = true;
  jail_until = 0;
}

module _ {S : Type 0} (c : WorkerContext S) where
  abbrev pub slash_out : Option ℕ → ℕ → Register S → Option S
  slash_out none amount s = c.burn s.outer amount
  slash_out (some r) amount s = c.stake_out s.outer r amount

  -- To a recipient, or burnt where there is none. A refused transfer changes nothing.
  unfoldable pub slash_worker_internal : ℕ → ℕ → Option ℕ → Register S → Register S
  slash_worker_internal a percent recipient s = elim (get_worker a s) [
    | none ↦ s
    | some w ↦
        let amount = w.stake * percent / 100 in
        let slashed : Register S = elim (slash_out recipient amount s) [
          | none ↦ s
          | some o ↦
              notify c a
                (set_worker c (record w { stake = w.stake - amount }) (record s { outer = o }))
        ] in
        if w.stake == 0 then s else if amount == 0 then s else slashed
  ]

  abbrev pub slash_worker : ℕ → ℕ → Register S → Register S
  slash_worker a percent s = slash_worker_internal a percent none s

  abbrev pub slash_worker_to : ℕ → ℕ → ℕ → Register S → Register S
  slash_worker_to a percent recipient s = slash_worker_internal a percent (some recipient) s

  unfoldable pub tombstone_worker : ℕ → Register S → Register S
  tombstone_worker a s = elim (get_worker a s) [
    | none ↦ s
    | some w ↦ if w.tombstoned then s else notify c a (set_worker c (tombstoned_worker w) s)
  ]

  -- The third offence: the record is read again after the slash, so the count stays as stored.
  unfoldable pub jail_for_good : ℕ → Register S → Register S
  jail_for_good a s =
      let slashed = slash_worker a (get_worker_params s).slash_fraud_percent s in
      elim (get_worker a slashed) [
        | none ↦ slashed
        | some w ↦ notify c a (set_worker c (tombstoned_worker w) slashed)
      ]

  unfoldable pub jail_for_a_while : ℕ → Worker → Register S → Register S
  jail_for_a_while a w s =
      let count = u32 (w.jail_count + 1) in
      let params = get_worker_params s in
      let duration = if count == 1 then params.jail1_duration else params.jail2_duration in
      notify c a (
        set_worker c
          (record w {
            jail_count = count;
            success_streak = 0;
            is_jailed = true;
            status = jailed;
            jail_until = c.height + duration;
          })
          s)

  unfoldable pub jail_worker : ℕ → Register S → Register S
  jail_worker a s = elim (get_worker a s) [
    | none ↦ s
    | some w ↦
        if w.tombstoned
        then s
        else if leb 3 (u32 (w.jail_count + 1))
        then jail_for_good a s
        else jail_for_a_while a w s
  ]

  unfoldable pub unjail_worker : ℕ → Register S → Result WorkerError (Register S)
  unjail_worker a s = elim (get_worker a s) [
    | none ↦ err worker_not_found
    | some w ↦
        if not w.is_jailed
        then err worker_not_jailed
        else if w.tombstoned
        then err worker_tombstoned
        else if ltb c.height w.jail_until
        then err jail_period_not_elapsed
        else ok (
            notify c a
              (set_worker c (record w { is_jailed = false; status = active; jail_until = 0 }) s))
  ]

  unfoldable pub increment_success_streak : ℕ → Register S → Register S
  increment_success_streak a s = elim (get_worker a s) [
    | none ↦ s
    | some w ↦
        let streak = u32 (w.success_streak + 1) in
        let decayed = record w { jail_count = w.jail_count - 1; success_streak = 0 } in
        set_worker c
          (if leb (get_worker_params s).jail_decay_interval streak
            then decayed
            else record w { success_streak = streak })
          s
  ]

  unfoldable pub get_success_streak : ℕ → Register S → ℕ
  get_success_streak a s = elim (get_worker a s) [ none ↦ 0 | some w ↦ w.success_streak ]

  unfoldable pub update_worker_stats : ℕ → ℤ → Register S → Register S
  update_worker_stats a fee s = elim (get_worker a s) [
    | none ↦ s
    | some w ↦
        set_worker c
          (record w {
            total_tasks = u64 (w.total_tasks + 1);
            total_fee_earned = w.total_fee_earned +ℤ fee;
            last_active_block = c.height;
          })
          s
  ]

  -- A worker that has waited long enough gets its stake back and is removed; a refused transfer
  -- leaves it for the next block.
  unfoldable pub release_worker : Worker → ℕ → Register S → Register S
  release_worker w a s =
      let gone : Register S → Register S = λ t. delete_worker a (
        remove_model_indices a w.supported_models (record t { outer = c.on_worker_removed t a })) in
      let paid : Register S = elim (c.stake_out s.outer a w.stake) [
        | none ↦ s
        | some o ↦ gone (record s { outer = o })
      ] in
      if w.stake == 0 then gone s else paid

  unfoldable pub process_exiting_worker : Worker → Register S → Register S
  unfolding release_worker
  process_exiting_worker w s =
      let released : Register S = elim (c.decode w.address) [
        | none ↦ s
        | some a ↦ release_worker w a s
      ] in
      if not (is_status_exiting w.status)
      then s
      else if w.exit_requested_at == 0
      then s
      else if ltb (c.height - w.exit_requested_at) (get_worker_params s).exit_wait_period
      then s
      else released

  unfoldable pub process_exiting_workers : Register S → Register S
  unfolding for_workers process_exiting_worker
  process_exiting_workers s = for_workers process_exiting_worker (get_all_workers s) s
