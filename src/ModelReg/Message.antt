-- ===== src/ModelReg/Message.antt =====
-- x/modelreg/keeper/msg_server.go: the messages.
use funai_chain.Base.{ℕ, ◌&&◌, not, ◌==◌, if◌then◌else◌, Option, none, some, is_some}
use funai_chain.Base.Result.{Result, ok, err, panic}
use funai_chain.ModelReg.Types.{
  Model, ModelError, bad_creator, model_exists, alias_taken, not_authority, model_not_found,
  not_a_worker, not_supported, model_proposed, MsgModelProposal, MsgUpdateModelStats,
  MsgDeclareInstalled,
}
use funai_chain.ModelReg.Keeper.{
  ModelStore, ModelContext, get_model, set_model, set_alias_index, has_alias, compute_model_id,
  check_and_activate_model, has_worker_installed_model, set_worker_installed_model,
  refresh_model_stats,
}

module _ {F : Type 0} where
  abbrev pub or_panic : Option (ModelStore F) → Result ModelError (ModelStore F)
  or_panic none = panic
  or_panic (some s) = ok s

  abbrev pub with_given : Model F → MsgUpdateModelStats F → Model F
  with_given old m = record old {
    installed_stake_ratio = m.installed_stake_ratio;
    worker_count = m.worker_count;
    operator_count = m.operator_count;
  }

module _ {F : Type 0} (c : ModelContext F) where
  abbrev pub proposed_model : MsgModelProposal → ℕ → Model F
  proposed_model m id = record {
    model_id = id;
    name = m.name;
    alias = m.alias;
    epsilon = m.epsilon;
    status = model_proposed;
    proposer_address = m.creator;
    weight_hash = m.weight_hash;
    quant_config_hash = m.quant_config_hash;
    runtime_image_hash = m.runtime_image_hash;
    installed_stake_ratio = c.ratios.none_at_all;
    worker_count = 0;
    operator_count = 0;
    suggested_price = m.suggested_price;
    activated_at = 0;
    created_at = c.height;
    active_workers = 0;
    tps_last_epoch = 0;
    avg_fee = 0;
    avg_latency_ms = 0;
    total_tasks_24h = 0;
    last_stats_epoch = 0;
  }

  unfoldable pub propose_model :
      MsgModelProposal → ModelStore F → Result ModelError (ℕ × ModelStore F)
  propose_model m s =
      let id = compute_model_id c m.weight_hash m.quant_config_hash m.runtime_image_hash in
      if not (is_some (c.decode m.creator))
      then err bad_creator
      else if is_some (get_model id s)
      then err model_exists
      else if has_alias m.alias s
      then err alias_taken
      else ok (id, set_alias_index m.alias id (set_model (proposed_model m id) s))

  unfoldable pub update_model_stats :
      MsgUpdateModelStats F → ModelStore F → Result ModelError (ModelStore F)
  unfolding check_and_activate_model
  update_model_stats m s =
      if not (c.authority == 0) && not (m.authority == c.authority)
      then err not_authority
      else elim (get_model m.model_id s) [
        | none ↦ err model_not_found
        | some old ↦ ok (check_and_activate_model c m.model_id (set_model (with_given old m) s))
      ]

  -- The keeper of x/worker is always given.
  unfoldable pub declare_installed :
      MsgDeclareInstalled → ModelStore F → Result ModelError (ModelStore F)
  unfolding refresh_model_stats
  declare_installed m s = elim (c.decode m.creator) [
    | none ↦ if is_some (get_model m.model_id s) then err bad_creator else err model_not_found
    | some a ↦
        let done =
          or_panic
            (refresh_model_stats c m.model_id (set_worker_installed_model c a m.model_id s)) in
        if not (is_some (get_model m.model_id s))
        then err model_not_found
        else if not (c.is_worker_active a)
        then err not_a_worker
        else if not (c.worker_supports_model a m.model_id)
        then err not_supported
        else if has_worker_installed_model c a m.model_id s
        then ok s
        else done
  ]
