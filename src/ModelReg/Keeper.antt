-- ===== src/ModelReg/Keeper.antt =====
-- x/modelreg/keeper/keeper.go: the stored models, the counts of those who serve them, activation,
-- and the statistics of tasks.
use funai_chain.Base.{
  ℕ, ◌+◌, ◌*◌, ◌-◌, ◌/◌, ◌^◌, ◌&&◌, ◌||◌, Bool, false, ◌==◌, ltb, leb, if◌then◌else◌, Option, none,
  some, List, [], ◌∷◌, Dict, lookup, insert, erase, get_or, is_some, u32, u64,
}
use funai_chain.ModelReg.Types.{
  Model, ModelParams, model_active, is_model_active, Ratios, default_model_params,
}
use funai_chain.ModelReg.Index.{
  Bytes, installed_key, has_key, set_key, remove_key, models_under, addresses_under, model_preimage,
}

pub record ModelStore (F : Type 0) : Type 0 where
  pub models : Dict (Model F)
  pub model_params : Option (ModelParams F)
  pub installed : List Bytes
  pub aliases : Dict ℕ

-- The block, the governance address (0 for none), the bech32 decoder, the bytes of addresses and
-- identifiers and what they read as, the hash of the bytes of a model, and x/worker behind its
-- interface.
pub record ModelContext (F : Type 0) : Type 0 where
  pub height : ℕ
  pub authority : ℕ
  pub decode : ℕ → Option ℕ
  pub spell : ℕ → Bytes
  pub read : Bytes → ℕ
  pub digest : Bytes → ℕ
  pub ratios : Ratios F
  pub is_worker_active : ℕ → Bool
  pub worker_stake : ℕ → ℕ
  pub operator_id : ℕ → ℕ
  pub active_worker_stake : ℕ
  pub worker_supports_model : ℕ → ℕ → Bool

-- The average of a statistic after one more task; the product and the sum wrap.
abbrev pub average : ℕ → ℕ → ℕ → ℕ
average old total new = u64 (u64 (old * (total - 1)) + new) / total

module _ {F : Type 0} where
  abbrev pub get_model : ℕ → ModelStore F → Option (Model F)
  get_model id s = lookup id s.models

  abbrev pub set_model : Model F → ModelStore F → ModelStore F
  set_model m s = record s { models = insert m.model_id m s.models }

  abbrev pub delete_model : ℕ → ModelStore F → ModelStore F
  delete_model id s = record s { models = erase id s.models }

  abbrev pub set_alias_index : ℕ → ℕ → ModelStore F → ModelStore F
  set_alias_index alias id s = record s { aliases = insert alias id s.aliases }

  abbrev pub has_alias : ℕ → ModelStore F → Bool
  has_alias alias s = is_some (lookup alias s.aliases)

  abbrev pub get_model_by_alias : ℕ → ModelStore F → Option (Model F)
  get_model_by_alias alias s = elim (lookup alias s.aliases) [
    | none ↦ none
    | some id ↦ get_model id s
  ]

  abbrev pub with_task : ℕ → ℕ → Model F → Model F
  with_task fee latency m =
      let total = u64 (m.total_tasks_24h + 1) in
      let counted = record m { total_tasks_24h = total } in
      let paid = record counted { avg_fee = average m.avg_fee total fee } in
      let timed = record paid { avg_latency_ms = average m.avg_latency_ms total latency } in
      if total == 0 then counted else if latency == 0 then paid else timed

  unfoldable pub record_model_task : ℕ → ℕ → ℕ → ModelStore F → ModelStore F
  record_model_task id fee latency s = elim (get_model id s) [
    | none ↦ s
    | some m ↦ set_model (with_task fee latency m) s
  ]

  -- The statistics of an epoch, once for each.
  abbrev pub with_stats : ℕ → ℕ → ℕ → Model F → Model F
  with_stats tasks latencies epoch m = record m {
    tps_last_epoch = u32 tasks;
    total_tasks_24h = u64 (m.total_tasks_24h + tasks);
    avg_latency_ms = if tasks == 0 then m.avg_latency_ms else latencies / tasks;
    last_stats_epoch = epoch;
  }

  unfoldable pub update_epoch_stats : ℕ → ℕ → ℕ → ℕ → ModelStore F → ModelStore F
  update_epoch_stats id tasks latencies epoch s = elim (get_model id s) [
    | none ↦ s
    | some m ↦
        if ltb m.last_stats_epoch epoch then set_model (with_stats tasks latencies epoch m) s else s
  ]

-- What the loop of RefreshModelStats adds up: stakes, workers (a uint32) and operators.
pub record Installed : Type 0 where
  pub stake : ℕ
  pub workers : ℕ
  pub operators : List ℕ

abbrev pub nothing_installed : Installed
nothing_installed = record { stake = 0; workers = 0; operators = [] }

abbrev pub has_operator : ℕ → List ℕ → Bool
has_operator o [] = false
has_operator o (p ∷ ps) = o == p || has_operator o ps

abbrev pub add_operator : ℕ → List ℕ → List ℕ
add_operator o ps = if o == 0 || has_operator o ps then ps else o ∷ ps

abbrev pub count : List ℕ → ℕ
count [] = 0
count (p ∷ ps) = count ps + 1

module _ {F : Type 0} (c : ModelContext F) where
  abbrev pub get_model_params : ModelStore F → ModelParams F
  get_model_params s = get_or (default_model_params c.ratios) s.model_params

  abbrev pub compute_model_id : ℕ → ℕ → ℕ → ℕ
  compute_model_id weight quant runtime =
      c.digest (model_preimage (c.spell weight) (c.spell quant) (c.spell runtime))

  abbrev pub meets_thresholds : Model F → ModelParams F → Bool
  meets_thresholds m p =
      c.ratios.at_least m.installed_stake_ratio p.activation_stake_ratio
      && leb p.min_eligible_workers m.worker_count
      && leb p.min_unique_operators m.operator_count

  abbrev pub activated : Model F → Model F
  activated m = record m { status = model_active; activated_at = c.height }

  unfoldable pub check_and_activate_model : ℕ → ModelStore F → ModelStore F
  check_and_activate_model id s = elim (get_model id s) [
    | none ↦ s
    | some m ↦
        if is_model_active m.status
        then s
        else if meets_thresholds m (get_model_params s)
        then set_model (activated m) s
        else s
  ]

  abbrev pub entry_key : ℕ → ℕ → Bytes
  entry_key a id = installed_key (c.spell a) (c.spell id)

  abbrev pub has_worker_installed_model : ℕ → ℕ → ModelStore F → Bool
  has_worker_installed_model a id s = has_key (entry_key a id) s.installed

  abbrev pub set_worker_installed_model : ℕ → ℕ → ModelStore F → ModelStore F
  set_worker_installed_model a id s = record s { installed = set_key (entry_key a id) s.installed }

  abbrev pub read_all : List Bytes → List ℕ
  read_all [] = []
  read_all (b ∷ bs) = c.read b ∷ read_all bs

  unfoldable pub get_worker_installed_models : ℕ → ModelStore F → List ℕ
  unfolding models_under
  get_worker_installed_models a s = read_all (models_under (c.spell a) s.installed)

  abbrev pub remove_models : ℕ → List ℕ → List Bytes → List Bytes
  remove_models a [] keys = keys
  remove_models a (id ∷ ids) keys = remove_models a ids (remove_key (entry_key a id) keys)

  unfoldable pub get_installed_workers_by_model : ℕ → ModelStore F → List ℕ
  unfolding addresses_under
  get_installed_workers_by_model id s = read_all (addresses_under (c.spell id) s.installed)

  unfoldable pub add_installed : List ℕ → Installed → Installed
  add_installed [] i = i
  add_installed (a ∷ addrs) i =
      let skipped = add_installed addrs i in
      let added = add_installed addrs (record {
        stake = i.stake + c.worker_stake a;
        workers = u32 (i.workers + 1);
        operators = add_operator (c.operator_id a) i.operators;
      }) in
      if c.is_worker_active a then added else skipped

  abbrev pub with_counts : Installed → Model F → Model F
  with_counts i m = record m {
    installed_stake_ratio =
        if c.active_worker_stake == 0
        then c.ratios.none_at_all
        else c.ratios.ratio i.stake c.active_worker_stake;
    worker_count = i.workers;
    operator_count = u32 (count i.operators);
  }

  -- `none` is the panic of `Int64` on a stake that does not fit. The check of the service status
  -- that follows emits events only.
  unfoldable pub refresh_model_stats : ℕ → ModelStore F → Option (ModelStore F)
  unfolding get_installed_workers_by_model add_installed check_and_activate_model
  refresh_model_stats id s = elim (get_model id s) [
    | none ↦ some s
    | some m ↦
        let i = add_installed (get_installed_workers_by_model id s) nothing_installed in
        let too_large = leb (2 ^ 63) i.stake || leb (2 ^ 63) c.active_worker_stake in
        if ltb 0 c.active_worker_stake && too_large
        then none
        else some (check_and_activate_model id (set_model (with_counts i m) s))
  ]

  unfoldable pub refresh_all : List ℕ → ModelStore F → Option (ModelStore F)
  unfolding refresh_model_stats
  refresh_all [] s = some s
  refresh_all (id ∷ ids) s = elim (refresh_model_stats id s) [
    | none ↦ none
    | some t ↦ refresh_all ids t
  ]

  unfoldable pub on_worker_state_change : ℕ → ModelStore F → Option (ModelStore F)
  unfolding get_worker_installed_models refresh_all
  on_worker_state_change a s = refresh_all (get_worker_installed_models a s) s

  unfoldable pub on_worker_removed : ℕ → ModelStore F → Option (ModelStore F)
  unfolding get_worker_installed_models refresh_all
  on_worker_removed a s =
      let ids = get_worker_installed_models a s in
      refresh_all ids (record s { installed = remove_models a ids s.installed })
