-- ===== src/ModelReg/Types.antt =====
-- x/modelreg/types: the record of a model, the parameters and the messages. Identifiers, names and
-- addresses are numbers, 0 the empty one; `F` is float64. Heights (int64) are taken as not negative.
use funai_chain.Base.{ℕ, ◌&&◌, not, Bool, true, false, leb, ◌==◌}
use funai_chain.Settlement.Types.{Coin}

pub data ModelStatus : Type 0 where
  model_proposed model_active : ModelStatus

abbrev pub is_model_active : ModelStatus → Bool
is_model_active model_proposed = false
is_model_active model_active = true

pub data ModelError : Type 0 where
  bad_creator model_exists alias_taken not_authority model_not_found not_a_worker : ModelError
  not_supported empty_name bad_alias empty_hash bad_epsilon bad_ratio : ModelError
  empty_model_id : ModelError

pub record Model (F : Type 0) : Type 0 where
  pub model_id : ℕ
  pub name : ℕ
  pub alias : ℕ
  pub epsilon : ℕ
  pub status : ModelStatus
  pub proposer_address : ℕ
  pub weight_hash : ℕ
  pub quant_config_hash : ℕ
  pub runtime_image_hash : ℕ
  pub installed_stake_ratio : F
  pub worker_count : ℕ
  pub operator_count : ℕ
  pub suggested_price : Coin
  pub activated_at : ℕ
  pub created_at : ℕ
  pub active_workers : ℕ
  pub tps_last_epoch : ℕ
  pub avg_fee : ℕ
  pub avg_latency_ms : ℕ
  pub total_tasks_24h : ℕ
  pub last_stats_epoch : ℕ

pub record ModelParams (F : Type 0) : Type 0 where
  pub activation_stake_ratio : F
  pub service_stake_ratio : F
  pub min_eligible_workers : ℕ
  pub min_unique_operators : ℕ
  pub min_service_worker_count : ℕ

-- `at_least x y` is `x >= y` and `ratio n d` is `float64(n) / float64(d)`.
pub record Ratios (F : Type 0) : Type 0 where
  pub none_at_all : F
  pub ratio : ℕ → ℕ → F
  pub at_least : F → F → Bool

module _ {F : Type 0} (o : Ratios F) where
  abbrev pub default_model_params : ModelParams F
  default_model_params = record {
    activation_stake_ratio = o.ratio 2 3;
    service_stake_ratio = o.ratio 2 3;
    min_eligible_workers = 4;
    min_unique_operators = 4;
    min_service_worker_count = 10;
  }

  -- `Params.Validate`: true when it returns no error.
  unfoldable pub validate_model_params : ModelParams F → Bool
  validate_model_params p =
      not (o.at_least o.none_at_all p.activation_stake_ratio)
      && o.at_least (o.ratio 1 1) p.activation_stake_ratio
      && not (o.at_least o.none_at_all p.service_stake_ratio)
      && o.at_least (o.ratio 1 1) p.service_stake_ratio
      && not (p.min_eligible_workers == 0)
      && not (p.min_unique_operators == 0)

  abbrev pub can_serve : Model F → ℕ → F → Bool
  can_serve m workers share = o.at_least m.installed_stake_ratio share && leb workers m.worker_count

  abbrev pub is_activated : Model F → Bool
  is_activated m =
      o.at_least m.installed_stake_ratio (o.ratio 2 3)
      && leb 4 m.worker_count
      && leb 4 m.operator_count

pub record MsgModelProposal : Type 0 where
  pub creator : ℕ
  pub name : ℕ
  pub alias : ℕ
  pub epsilon : ℕ
  pub weight_hash : ℕ
  pub quant_config_hash : ℕ
  pub runtime_image_hash : ℕ
  pub suggested_price : Coin

pub record MsgUpdateModelStats (F : Type 0) : Type 0 where
  pub authority : ℕ
  pub model_id : ℕ
  pub installed_stake_ratio : F
  pub worker_count : ℕ
  pub operator_count : ℕ

pub record MsgDeclareInstalled : Type 0 where
  pub creator : ℕ
  pub model_id : ℕ
