-- ===== src/ModelReg/Tests.antt =====
-- Small runs of x/modelreg, with pairs for ratios and one byte for each identifier, and a witness for
-- each property.
use funai_chain.Base.{
  ℕ, ◌≡◌, ◌*◌, ◌||◌, true, ◌==◌, leb, some, List, [], ◌∷◌, arith, refl, Bool-cases, inl, inr,
}
use funai_chain.Base.Result.{ok}
use funai_chain.ModelReg.Types.{Model, model_active, Ratios, MsgModelProposal}
use funai_chain.ModelReg.Index.{Bytes, installed_key, has_key, addresses_under, split_key, set_key}
use funai_chain.ModelReg.Keeper.{
  ModelStore, ModelContext, get_model, get_installed_workers_by_model, add_installed,
  check_and_activate_model, refresh_model_stats,
}
use funai_chain.ModelReg.Message.{propose_model, declare_installed, proposed_model}
use funai_chain.ModelReg.Keys.{has_bytes, has_bytes-addresses_under}
use funai_chain.ModelReg.Sound.{IsFiled}
use funai_chain.ModelReg.Run.{start, next, propose, declare, alias_unique, active_for_good}

abbrev read_byte : Bytes → ℕ
read_byte [] = 0
read_byte (b ∷ bs) = b

abbrev pairs : Ratios (ℕ × ℕ)
pairs = record {
  none_at_all = (0, 1);
  ratio = λ n d. (n, d);
  at_least = λ x y. leb (y.0 * x.1) (x.0 * y.1);
}

abbrev registry : ModelContext (ℕ × ℕ)
registry = record {
  height = 30;
  authority = 9;
  decode = λ n. some n;
  spell = λ n. n ∷ [];
  read = read_byte;
  digest = λ bs. 7;
  ratios = pairs;
  is_worker_active = λ a. a == 4 || a == 5;
  worker_stake = λ a. 30;
  operator_id = λ a. a;
  active_worker_stake = 60;
  worker_supports_model = λ a m. true;
}

abbrev proposal : MsgModelProposal
proposal = record {
  creator = 1;
  name = 2;
  alias = 3;
  epsilon = 1;
  weight_hash = 4;
  quant_config_hash = 5;
  runtime_image_hash = 6;
  suggested_price = record { denom = 1; amount = 10 };
}

abbrev empty_register : ModelStore (ℕ × ℕ)
empty_register = record {
  models = [];
  model_params = some (record {
    activation_stake_ratio = (2, 3);
    service_stake_ratio = (2, 3);
    min_eligible_workers = 2;
    min_unique_operators = 2;
    min_service_worker_count = 2;
  });
  installed = [];
  aliases = [];
}

abbrev proposed : ModelStore (ℕ × ℕ)
proposed = record empty_register {
  models = (7, proposed_model registry proposal 7) ∷ [];
  aliases = (3, 7) ∷ [];
}

propose_run : propose_model registry proposal empty_register ≡ ok (7, proposed)
unfolding propose_model
propose_run = refl

-- One worker has installed the model, which is half of the stake; the second one activates it.
abbrev half_installed : ModelStore (ℕ × ℕ)
half_installed = record proposed { installed = (4 ∷ 0 ∷ 7 ∷ []) ∷ [] }

abbrev counted : Model (ℕ × ℕ)
counted = record (proposed_model registry proposal 7) {
  installed_stake_ratio = (60, 60);
  worker_count = 2;
  operator_count = 2;
  status = model_active;
  activated_at = 30;
}

abbrev all_installed : ModelStore (ℕ × ℕ)
all_installed = record proposed {
  installed = (5 ∷ 0 ∷ 7 ∷ []) ∷ (4 ∷ 0 ∷ 7 ∷ []) ∷ [];
  models = (7, counted) ∷ [];
}

declare_run :
    declare_installed registry (record { creator = 5; model_id = 7 }) half_installed
    ≡ ok all_installed
unfolding declare_installed refresh_model_stats get_installed_workers_by_model add_installed
    check_and_activate_model addresses_under split_key set_key
declare_run = refl

alias_unique_example : ◌≡◌ {A = ℕ} 7 7
alias_unique_example =
    alias_unique empty_register proposed 7 7 (proposed_model registry proposal 7)
      (proposed_model registry proposal 7) refl
      (next registry start (propose proposal 7 propose_run)) refl refl refl

one-IsFiled :
    (m : Model (ℕ × ℕ)) (keys : List Bytes)
    → m.model_id ≡ 7
    → m.alias ≡ 3
    → IsFiled (record proposed { models = (7, m) ∷ []; installed = keys })
one-IsFiled m keys named called i x found = elim (Bool-cases (i == 7)) [
  | inl here ↦
      let same : x ≡ m = ground (arith, found, here) in
      let at : 7 ≡ i = ground (arith, here) in
      rw (same, called) (ground (arith, named, at), ground (arith, at))
  | inr away ↦ ground (arith, found, away)
]

again_run :
    declare_installed registry (record { creator = 5; model_id = 7 }) all_installed
    ≡ ok all_installed
unfolding declare_installed
again_run = refl

active_for_good_example :
    (n : Model (ℕ × ℕ)) × (get_model 7 all_installed ≡ some n)
    × (n.status ≡ model_active)
    × (n.activated_at ≡ 30)
active_for_good_example =
    active_for_good all_installed all_installed 7 counted
      (one-IsFiled counted all_installed.installed refl refl)
      (next registry start (declare (record { creator = 5; model_id = 7 }) again_run)) refl refl

abbrev uncounted : ModelStore (ℕ × ℕ)
uncounted = record all_installed { models = (7, proposed_model registry proposal 7) ∷ [] }

has_bytes-addresses_under_example :
    has_bytes (4 ∷ []) (addresses_under (7 ∷ []) ((5 ∷ 0 ∷ 7 ∷ []) ∷ (4 ∷ 0 ∷ 7 ∷ []) ∷ []))
    ≡ has_key (installed_key (4 ∷ []) (7 ∷ [])) ((5 ∷ 0 ∷ 7 ∷ []) ∷ (4 ∷ 0 ∷ 7 ∷ []) ∷ [])
has_bytes-addresses_under_example =
    has_bytes-addresses_under (4 ∷ []) (7 ∷ []) ((λ same. ground arith), tt)
      ((5 ∷ 0 ∷ 7 ∷ []) ∷ (4 ∷ 0 ∷ 7 ∷ []) ∷ [])
