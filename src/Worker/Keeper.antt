-- ===== src/Worker/Keeper.antt =====
-- x/worker/keeper/keeper.go: the stored workers, the index of models, the parameters, and the bank
-- and x/modelreg behind their interfaces.
use funai_chain.Base.{
  ℕ, ◌+◌, ◌&&◌, ◌||◌, Bool, false, ◌==◌, if◌then◌else◌, Option, none, some, List, [], ◌∷◌, Dict,
  lookup, insert, erase, get_or, u64,
}
use funai_chain.Worker.Types.{Worker, WorkerParams, default_worker_params, is_active}

-- An entry of the model index: the model, then the worker.
abbrev pub IndexKey : Type 0
IndexKey = ℕ × ℕ

pub record Register (S : Type 0) : Type 0 where
  pub outer : S
  pub workers : Dict Worker
  pub model_index : List IndexKey
  pub params : Option WorkerParams

-- The block's height and the modules behind the keeper; `S` is their state. `stake_in` is
-- `SendCoinsFromAccountToModule`, `stake_out` is `SendCoinsFromModuleToAccount`, and `burn` is
-- `BurnCoins`, all on the module's account, whose balance is `held`. The two notifications of
-- x/modelreg read this register.
pub record WorkerContext (S : Type 0) : Type 0 where
  pub height : ℕ
  pub decode : ℕ → Option ℕ
  pub held : S → ℕ
  pub stake_in : S → ℕ → ℕ → Option S
  pub stake_out : S → ℕ → ℕ → Option S
  pub burn : S → ℕ → Option S
  pub on_worker_state_change : Register S → ℕ → S
  pub on_worker_removed : Register S → ℕ → S

abbrev pub is_entry : ℕ → ℕ → IndexKey → Bool
is_entry model a key = key.0 == model && key.1 == a

abbrev pub has_entry : ℕ → ℕ → List IndexKey → Bool
has_entry model a [] = false
has_entry model a (key ∷ keys) = is_entry model a key || has_entry model a keys

abbrev pub set_entry : ℕ → ℕ → List IndexKey → List IndexKey
set_entry model a keys = if has_entry model a keys then keys else (model, a) ∷ keys

abbrev pub drop_entry : ℕ → ℕ → List IndexKey → List IndexKey
drop_entry model a [] = []
drop_entry model a (key ∷ keys) =
    let rest = drop_entry model a keys in if is_entry model a key then rest else key ∷ rest

abbrev pub set_entries : ℕ → List ℕ → List IndexKey → List IndexKey
set_entries a [] keys = keys
set_entries a (m ∷ ms) keys = set_entries a ms (set_entry m a keys)

abbrev pub drop_entries : ℕ → List ℕ → List IndexKey → List IndexKey
drop_entries a [] keys = keys
drop_entries a (m ∷ ms) keys = drop_entries a ms (drop_entry m a keys)

abbrev pub values : Dict Worker → List Worker
values [] = []
values (e ∷ d) = e.1 ∷ values d

module _ {S : Type 0} where
  abbrev pub get_worker : ℕ → Register S → Option Worker
  get_worker a s = lookup a s.workers

  abbrev pub delete_worker : ℕ → Register S → Register S
  delete_worker a s = record s { workers = erase a s.workers }

  abbrev pub get_all_workers : Register S → List Worker
  get_all_workers s = values s.workers

  abbrev pub set_model_indices : ℕ → List ℕ → Register S → Register S
  set_model_indices a models s = record s { model_index = set_entries a models s.model_index }

  abbrev pub remove_model_indices : ℕ → List ℕ → Register S → Register S
  remove_model_indices a models s = record s { model_index = drop_entries a models s.model_index }

  abbrev pub get_worker_params : Register S → WorkerParams
  get_worker_params s = get_or default_worker_params s.params

  -- A worker is stored under the address that it names itself; a malformed one is the empty key.
  abbrev pub set_worker : WorkerContext S → Worker → Register S → Register S
  set_worker c w s = record s { workers = insert (get_or 0 (c.decode w.address)) w s.workers }

  abbrev pub notify : WorkerContext S → ℕ → Register S → Register S
  notify c a s = record s { outer = c.on_worker_state_change s a }

  -- A loop over the workers as they are at its start.
  unfoldable pub for_workers :
      (Worker → Register S → Register S) → List Worker → Register S → Register S
  for_workers step [] s = s
  for_workers step (w ∷ ws) s = for_workers step ws (step w s)

  unfoldable pub is_worker_active : ℕ → Register S → Bool
  is_worker_active a s = elim (get_worker a s) [ none ↦ false | some w ↦ is_active w ]

  unfoldable pub get_worker_stake : ℕ → Register S → ℕ
  get_worker_stake a s = elim (get_worker a s) [ none ↦ 0 | some w ↦ w.stake ]

  unfoldable pub get_worker_pubkey : ℕ → Register S → Option ℕ
  get_worker_pubkey a s = elim (get_worker a s) [ none ↦ none | some w ↦ some w.pubkey ]

-- The sums over a list of workers, for `GetActiveWorkerCount` and `GetActiveWorkerStake`.
abbrev pub count_active : List Worker → ℕ
count_active [] = 0
count_active (w ∷ ws) = let rest = count_active ws in if is_active w then u64 (rest + 1) else rest

abbrev pub active_stake : List Worker → ℕ
active_stake [] = 0
active_stake (w ∷ ws) = let rest = active_stake ws in if is_active w then w.stake + rest else rest
