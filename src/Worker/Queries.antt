-- ===== src/Worker/Queries.antt =====
-- x/worker/keeper/keeper.go: what x/modelreg and the queries read of the register, and the checks of a
-- message before its handler (x/worker/types/msgs.go).
use funai_chain.Base.{
  ℕ, ◌==◌, ◌&&◌, ◌||◌, not, Bool, false, if◌then◌else◌, Option, none, some, List, [], ◌∷◌, length,
  is_some,
}
use funai_chain.Settlement.Payout.{mem}
use funai_chain.Worker.Types.{Worker, MsgRegisterWorker}
use funai_chain.Worker.Keeper.{Register, IndexKey, get_worker, get_all_workers, active_stake}

abbrev pub with_operator : ℕ → List Worker → List Worker
with_operator operator [] = []
with_operator operator (w ∷ ws) =
    let rest = with_operator operator ws in if w.operator_id == operator then w ∷ rest else rest

-- The operators seen so far; the empty one does not count.
abbrev pub operators_of : List Worker → List ℕ → List ℕ
operators_of [] seen = seen
operators_of (w ∷ ws) seen =
    operators_of ws
      (if w.operator_id == 0 || mem w.operator_id seen then seen else w.operator_id ∷ seen)

module _ {S : Type 0} where
  -- The entries of the index under the model, in its order; an entry without a worker is passed over.
  abbrev pub workers_of : ℕ → List IndexKey → Register S → List Worker
  workers_of model [] s = []
  workers_of model (key ∷ keys) s =
      let rest = workers_of model keys s in
      let here : List Worker = elim (get_worker key.1 s) [ none ↦ rest | some w ↦ w ∷ rest ] in
      if key.0 == model then here else rest

  abbrev pub get_workers_by_model : ℕ → Register S → List Worker
  get_workers_by_model model s = workers_of model s.model_index s

  abbrev pub get_worker_operator_id : ℕ → Register S → ℕ
  get_worker_operator_id a s = elim (get_worker a s) [ none ↦ 0 | some w ↦ w.operator_id ]

  abbrev pub worker_supports_model : ℕ → ℕ → Register S → Bool
  worker_supports_model a model s = elim (get_worker a s) [
    | none ↦ false
    | some w ↦ mem model w.supported_models
  ]

  abbrev pub get_workers_by_operator_id : ℕ → Register S → List Worker
  get_workers_by_operator_id operator s = with_operator operator (get_all_workers s)

  abbrev pub count_unique_operators : ℕ → Register S → ℕ
  count_unique_operators model s = length (operators_of (get_workers_by_model model s) [])

  abbrev pub get_model_installed_stake : ℕ → Register S → ℕ
  get_model_installed_stake model s = active_stake (get_workers_by_model model s)

-- At least one model, and no empty one.
abbrev pub are_models : List ℕ → Bool
are_models [] = false
are_models (m ∷ ms) = not (m == 0) && not (mem 0 ms)

-- `ValidateBasic`, true when it returns no error. The decoder of public keys is a parameter.
module _ (decode decode_pubkey : ℕ → Option ℕ) where
  abbrev pub validate_register_worker : MsgRegisterWorker → Bool
  validate_register_worker msg =
      is_some (decode msg.creator)
      && not (msg.pubkey == 0)
      && is_some (decode_pubkey msg.pubkey)
      && are_models msg.supported_models

  abbrev pub validate_update_models : ℕ → List ℕ → Bool
  validate_update_models creator models = is_some (decode creator) && are_models models
