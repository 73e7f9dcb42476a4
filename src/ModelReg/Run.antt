-- ===== src/ModelReg/Run.antt =====
-- x/modelreg as a state machine: its messages, and what x/worker and x/settlement call.
use funai_chain.Base.{ℕ, ◌≡◌, some, [], lookup, arith}
use funai_chain.Base.Result.{ok}
use funai_chain.ModelReg.Types.{
  Model, model_active, MsgModelProposal, MsgUpdateModelStats, MsgDeclareInstalled,
}
use funai_chain.ModelReg.Keeper.{
  ModelStore, ModelContext, get_model, record_model_task, update_epoch_stats,
  on_worker_state_change, on_worker_removed,
}
use funai_chain.ModelReg.Message.{propose_model, update_model_stats, declare_installed}
use funai_chain.ModelReg.Sound.{
  IsFiled, Keeps, Keeps-refl, Keeps-trans, record_model_task-Keeps, update_epoch_stats-Keeps,
}
use funai_chain.ModelReg.Kept.{
  propose_model-Keeps, declare_installed-Keeps, update_model_stats-Keeps, on_worker_removed-Keeps,
  on_worker_state_change-Keeps,
}

module _ {F : Type 0} where
  pub data ModelStep (c : ModelContext F) (s t : ModelStore F) : Type 0 where
    propose : (m : MsgModelProposal) (id : ℕ) → propose_model c m s ≡ ok (id, t) → ModelStep c s t
    update : (m : MsgUpdateModelStats F) → update_model_stats c m s ≡ ok t → ModelStep c s t
    declare : (m : MsgDeclareInstalled) → declare_installed c m s ≡ ok t → ModelStep c s t
    task : (id fee latency : ℕ) → t ≡ record_model_task id fee latency s → ModelStep c s t
    epoch :
        (id tasks latencies at : ℕ)
        → t ≡ update_epoch_stats id tasks latencies at s
        → ModelStep c s t
    changed : (a : ℕ) → on_worker_state_change c a s ≡ some t → ModelStep c s t
    removed : (a : ℕ) → on_worker_removed c a s ≡ some t → ModelStep c s t

  step-Keeps : (c : ModelContext F) (s t : ModelStore F) → ModelStep c s t → IsFiled s → Keeps s t
  step-Keeps c s t (propose m id e) h = propose_model-Keeps c m id s t h e
  step-Keeps c s t (update m e) h = update_model_stats-Keeps c m s t h e
  step-Keeps c s t (declare m e) h = declare_installed-Keeps c m s t h e
  step-Keeps c s t (task id fee latency e) h = rw e (record_model_task-Keeps id fee latency s h)
  step-Keeps c s t (epoch id tasks latencies at e) h =
      rw e (update_epoch_stats-Keeps id tasks latencies at s h)
  step-Keeps c s t (changed a e) h = on_worker_state_change-Keeps c a s t h e
  step-Keeps c s t (removed a e) h = on_worker_removed-Keeps c a s t h e

  -- Any number of steps, each with its own height and workers.
  pub data ModelRun (s : ModelStore F) : ModelStore F → Type 0 where
    start : ModelRun s s
    next : {t u : ModelStore F} (c : ModelContext F) → ModelRun s t → ModelStep c t u → ModelRun s u

  run-Keeps : (s t : ModelStore F) → ModelRun s t → IsFiled s → Keeps s t
  run-Keeps s t start h = Keeps-refl s h
  run-Keeps s t (next {t = u} c run step) h =
      let before = run-Keeps s u run h in
      Keeps-trans s u t before (step-Keeps c u t step before.filed)

  -- In a register that any run has made of an empty one, two models with one alias are the same.
  pub alias_unique :
      (s t : ModelStore F) (i j : ℕ) (m n : Model F)
      → s.models ≡ []
      → ModelRun s t
      → get_model i t ≡ some m
      → get_model j t ≡ some n
      → m.alias ≡ n.alias
      → i ≡ j
  alias_unique s t i j m n empty run at_i at_j same =
      let filed = (run-Keeps s t run (λ id x found. ground (arith, found, empty))).filed in
      let one : lookup m.alias t.aliases ≡ some i = (filed i m at_i).1 in
      let two : lookup m.alias t.aliases ≡ some j = rw same (filed j n at_j).1 in
      ground (arith, one, two)

  -- From a register whose models are filed under their identifiers and reached by their aliases, no
  -- run loses a model, and one that is active stays active since the same block: there is no way back.
  pub active_for_good :
      (s t : ModelStore F) (id : ℕ) (m : Model F)
      → IsFiled s
      → ModelRun s t
      → get_model id s ≡ some m
      → m.status ≡ model_active
      → (n : Model F) × (get_model id t ≡ some n)
        × (n.status ≡ model_active)
        × (n.activated_at ≡ m.activated_at)
  active_for_good s t id m filed run there on =
      let end = (run-Keeps s t run filed).advances id m there in
      (end.0, end.1, end.2.stays on, end.2.since on)
