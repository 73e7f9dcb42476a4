-- ===== src/ModelReg/Sound.antt =====
-- x/modelreg: what every operation keeps of the register: the models are filed under their own
-- identifiers, an alias leads to its model, and an active model stays active.
use funai_chain.Base.{
  ℕ, ◌≡◌, ◌+◌, u64, ◌==◌, ltb, some, lookup, lookup-insert, arith, refl, ap, ◌∙◌, Bool-cases,
  Option-cases, inl, inr,
}
use funai_chain.ModelReg.Types.{Model, model_active}
use funai_chain.ModelReg.Keeper.{
  ModelStore, get_model, set_model, with_task, record_model_task, with_stats, update_epoch_stats,
}

module _ {F : Type 0} where
  -- Every model that can be looked up is filed under its own identifier, and its alias leads to it.
  abbrev pub IsFiled : ModelStore F → Type 0
  IsFiled s =
      (id : ℕ) (m : Model F)
      → get_model id s ≡ some m
      → (m.model_id ≡ id) × (lookup m.alias s.aliases ≡ some id)

  -- A later record of the same model: if it was active, it still is, since the same block.
  pub record IsLater (m n : Model F) : Type 0 where
    pub same_id : n.model_id ≡ m.model_id
    pub same_alias : n.alias ≡ m.alias
    pub stays : m.status ≡ model_active → n.status ≡ model_active
    pub since : m.status ≡ model_active → n.activated_at ≡ m.activated_at

  pub IsLater-refl : (m : Model F) → IsLater m m
  IsLater-refl m = record { same_id = refl; same_alias = refl; stays = λ h. h; since = λ h. refl }

  pub IsLater-trans : (m n o : Model F) → IsLater m n → IsLater n o → IsLater m o
  IsLater-trans m n o p q = record {
    same_id = q.same_id ∙ p.same_id;
    same_alias = q.same_alias ∙ p.same_alias;
    stays = λ h. q.stays (p.stays h);
    since = λ h. q.since (p.stays h) ∙ p.since h;
  }

  -- No model is lost, and none but later records take its place.
  abbrev pub Advances : ModelStore F → ModelStore F → Type 0
  Advances s t =
      (id : ℕ) (m : Model F)
      → get_model id s ≡ some m
      → (n : Model F) × (get_model id t ≡ some n) × IsLater m n

  -- What an operation that keeps the register in order does.
  pub record Keeps (s t : ModelStore F) : Type 0 where
    pub filed : IsFiled t
    pub advances : Advances s t

  pub Keeps-refl : (s : ModelStore F) → IsFiled s → Keeps s s
  Keeps-refl s h = record { filed = h; advances = λ id m there. (m, there, IsLater-refl m) }

  pub Keeps-trans : (s t u : ModelStore F) → Keeps s t → Keeps t u → Keeps s u
  Keeps-trans s t u p q = record {
    filed = q.filed;
    advances = λ id m there.
        let mid = p.advances id m there in
        let end = q.advances id mid.0 mid.1 in
        (end.0, end.1, IsLater-trans m mid.0 end.0 mid.2 end.2);
  }

  -- A later record of a stored model takes its place.
  pub set_model-Keeps :
      (s : ModelStore F) (id : ℕ) (m n : Model F)
      → IsFiled s
      → get_model id s ≡ some m
      → IsLater m n
      → Keeps s (set_model n s)
  set_model-Keeps s id m n h there later =
      let key : n.model_id ≡ id = later.same_id ∙ (h id m there).0 in
      let look = λ (j : ℕ). lookup-insert j n.model_id n s.models in
      let reach : lookup n.alias s.aliases ≡ some id = rw later.same_alias (h id m there).1 in
      record {
        filed = λ j x found. elim (Bool-cases (j == n.model_id)) [
          | inl here ↦
              let same : x ≡ n = ground (arith, look j, found, here) in
              let at : id ≡ j = ground (arith, key, here) in rw same (key ∙ at, reach ∙ ap some at)
          | inr away ↦ h j x (ground (arith, look j, found, away))
        ];
        advances = λ j x found. elim (Bool-cases (j == n.model_id)) [
          | inl here ↦
              let at : j ≡ id = ground (arith, key, here) in
              let same : x ≡ m = ground (arith, found, there, at) in
              (n, ground (arith, look j, here), rw same later)
          | inr away ↦ (x, ground (arith, look j, found, away), IsLater-refl x)
        ];
      }

  with_task-IsLater : (fee latency : ℕ) (m : Model F) → IsLater m (with_task fee latency m)
  with_task-IsLater fee latency m = elim (Bool-cases (u64 (m.total_tasks_24h + 1) == 0)) [
    | inl wrapped ↦
        rw wrapped (record { same_id = refl; same_alias = refl; stays = λ a. a; since = λ a. refl })
    | inr counted ↦ elim (Bool-cases (latency == 0)) [
      | inl instant ↦
          rw (counted, instant)
            (record { same_id = refl; same_alias = refl; stays = λ a. a; since = λ a. refl })
      | inr timed ↦
          rw (counted, timed)
            (record { same_id = refl; same_alias = refl; stays = λ a. a; since = λ a. refl })
    ]
  ]

  pub record_model_task-Keeps :
      (id fee latency : ℕ) (s : ModelStore F)
      → IsFiled s
      → Keeps s (record_model_task id fee latency s)
  unfolding record_model_task
  record_model_task-Keeps id fee latency s h = elim (Option-cases (get_model id s)) [
    | inl missing ↦ rw (record_model_task, missing) (Keeps-refl s h)
    | inr (m, there) ↦
        rw (record_model_task, there)
          (set_model-Keeps s id m (with_task fee latency m) h there
            (with_task-IsLater fee latency m))
  ]

  pub update_epoch_stats-Keeps :
      (id tasks latencies epoch : ℕ) (s : ModelStore F)
      → IsFiled s
      → Keeps s (update_epoch_stats id tasks latencies epoch s)
  unfolding update_epoch_stats
  update_epoch_stats-Keeps id tasks latencies epoch s h = elim (Option-cases (get_model id s)) [
    | inl missing ↦ rw (update_epoch_stats, missing) (Keeps-refl s h)
    | inr (m, there) ↦ elim (Bool-cases (ltb m.last_stats_epoch epoch)) [
      | inr old ↦ rw (update_epoch_stats, there, old) (Keeps-refl s h)
      | inl new ↦
          rw (update_epoch_stats, there, new)
            (set_model-Keeps s id m (with_stats tasks latencies epoch m) h there
              (record { same_id = refl; same_alias = refl; stays = λ a. a; since = λ a. refl }))
    ]
  ]
