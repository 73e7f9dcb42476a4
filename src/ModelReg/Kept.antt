-- ===== src/ModelReg/Kept.antt =====
-- x/modelreg: every operation keeps the register in order.
use funai_chain.Base.{
  ℕ, ◌≡◌, false, ◌==◌, none, some, List, [], ◌∷◌, lookup, insert, lookup-insert, lookup-insert_self,
  arith, refl, ap, ◌∙◌, Bool-cases, Option-cases, inl, inr,
}
use funai_chain.Base.Result.{ok}
use funai_chain.ModelReg.Types.{
  Model, is_model_active, MsgModelProposal, MsgUpdateModelStats, MsgDeclareInstalled,
}
use funai_chain.ModelReg.Keeper.{
  ModelStore, ModelContext, get_model, set_model, set_alias_index, check_and_activate_model,
  meets_thresholds, activated, get_model_params, with_counts, refresh_model_stats, add_installed,
  nothing_installed, get_installed_workers_by_model, get_worker_installed_models, remove_models,
  has_worker_installed_model, set_worker_installed_model, compute_model_id, refresh_all,
  on_worker_state_change, on_worker_removed,
}
use funai_chain.ModelReg.Message.{
  propose_model, update_model_stats, declare_installed, with_given, proposed_model,
}
use funai_chain.ModelReg.Index.{Bytes}
use funai_chain.ModelReg.Sound.{
  IsFiled, IsLater, Keeps, IsLater-refl, Keeps-refl, Keeps-trans, set_model-Keeps,
}

module _ {F : Type 0} (c : ModelContext F) where
  check_and_activate_model-Keeps :
      (id : ℕ) (s : ModelStore F) → IsFiled s → Keeps s (check_and_activate_model c id s)
  unfolding check_and_activate_model
  check_and_activate_model-Keeps id s h = elim (Option-cases (get_model id s)) [
    | inl missing ↦ rw (check_and_activate_model, missing) (Keeps-refl s h)
    | inr (m, there) ↦ elim (Bool-cases (is_model_active m.status)) [
      | inl done ↦ rw (check_and_activate_model, there, done) (Keeps-refl s h)
      | inr waits ↦ elim (Bool-cases (meets_thresholds c m (get_model_params c s))) [
        | inr short ↦ rw (check_and_activate_model, there, waits, short) (Keeps-refl s h)
        | inl enough ↦
            rw (check_and_activate_model, there, waits, enough)
              (set_model-Keeps s id m (activated c m) h there (record {
                same_id = refl;
                same_alias = refl;
                stays = λ a. refl;
                since = λ a. ground (arith, a, waits);
              }))
      ]
    ]
  ]

  -- The model with its counts of the moment.
  abbrev pub refreshed : ℕ → Model F → ModelStore F → Model F
  refreshed id m s =
      with_counts c (add_installed c (get_installed_workers_by_model c id s) nothing_installed) m

  pub refresh_end :
      (id : ℕ) (m : Model F) (s t : ModelStore F)
      → get_model id s ≡ some m
      → refresh_model_stats c id s ≡ some t
      → t ≡ check_and_activate_model c id (set_model (refreshed id m s) s)
  unfolding refresh_model_stats
  refresh_end id m s t there e = ground (arith, e, there)

  refresh_model_stats-Keeps :
      (id : ℕ) (s t : ModelStore F) → IsFiled s → refresh_model_stats c id s ≡ some t → Keeps s t
  unfolding refresh_model_stats
  refresh_model_stats-Keeps id s t h e = elim (Option-cases (get_model id s)) [
    | inl missing ↦ let end : t ≡ s = ground (arith, e, missing) in rw end (Keeps-refl s h)
    | inr (m, there) ↦
        let n = refreshed id m s in
        let u = set_model n s in
        let later : IsLater m n = record {
          same_id = refl;
          same_alias = refl;
          stays = λ a. a;
          since = λ a. refl;
        } in
        let first = set_model-Keeps s id m n h there later in
        let end : t ≡ check_and_activate_model c id u = refresh_end id m s t there e in
        rw end (
          Keeps-trans s u (check_and_activate_model c id u) first
            (check_and_activate_model-Keeps id u first.filed))
  ]

  refresh_all-Keeps :
      (ids : List ℕ) (s t : ModelStore F) → IsFiled s → refresh_all c ids s ≡ some t → Keeps s t
  unfolding refresh_all
  refresh_all-Keeps [] s t h e = let end : t ≡ s = ground (arith, e) in rw end (Keeps-refl s h)
  refresh_all-Keeps (id ∷ ids) s t h e = elim (Option-cases (refresh_model_stats c id s)) [
    | inl crash ↦ ground (arith, e, crash)
    | inr (u, first) ↦
        let one = refresh_model_stats-Keeps id s u h first in
        Keeps-trans s u t one (refresh_all-Keeps ids u t one.filed (ground (arith, e, first)))
  ]

  -- The models alone decide whether the register is in order.
  only_installed-Keeps :
      (s : ModelStore F) (keys : List Bytes) → IsFiled s → Keeps s (record s { installed = keys })
  only_installed-Keeps s keys h = record {
    filed = h;
    advances = λ id m there. (m, there, IsLater-refl m);
  }

  pub on_worker_state_change-Keeps :
      (a : ℕ) (s t : ModelStore F) → IsFiled s → on_worker_state_change c a s ≡ some t → Keeps s t
  unfolding on_worker_state_change
  on_worker_state_change-Keeps a s t h e =
      refresh_all-Keeps (get_worker_installed_models c a s) s t h e

  pub on_worker_removed-Keeps :
      (a : ℕ) (s t : ModelStore F) → IsFiled s → on_worker_removed c a s ≡ some t → Keeps s t
  unfolding on_worker_removed
  on_worker_removed-Keeps a s t h e =
      let ids = get_worker_installed_models c a s in
      let u = record s { installed = remove_models c a ids s.installed } in
      Keeps-trans s u t (only_installed-Keeps s u.installed h) (refresh_all-Keeps ids u t h e)

  pub update_model_stats-Keeps :
      (m : MsgUpdateModelStats F) (s t : ModelStore F)
      → IsFiled s
      → update_model_stats c m s ≡ ok t
      → Keeps s t
  unfolding update_model_stats
  update_model_stats-Keeps m s t h e = elim (Option-cases (get_model m.model_id s)) [
    | inl missing ↦ ground (arith, e, missing)
    | inr (old, there) ↦
        let new = with_given old m in
        let u = set_model new s in
        let later : IsLater old new = record {
          same_id = refl;
          same_alias = refl;
          stays = λ a. a;
          since = λ a. refl;
        } in
        let first = set_model-Keeps s m.model_id old new h there later in
        let end : t ≡ check_and_activate_model c m.model_id u = ground (arith, e, there) in
        rw end (
          Keeps-trans s u (check_and_activate_model c m.model_id u) first
            (check_and_activate_model-Keeps m.model_id u first.filed))
  ]

  pub declare_installed-Keeps :
      (m : MsgDeclareInstalled) (s t : ModelStore F)
      → IsFiled s
      → declare_installed c m s ≡ ok t
      → Keeps s t
  unfolding declare_installed
  declare_installed-Keeps m s t h e = elim (Option-cases (c.decode m.creator)) [
    | inl malformed ↦ ground (arith, e, malformed)
    | inr (a, decoded) ↦
        let u = set_worker_installed_model c a m.model_id s in
        elim (Bool-cases (has_worker_installed_model c a m.model_id s)) [
          | inl again ↦
              let end : t ≡ s = ground (arith, e, decoded, again) in rw end (Keeps-refl s h)
          | inr new ↦ elim (Option-cases (refresh_model_stats c m.model_id u)) [
            | inl crash ↦ ground (arith, e, decoded, new, crash)
            | inr (v, done) ↦
                let end : t ≡ v = ground (arith, e, decoded, new, done) in
                rw end (
                  Keeps-trans s u v (only_installed-Keeps s u.installed h)
                    (refresh_model_stats-Keeps m.model_id u v h done))
          ]
        ]
  ]

  propose_end :
      (m : MsgModelProposal) (id : ℕ) (s t : ModelStore F)
      → propose_model c m s ≡ ok (id, t)
      → (get_model id s ≡ none)
        × (lookup m.alias s.aliases ≡ none)
        × (t ≡ set_alias_index m.alias id (set_model (proposed_model c m id) s))
  unfolding propose_model
  propose_end m id s t e =
      let own = compute_model_id c m.weight_hash m.quant_config_hash m.runtime_image_hash in
      elim (Option-cases (get_model own s)) [
        | inr (old, there) ↦ ground (arith, e, there)
        | inl fresh ↦ elim (Option-cases (lookup m.alias s.aliases)) [
          | inr (other, taken) ↦ ground (arith, e, fresh, taken)
          | inl free ↦
              let named : id ≡ own = ground (arith, e, fresh, free) in
              let end : t ≡ set_alias_index m.alias own (set_model (proposed_model c m own) s) =
                ground (arith, e, fresh, free) in
              (rw named fresh, free, rw named end)
        ]
      ]

  pub propose_model-Keeps :
      (m : MsgModelProposal) (id : ℕ) (s t : ModelStore F)
      → IsFiled s
      → propose_model c m s ≡ ok (id, t)
      → Keeps s t
  unfolding propose_model
  propose_model-Keeps m id s t h e =
      let new = proposed_model c m id in
      let fresh : get_model id s ≡ none = (propose_end m id s t e).0 in
      let free : lookup m.alias s.aliases ≡ none = (propose_end m id s t e).1 in
      let look = λ (j : ℕ). lookup-insert j id new s.models in
      let reach = λ (a : ℕ). lookup-insert a m.alias id s.aliases in
      rw (propose_end m id s t e).2 (record {
        filed = λ j x found. elim (Bool-cases (j == id)) [
          | inl here ↦
              let same : x ≡ new = ground (arith, look j, found, here) in
              let at : id ≡ j = ground (arith, here) in
              let own : lookup m.alias (insert m.alias id s.aliases) ≡ some id =
                lookup-insert_self m.alias id s.aliases in
              rw same (at, own ∙ ap some at)
          | inr away ↦
              let old = h j x (ground (arith, look j, found, away)) in
              (old.0, ground (arith, old.1, reach x.alias, free))
        ];
        advances = λ j x found.
            let away : (j == id) ≡ false = ground (arith, found, fresh) in
            (x, ground (arith, look j, found, away), IsLater-refl x);
      })
