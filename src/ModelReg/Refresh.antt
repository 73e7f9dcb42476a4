-- ===== src/ModelReg/Refresh.antt =====
-- x/modelreg/keeper/keeper.go, RefreshModelStats: what a refresh writes.
use funai_chain.Base.{
  Bool, true, false, not, ◌&&◌, ℕ, ◌≡◌, ◌+◌, ◌||◌, ◌==◌, if◌then◌else◌, List, [], ◌∷◌,
}
use funai_chain.ModelReg.Types.{Model, is_model_active}
use funai_chain.ModelReg.Keeper.{
  ModelStore, ModelContext, meets_thresholds, activated, get_model_params, has_operator,
}

module _ {F : Type 0} (c : ModelContext F) where
  -- The active ones among the addresses, each as often as it stands there, and their stakes.
  abbrev pub serving : List ℕ → ℕ
  serving [] = 0
  serving (a ∷ addrs) = let rest = serving addrs in if c.is_worker_active a then rest + 1 else rest

  abbrev pub serving_stake : List ℕ → ℕ
  serving_stake [] = 0
  serving_stake (a ∷ addrs) =
      let rest = serving_stake addrs in
      if c.is_worker_active a then c.worker_stake a + rest else rest

  -- Whether an active one among the addresses belongs to the operator.
  abbrev pub runs : ℕ → List ℕ → Bool
  runs o [] = false
  runs o (a ∷ addrs) = (c.is_worker_active a && o == c.operator_id a) || runs o addrs

  abbrev pub is_distinct : List ℕ → Bool
  is_distinct [] = true
  is_distinct (o ∷ os) = not (has_operator o os) && is_distinct os

  -- The operators behind the active ones among the addresses: each once, without the empty name, and
  -- no other.
  abbrev pub HasOperators : List ℕ → List ℕ → Type 0
  HasOperators addrs os =
      (is_distinct os ≡ true) × ((o : ℕ) → has_operator o os ≡ (not (o == 0) && runs o addrs))

  abbrev settled : Model F → ModelStore F → Model F
  settled n s =
      if is_model_active n.status
      then n
      else if meets_thresholds c n (get_model_params c s)
      then activated c n
      else n
