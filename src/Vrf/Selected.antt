-- ===== src/Vrf/Selected.antt =====
-- x/vrf/keeper/keeper.go: what the selections for a task promise.
use funai_chain.Base.{ℕ, ◌≡◌, ◌≢◌, ◌≤◌, false, ◌==◌, List, All, length, arith, All}
use funai_chain.Base.Result.{ok}
use funai_chain.Vrf.Lists.{HasDistinct, All-map}
use funai_chain.Vrf.Types.{Bytes, alpha_verification, alpha_second_third_verification}
use funai_chain.Vrf.Keeper.{VrfStore, VrfContext}
use funai_chain.Vrf.Select.{
  has, get_online_workers, candidates, task_seed, block_hash, select_verifiers_for_task,
  select_second_verifiers_for_task,
}
use funai_chain.Vrf.Online.{IsFiled, IsServing}
use funai_chain.Vrf.Drawn.{quota, draw-IsServing}

module _ {F G : Type 0} (c : VrfContext F G) where
  -- Where every status is stored once, under its own address, the verifiers that are selected for
  -- a task are idle workers with a key that are online for the model, and not its executor. None
  -- is named twice, and there are as many as asked for, or else all those that qualify.
  pub select_verifiers_for_task-IsServing :
      (task : ℕ) (result_hash : Bytes) (model executor count : ℕ) (s : VrfStore) (r : List ℕ)
      → IsFiled s.statuses
      → select_verifiers_for_task c task result_hash model executor count s ≡ ok r
      → All (λ a. IsServing model s.statuses a × (a ≢ executor)) r
        × HasDistinct (λ a. a) r
        × (1 ≤ length r)
        × (length r
            ≡ quota c count
                (length (candidates c (λ a. a == executor) (get_online_workers model s))))
  unfolding select_verifiers_for_task
  select_verifiers_for_task-IsServing task result_hash model executor count s r filed e =
      let got =
        draw-IsServing c (task_seed c task result_hash) alpha_verification (λ a. a == executor)
          count model s r filed e in
      (All-map _ _ r (λ a at. (at.0, ground (arith, at.1))) got.0, got.1, got.2, got.3)

  -- The same of the verifiers of the second round, who are none of the addresses left out.
  pub select_second_verifiers_for_task-IsServing :
      (task model count : ℕ) (excluded : List ℕ) (s : VrfStore) (r : List ℕ)
      → IsFiled s.statuses
      → select_second_verifiers_for_task c task model excluded count s ≡ ok r
      → All (λ a. IsServing model s.statuses a × (has a excluded ≡ false)) r
        × HasDistinct (λ a. a) r
        × (1 ≤ length r)
        × (length r
            ≡ quota c count
                (length (candidates c (λ a. has a excluded) (get_online_workers model s))))
  unfolding select_second_verifiers_for_task
  select_second_verifiers_for_task-IsServing task model count excluded s r filed e =
      draw-IsServing c (task_seed c task (block_hash c s)) alpha_second_third_verification
        (λ a. has a excluded) count model s r filed e
