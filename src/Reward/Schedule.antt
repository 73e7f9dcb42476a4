-- ===== src/Reward/Schedule.antt =====
-- x/reward/keeper/keeper.go: the reward of a block and of an epoch.
use funai_chain.Base.{ℕ, zero, suc, ◌+◌, ◌-◌, ◌/◌, leb, ltb, if◌then◌else◌}
use funai_chain.Reward.Types.{RewardParams}

-- `for i := 0; i < n; i++ { reward = reward / 2 }`.
abbrev pub halved : ℕ → ℕ → ℕ
halved zero reward = reward
halved (suc n) reward = halved n (reward / 2)

module _ {D : Type 0} (params : RewardParams D) where
  unfoldable pub calculate_block_reward : ℕ → ℕ
  calculate_block_reward height =
      let halvings = height / params.halving_period in
      if leb 64 halvings then 0 else halved halvings params.base_block_reward

  -- The heights from `start` on, so many of them.
  unfoldable pub reward_from : ℕ → ℕ → ℕ
  unfolding calculate_block_reward
  reward_from start zero = 0
  reward_from start (suc n) = calculate_block_reward start + reward_from (start + 1) n

  unfoldable pub calculate_epoch_reward : ℕ → ℕ
  unfolding reward_from
  calculate_epoch_reward last =
      let first = last + 1 - params.epoch_blocks in
      let start = if ltb first 1 then 1 else first in reward_from start (last + 1 - start)
