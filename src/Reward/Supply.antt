-- ===== src/Reward/Supply.antt =====
-- x/reward/keeper/keeper.go: whatever the epochs, the rewards of all of them stay within the supply.
use funai_chain.Base.{
  ℕ, zero, suc, ◌+◌, ◌-◌, ◌*◌, ◌/◌, ◌≤◌, ◌<◌, ◌≡◌, arith, refl, leb, ltb, if◌then◌else◌, false,
}
use native.Mathlib.Nat.{mul-le-mul_left, mul-add-div, div-eq_of_lt}
use funai_chain.Reward.Types.{RewardParams}
use funai_chain.Reward.Schedule.{
  halved, calculate_block_reward, reward_from, calculate_epoch_reward,
}

halved-suc : (n reward : ℕ) → halved (suc n) reward ≡ halved n reward / 2
halved-suc zero reward = refl
halved-suc (suc n) reward = halved-suc n (reward / 2)

module _ {D : Type 0} (params : RewardParams D) where
  -- What the ends of the first epochs give out together.
  abbrev pub emitted : ℕ → ℕ
  emitted zero = 0
  emitted (suc n) =
      emitted n + calculate_epoch_reward params (n * params.epoch_blocks + params.epoch_blocks)

module _ {D : Type 0} (params : RewardParams D) (period_pos : 0 < params.halving_period) where
  -- The reward of each block after so many halvings.
  abbrev rate : ℕ → ℕ
  rate q = if leb 64 q then 0 else halved q params.base_block_reward

  rate-suc : (q : ℕ) → 2 * rate (suc q) ≤ rate q
  rate-suc q = ground (arith, halved-suc q params.base_block_reward)

  calculate_block_reward-rate :
      (q s : ℕ)
      → s < params.halving_period
      → calculate_block_reward params (params.halving_period * q + s) ≡ rate q
  unfolding calculate_block_reward
  calculate_block_reward-rate q s h =
      let quotient : (params.halving_period * q + s) / params.halving_period ≡ q =
        omega (arith, mul-add-div period_pos q s, div-eq_of_lt h) in
      rw quotient refl

  -- With `k` blocks to go before the next halving.
  reward_from-le :
      (n q s k : ℕ)
      → s + suc k ≡ params.halving_period
      → reward_from params (params.halving_period * q + s) n
        ≤ suc k * rate q + params.halving_period * rate q
  unfolding reward_from
  reward_from-le zero q s k h = omega arith
  reward_from-le (suc n) q s zero h =
      let period = params.halving_period in
      let at : period * q + s + 1 ≡ period * suc q + 0 = grind arith in
      let whole : suc (period - 1) ≡ period = omega arith in
      let first = calculate_block_reward-rate q s (omega arith) in
      let rest : reward_from params (period * suc q + 0) n
          ≤ period * rate (suc q) + period * rate (suc q) =
        rw whole at (reward_from-le n (suc q) 0 (period - 1) (omega arith)) in
      let double : period * (2 * rate (suc q)) ≤ period * rate q =
        mul-le-mul_left period (rate-suc q) in
      rw (first, at) (grind arith)
  reward_from-le (suc n) q s (suc k) h =
      let period = params.halving_period in
      let at : period * q + s + 1 ≡ period * q + (s + 1) = omega arith in
      let first = calculate_block_reward-rate q s (omega arith) in
      let rest = reward_from-le n q (s + 1) k (omega arith) in rw (first, at) (grind arith)

  reward_from-append :
      (start n m : ℕ)
      → reward_from params start (n + m)
        ≡ reward_from params start n + reward_from params (start + n) m
  unfolding reward_from
  reward_from-append start zero m =
      let none_yet : 0 + m ≡ m = omega arith in
      let here : start + 0 ≡ start = omega arith in rw (none_yet, here) (omega arith)
  reward_from-append start (suc n) m =
      let more : suc n + m ≡ suc (n + m) = omega arith in
      let there : start + suc n ≡ start + 1 + n = omega arith in
      rw (more, there) (omega (arith, reward_from-append (start + 1) n m))

  emitted-reward_from :
      (n : ℕ)
      → 0 < params.epoch_blocks
      → emitted params n ≡ reward_from params 1 (n * params.epoch_blocks)
  unfolding calculate_epoch_reward
  emitted-reward_from zero h =
      let none_yet : 0 * params.epoch_blocks ≡ 0 = omega arith in rw none_yet refl
  emitted-reward_from (suc n) h =
      let blocks = params.epoch_blocks in
      let done = n * blocks in
      let later : ltb (done + blocks + 1 - blocks) 1 ≡ false = ground arith in
      let first : done + blocks + 1 - blocks ≡ 1 + done = omega arith in
      let count : done + blocks + 1 - (1 + done) ≡ blocks = omega arith in
      let all : suc n * blocks ≡ done + blocks = grind arith in
      rw (later, first, count, all)
        (omega (arith, emitted-reward_from n h, reward_from-append 1 done blocks))

  -- The epochs give out at most twice the base reward of a halving period together, however many
  -- they are; so with parameters like the default ones, never more than the total supply.
  pub emitted-le-supply :
      (n : ℕ)
      → 0 < params.epoch_blocks
      → 2 * (params.halving_period * params.base_block_reward) ≤ params.total_supply
      → emitted params n ≤ params.total_supply
  unfolding reward_from
  emitted-le-supply n h enough =
      let period = params.halving_period in
      let blocks = n * params.epoch_blocks in
      let whole : suc (period - 1) ≡ period = omega arith in
      let start : period * 0 + 0 ≡ 0 = omega arith in
      let all : reward_from params 0 (suc blocks)
          ≤ period * params.base_block_reward + period * params.base_block_reward =
        rw whole at (rw start at (reward_from-le (suc blocks) 0 0 (period - 1) (omega arith))) in
      omega (arith, emitted-reward_from n h)
