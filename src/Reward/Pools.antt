-- ===== src/Reward/Pools.antt =====
-- x/reward/keeper/keeper.go: the distribution of an epoch's reward.
use funai_chain.Base.{
  ℕ, ◌+◌, ◌-◌, ◌/◌, ◌%◌, ◌==◌, not, Bool, true, false, if◌then◌else◌, List, [], ◌∷◌, map, u64,
}
use funai_chain.Base.Result.{Result, ok, ◌>>=◌}
use funai_chain.Reward.Types.{
  RewardParams, WorkerContribution, VerificationContribution, ConsensusSignerInfo,
  OnlineWorkerStake,
}
use funai_chain.Reward.Schedule.{calculate_epoch_reward}
use funai_chain.Reward.Payment.{
  RewardError, RewardState, RewardContext, Share, sum_by, sum_u64, get_reward_params, pay_shares,
  fill_fund,
}

module _ {D S : Type 0} (c : RewardContext D S) where
  abbrev pub part : D → ℕ → ℕ
  part weight reward = c.dec.truncate (c.dec.times_int weight reward)

  abbrev pub ratio_int : ℕ → ℕ → D
  ratio_int a b = c.dec.quo (c.dec.of_int a) (c.dec.of_int b)

  abbrev pub ratio_count : ℕ → ℕ → D
  ratio_count a b = c.dec.quo (c.dec.of_uint64 a) (c.dec.of_uint64 b)

  -- The weight by fees and by counts, each where its sum is positive.
  abbrev pub add_fee : RewardParams D → ℕ → ℕ → D → D
  add_fee params fee fees weight =
      if fees == 0
      then weight
      else c.dec.plus weight (c.dec.times params.fee_weight (ratio_int fee fees))

  abbrev pub add_count : RewardParams D → ℕ → ℕ → D → D
  add_count params count counts weight =
      if counts == 0
      then weight
      else c.dec.plus weight (c.dec.times params.count_weight (ratio_count count counts))

  unfoldable pub distribute_by_contribution :
      ℕ
      → ℕ
      → List WorkerContribution
      → RewardParams D
      → RewardState D S
      → Result RewardError (RewardState D S)
  unfolding pay_shares
  distribute_by_contribution epoch reward xs params s =
      let fees = sum_by (λ x. x.fee_amount) xs in
      let counts = sum_u64 (λ x. x.task_count) xs in
      let weight : WorkerContribution → D = λ x.
        add_count params x.task_count counts (add_fee params x.fee_amount fees c.dec.zero_dec) in
      let share : WorkerContribution → Share =
        λ x. record { address = x.worker_address; alloc = part (weight x) reward } in
      pay_shares c epoch reward 0 (map share xs) s

  abbrev pub count_of : VerificationContribution → ℕ
  count_of x = u64 (x.verification_count + x.audit_count)

  -- Without fees, by the counts alone.
  unfoldable pub distribute_by_verification :
      ℕ
      → ℕ
      → List VerificationContribution
      → RewardParams D
      → RewardState D S
      → Result RewardError (RewardState D S)
  unfolding pay_shares
  distribute_by_verification epoch reward xs params s =
      let fees = sum_by (λ x. x.fee_amount) xs in
      let counts = sum_u64 count_of xs in
      let weight : VerificationContribution → D = λ x.
        if fees == 0
        then ratio_count (count_of x) counts
        else add_count params (count_of x) counts (
            if x.fee_amount == 0
            then c.dec.zero_dec
            else add_fee params x.fee_amount fees c.dec.zero_dec) in
      let share : VerificationContribution → Share =
        λ x. record { address = x.worker_address; alloc = part (weight x) reward } in
      if counts == 0 then ok s else pay_shares c epoch reward 0 (map share xs) s

  unfoldable pub distribute_by_consensus_signing :
      ℕ → ℕ → List ConsensusSignerInfo → RewardState D S → Result RewardError (RewardState D S)
  unfolding pay_shares
  distribute_by_consensus_signing epoch reward xs s =
      let signed = sum_u64 (λ x. x.blocks_signed) xs in
      let share : ConsensusSignerInfo → Share = λ x. record {
        address = x.validator_address;
        alloc = part (ratio_count x.blocks_signed signed) reward;
      } in
      if signed == 0 then ok s else pay_shares c epoch reward 0 (map share xs) s

  unfoldable pub distribute_by_stake :
      ℕ → ℕ → List OnlineWorkerStake → RewardState D S → Result RewardError (RewardState D S)
  unfolding pay_shares
  distribute_by_stake epoch reward xs s =
      let staked = sum_by (λ x. x.stake) xs in
      let share : OnlineWorkerStake → Share = λ x. record {
        address = x.worker_address;
        alloc = part (ratio_int x.stake staked) reward;
      } in
      if staked == 0 then ok s else pay_shares c epoch reward 0 (map share xs) s

  abbrev pub is_nil : {A : Type 0} → List A → Bool
  is_nil [] = true
  is_nil (x ∷ xs) = false

  unfoldable pub distribute_pools :
      ℕ
      → ℕ
      → List WorkerContribution
      → List VerificationContribution
      → RewardState D S
      → Result RewardError (RewardState D S)
  unfolding distribute_by_contribution distribute_by_verification fill_fund
  distribute_pools epoch reward contribs verifs s =
      let params = get_reward_params c s in
      let inference = part params.inference_weight reward in
      let verifier = part params.verification_weight reward in
      do
        t ← distribute_by_contribution epoch inference contribs params s
        u ←
            (if verifier == 0
              then ok t
              else if is_nil verifs
              then ok t
              else distribute_by_verification epoch verifier verifs params t)
        fill_fund c (reward - inference - verifier) u

  unfoldable pub distribute_rewards :
      List WorkerContribution
      → List VerificationContribution
      → List ConsensusSignerInfo
      → List OnlineWorkerStake
      → RewardState D S
      → Result RewardError (RewardState D S)
  unfolding distribute_pools distribute_by_consensus_signing distribute_by_stake
      calculate_epoch_reward
  distribute_rewards contribs verifs signers workers s =
      let params = get_reward_params c s in
      let epoch = (c.height - 1) / params.epoch_blocks + 1 in
      let reward = calculate_epoch_reward params c.height in
      if reward == 0
      then ok s
      else if not (is_nil contribs)
      then distribute_pools epoch reward contribs verifs s
      else if not (is_nil signers)
      then distribute_by_consensus_signing epoch reward signers s
      else if not (is_nil workers)
      then distribute_by_stake epoch reward workers s
      else ok s

  unfoldable pub reward_end_block :
      List WorkerContribution
      → List VerificationContribution
      → List ConsensusSignerInfo
      → List OnlineWorkerStake
      → RewardState D S
      → Result RewardError (RewardState D S)
  unfolding distribute_rewards
  reward_end_block contribs verifs signers workers s =
      if c.height % (get_reward_params c s).epoch_blocks == 0
      then distribute_rewards contribs verifs signers workers s
      else ok s
