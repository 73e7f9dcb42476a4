-- ===== src/Reward/Exact.antt =====
-- x/reward/keeper/keeper.go: an epoch without contributions mints exactly its reward. The decimals'
-- rounding and the bank's supply are laws.
use funai_chain.Base.{
  ℕ, ◌+◌, ◌-◌, ◌*◌, ◌/◌, ◌^◌, ◌≤◌, ◌<◌, ◌≡◌, ◌==◌, true, some, List, [], ◌∷◌, map, length, arith,
  refl, if◌then◌else◌, Bool-cases, Option-cases, inl, inr,
}
use funai_chain.Base.Result.{ok, >>=-eq-ok}
use funai_chain.Reward.Types.{ConsensusSignerInfo, OnlineWorkerStake, VerificationContribution}
use funai_chain.Reward.Schedule.{calculate_epoch_reward}
use funai_chain.Reward.Payment.{
  RewardContext, RewardState, Share, sum_by, sum_u64, mint_and_send, pay_share, pay_shares,
  get_reward_params,
}
use funai_chain.Reward.Pools.{
  part, ratio_int, ratio_count, distribute_by_stake, distribute_by_consensus_signing,
  distribute_rewards,
}
use funai_chain.Reward.Rounding.{unit, IsRounded, shares_fit}

-- What is minted is added to the supply, and a payment leaves it.
pub record IsMint {D S : Type 0} (c : RewardContext D S) (supply : S → ℕ) : Type 0 where
  pub minted : (o : S) (n : ℕ) (o' : S) → c.mint o n ≡ some o' → supply o' ≡ supply o + n
  pub sent : (o : S) (a n : ℕ) (o' : S) → c.send o a n ≡ some o' → supply o' ≡ supply o

module _ {D S : Type 0} (c : RewardContext D S) (supply : S → ℕ) (laws : IsMint c supply) where
  pay_share_minted :
      (epoch address n : ℕ) (s t : RewardState D S)
      → pay_share c epoch address n s ≡ ok t
      → supply t.outer ≡ supply s.outer + n
  unfolding pay_share mint_and_send
  pay_share_minted epoch address n s t h = elim (Option-cases (c.mint s.outer n)) [
    | inl refused ↦ ground (arith, refused, h)
    | inr (o, minted) ↦ elim (Option-cases (c.decode address)) [
      | inl malformed ↦ ground (arith, minted, malformed, h)
      | inr (a, known) ↦ elim (Option-cases (c.send o a n)) [
        | inl stuck ↦ ground (arith, minted, known, stuck, h)
        | inr (o', paid) ↦
            ground (
              arith,
              minted,
              known,
              paid,
              h,
              laws.minted s.outer n o minted,
              laws.sent o a n o' paid,
            )
      ]
    ]
  ]

  -- The shares of a list that is not empty, when they fit, mint what the reward has left.
  pay_shares_minted :
      (epoch reward distributed : ℕ) (x : Share) (xs : List Share) (s t : RewardState D S)
      → distributed + sum_by (λ y. y.alloc) (x ∷ xs) ≤ reward
      → pay_shares c epoch reward distributed (x ∷ xs) s ≡ ok t
      → supply t.outer ≡ supply s.outer + (reward - distributed)
  unfolding pay_shares
  pay_shares_minted epoch reward distributed x [] s t fits h =
      pay_share_minted epoch x.address (reward - distributed) s t h
  pay_shares_minted epoch reward distributed x (y ∷ rest) s t fits h =
      let (u, first, next) =
        >>=-eq-ok (pay_share c epoch x.address x.alloc s)
          (λ v. pay_shares c epoch reward (distributed + x.alloc) (y ∷ rest) v) h in
      omega (
        arith,
        pay_share_minted epoch x.address x.alloc s u first,
        pay_shares_minted epoch reward (distributed + x.alloc) y rest u t (omega arith) next,
      )

  sum_by-map :
      {A : Type 0} (share : A → Share) (xs : List A)
      → sum_by (λ y. y.alloc) (map share xs) ≡ sum_by (λ x. (share x).alloc) xs
  sum_by-map share [] = refl
  sum_by-map share (x ∷ xs) = omega (arith, sum_by-map share xs)

  -- A loop over shares that are rounded parts of the reward mints it exactly.
  shared_out :
      {A : Type 0} (weight : A → ℕ) (share : A → Share) (epoch total reward : ℕ) (xs : List A)
      (s t : RewardState D S)
      → 0 < total
      → sum_by weight xs ≡ total
      → ((x : A)
          → weight x ≤ total
          → (share x).alloc * (total * unit) ≤ reward * (weight x * unit + total))
      → length xs * reward < unit
      → pay_shares c epoch reward 0 (map share xs) s ≡ ok t
      → supply t.outer ≡ supply s.outer + reward
  shared_out weight share epoch total reward [] s t pos all law few h = absurd (omega arith)
  shared_out weight share epoch total reward (x ∷ xs) s t pos all law few h =
      let fits = shares_fit weight (λ y. (share y).alloc) total reward (x ∷ xs) pos all law few in
      omega (
        arith,
        pay_shares_minted epoch reward 0 (share x) (map share xs) s t
            (omega (arith, sum_by-map share xs)) h,
      )

  distribute_by_stake_exact :
      (epoch reward : ℕ) (xs : List OnlineWorkerStake) (s t : RewardState D S)
      → IsRounded c.dec
      → length xs * reward < unit
      → distribute_by_stake c epoch reward xs s ≡ ok t
      → supply t.outer ≡ supply s.outer + (if sum_by (λ x. x.stake) xs == 0 then 0 else reward)
  unfolding distribute_by_stake
  distribute_by_stake_exact epoch reward xs s t rounded few h =
      let total = sum_by (λ (x : OnlineWorkerStake). x.stake) xs in
      let share : OnlineWorkerStake → Share = λ x. record {
        address = x.worker_address;
        alloc = part c (ratio_int c x.stake total) reward;
      } in
      elim (Bool-cases (total == 0)) [
        | inl none_staked ↦
            let end : t ≡ s = ground (arith, none_staked, h) in rw (none_staked, end) (omega arith)
        | inr staked ↦ rw staked (
            shared_out (λ x. x.stake) share epoch total reward xs s t (ground arith) refl
              (λ x le. rounded.int_ratio x.stake total reward (ground arith)) few
              (ground (arith, staked, h)))
      ]

  distribute_by_consensus_signing_exact :
      (epoch reward : ℕ) (xs : List ConsensusSignerInfo) (s t : RewardState D S)
      → IsRounded c.dec
      → sum_by (λ x. x.blocks_signed) xs < 2 ^ 63
      → length xs * reward < unit
      → distribute_by_consensus_signing c epoch reward xs s ≡ ok t
      → supply t.outer
        ≡ supply s.outer + (if sum_by (λ x. x.blocks_signed) xs == 0 then 0 else reward)
  unfolding distribute_by_consensus_signing
  distribute_by_consensus_signing_exact epoch reward xs s t rounded small few h =
      let exact = sum_by (λ (x : ConsensusSignerInfo). x.blocks_signed) xs in
      let total = sum_u64 (λ (x : ConsensusSignerInfo). x.blocks_signed) xs in
      let same : exact ≡ total = omega arith in
      let share : ConsensusSignerInfo → Share = λ x. record {
        address = x.validator_address;
        alloc = part c (ratio_count c x.blocks_signed total) reward;
      } in
      elim (Bool-cases (total == 0)) [
        | inl none_signed ↦
            let end : t ≡ s = ground (arith, none_signed, h) in
            rw (same, none_signed, end) (omega arith)
        | inr signed ↦
            rw (same, signed)
              (shared_out (λ x. x.blocks_signed) share epoch total reward xs s t (ground arith) same
                (λ x le.
                  rounded.count_ratio x.blocks_signed total reward (ground arith) (omega arith)
                    (omega arith))
                few (ground (arith, signed, h)))
      ]

  -- Who is paid in an epoch without contributions: the signers, or else the online workers.
  abbrev pub paid_weight : List ConsensusSignerInfo → List OnlineWorkerStake → ℕ
  paid_weight [] workers = sum_by (λ x. x.stake) workers
  paid_weight (x ∷ signers) workers = sum_by (λ y. y.blocks_signed) (x ∷ signers)

  -- The supply has grown by the epoch's reward, if there is a weight to pay by.
  abbrev pub IsPaidOut :
      List ConsensusSignerInfo → List OnlineWorkerStake → RewardState D S → RewardState D S → Type 0
  IsPaidOut signers workers s t =
      supply t.outer
      ≡ supply s.outer
        + (if paid_weight signers workers == 0
            then 0
            else calculate_epoch_reward (get_reward_params c s) c.height)

  unrewarded :
      (verifs : List VerificationContribution) (signers : List ConsensusSignerInfo)
      (workers : List OnlineWorkerStake) (s t : RewardState D S)
      → (calculate_epoch_reward (get_reward_params c s) c.height == 0) ≡ true
      → distribute_rewards c [] verifs signers workers s ≡ ok t
      → IsPaidOut signers workers s t
  unfolding distribute_rewards
  unrewarded verifs signers workers s t nothing h =
      let end : t ≡ s = ground (arith, nothing, h) in rw end (ground arith)

  -- Under the rounding of the decimals and with a bank whose supply grows by what is minted: where no
  -- task was done in an epoch and its distribution succeeds, the supply has grown by exactly the
  -- epoch's reward, or by nothing if no recipient has signed a block or holds a stake. The
  -- recipients times the reward stay below 2 * 10^18, and the signed blocks below 2^63.
  pub empty_epoch_exact :
      (verifs : List VerificationContribution) (signers : List ConsensusSignerInfo)
      (workers : List OnlineWorkerStake) (s t : RewardState D S)
      → IsRounded c.dec
      → sum_by (λ x. x.blocks_signed) signers < 2 ^ 63
      → length signers * calculate_epoch_reward (get_reward_params c s) c.height < unit
      → length workers * calculate_epoch_reward (get_reward_params c s) c.height < unit
      → distribute_rewards c [] verifs signers workers s ≡ ok t
      → IsPaidOut signers workers s t
  unfolding distribute_rewards
  empty_epoch_exact verifs [] [] s t rounded small few_signers few_workers h =
      let reward = calculate_epoch_reward (get_reward_params c s) c.height in
      elim (Bool-cases (reward == 0)) [
        | inl nothing ↦ unrewarded verifs [] [] s t nothing h
        | inr something ↦ let end : t ≡ s = ground (arith, something, h) in rw end (omega arith)
      ]
  empty_epoch_exact verifs [] (w ∷ workers) s t rounded small few_signers few_workers h =
      let reward = calculate_epoch_reward (get_reward_params c s) c.height in
      elim (Bool-cases (reward == 0)) [
        | inl nothing ↦ unrewarded verifs [] (w ∷ workers) s t nothing h
        | inr something ↦
            distribute_by_stake_exact ((c.height - 1) / (get_reward_params c s).epoch_blocks + 1)
              reward (w ∷ workers) s t rounded few_workers (ground (arith, something, h))
      ]
  empty_epoch_exact verifs (x ∷ signers) workers s t rounded small few_signers few_workers h =
      let reward = calculate_epoch_reward (get_reward_params c s) c.height in
      elim (Bool-cases (reward == 0)) [
        | inl nothing ↦ unrewarded verifs (x ∷ signers) workers s t nothing h
        | inr something ↦
            distribute_by_consensus_signing_exact
              ((c.height - 1) / (get_reward_params c s).epoch_blocks + 1) reward (x ∷ signers) s t
              rounded small few_signers (ground (arith, something, h))
      ]
