-- ===== src/Reward/Types.antt =====
-- x/reward/types: the parameters and what an epoch's distribution is computed from. Amounts are of the
-- one denomination.
use funai_chain.Base.{ℕ, ◌==◌, ◌&&◌, ◌||◌, not, Bool}

-- The fixed-point decimals of the SDK. `of_uint64` takes a count through int64, and `truncate` is 0
-- where the integer part is not positive, which the code treats alike.
pub record Decimals (D : Type 0) : Type 0 where
  pub zero_dec : D
  pub one_dec : D
  pub with_prec : ℕ → ℕ → D
  pub of_int : ℕ → D
  pub of_uint64 : ℕ → D
  pub plus : D → D → D
  pub times : D → D → D
  pub times_int : D → ℕ → D
  pub quo : D → D → D
  pub truncate : D → ℕ
  pub is_negative : D → Bool
  pub exceeds : D → D → Bool
  pub equals : D → D → Bool

pub record RewardParams (D : Type 0) : Type 0 where
  pub base_block_reward : ℕ
  pub halving_period : ℕ
  pub fee_weight : D
  pub count_weight : D
  pub epoch_blocks : ℕ
  pub total_supply : ℕ
  pub inference_weight : D
  pub verification_weight : D
  pub multi_verification_fund_weight : D

module _ {D : Type 0} (dec : Decimals D) where
  abbrev pub default_reward_params : RewardParams D
  default_reward_params = record {
    base_block_reward = 4000000000;
    halving_period = 26250000;
    fee_weight = dec.with_prec 85 2;
    count_weight = dec.with_prec 15 2;
    epoch_blocks = 100;
    total_supply = 210000000000000000;
    inference_weight = dec.with_prec 85 2;
    verification_weight = dec.with_prec 12 2;
    multi_verification_fund_weight = dec.with_prec 3 2;
  }

  abbrev pub is_weight : D → Bool
  is_weight w = not (dec.is_negative w || dec.exceeds w dec.one_dec)

  -- `Params.Validate`: true when it returns no error. The integers are natural numbers here.
  unfoldable pub validate_reward_params : RewardParams D → Bool
  validate_reward_params p =
      not (p.halving_period == 0)
      && is_weight p.fee_weight
      && is_weight p.count_weight
      && not (p.epoch_blocks == 0)
      && is_weight p.inference_weight
      && is_weight p.verification_weight
      && is_weight p.multi_verification_fund_weight
      && dec.equals
          (dec.plus (dec.plus p.inference_weight p.verification_weight)
            p.multi_verification_fund_weight)
          dec.one_dec
      && dec.equals (dec.plus p.fee_weight p.count_weight) dec.one_dec

pub record WorkerContribution : Type 0 where
  pub worker_address : ℕ
  pub fee_amount : ℕ
  pub task_count : ℕ

-- A fee that is absent is 0: the code treats both alike.
pub record VerificationContribution : Type 0 where
  pub worker_address : ℕ
  pub verification_count : ℕ
  pub audit_count : ℕ
  pub fee_amount : ℕ

pub record ConsensusSignerInfo : Type 0 where
  pub validator_address : ℕ
  pub blocks_signed : ℕ

pub record OnlineWorkerStake : Type 0 where
  pub worker_address : ℕ
  pub stake : ℕ

pub record RewardRecord : Type 0 where
  pub epoch : ℕ
  pub worker_address : ℕ
  pub amount : ℕ
