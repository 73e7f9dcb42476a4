-- ===== src/Settlement/Params.antt =====
-- x/settlement/types/params.go: the parameters of the settlement module, their defaults and
-- `Params.Validate`. Ratios and rates are per mille. An int64 is taken as a natural number, so
-- `<= 0` is a test for 0; the uint32 sum of the fee ratios wraps.
use funai_chain.Base.{ℕ, ◌+◌, ◌≤◌, ◌<◌, ◌≡◌, arith, Bool, true, false, not, ◌&&◌, leb, ◌==◌, u32}

pub record Params : Type 0 where
  pub signature_expire_max : ℕ
  pub executor_fee_ratio : ℕ
  pub verifier_fee_ratio : ℕ
  pub multi_verification_fund_ratio : ℕ
  pub fail_settlement_fee_ratio : ℕ
  pub second_verifier_count : ℕ
  pub second_verification_match_threshold : ℕ
  pub task_cleanup_buffer : ℕ
  pub logits_sample_positions : ℕ
  pub logits_match_required : ℕ
  pub second_verification_base_rate : ℕ
  pub second_verification_rate_min : ℕ
  pub second_verification_rate_max : ℕ
  pub second_verification_timeout : ℕ
  pub third_verification_base_rate : ℕ
  pub third_verification_rate_min : ℕ
  pub third_verification_rate_max : ℕ
  pub third_verification_timeout : ℕ
  pub token_count_tolerance : ℕ
  pub dishonest_jail_threshold : ℕ
  pub per_token_billing_enabled : Bool
  pub token_count_tolerance_pct : ℕ
  pub token_mismatch_second_verification_weight : ℕ
  pub token_mismatch_lookback : ℕ
  pub token_mismatch_deviation_pct : ℕ
  pub token_mismatch_pair_min_samples : ℕ
  pub fraud_window_blocks : ℕ

abbrev pub default_params : Params
default_params = record {
  signature_expire_max = 17280;
  executor_fee_ratio = 850;
  verifier_fee_ratio = 120;
  multi_verification_fund_ratio = 30;
  fail_settlement_fee_ratio = 150;
  second_verifier_count = 3;
  second_verification_match_threshold = 2;
  task_cleanup_buffer = 1000;
  logits_sample_positions = 5;
  logits_match_required = 4;
  second_verification_base_rate = 100;
  second_verification_rate_min = 50;
  second_verification_rate_max = 300;
  second_verification_timeout = 8640;
  third_verification_base_rate = 10;
  third_verification_rate_min = 5;
  third_verification_rate_max = 50;
  third_verification_timeout = 17280;
  token_count_tolerance = 2;
  dishonest_jail_threshold = 3;
  per_token_billing_enabled = false;
  token_count_tolerance_pct = 2;
  token_mismatch_second_verification_weight = 20;
  token_mismatch_lookback = 100;
  token_mismatch_deviation_pct = 20;
  token_mismatch_pair_min_samples = 5;
  fraud_window_blocks = 17280;
}

-- `Params.Validate`: true when it returns no error.
unfoldable pub validate : Params → Bool
validate p =
    not (p.signature_expire_max == 0)
    && not (p.executor_fee_ratio == 0)
    && not (p.verifier_fee_ratio == 0)
    && not (p.multi_verification_fund_ratio == 0)
    && u32 (p.executor_fee_ratio + p.verifier_fee_ratio + p.multi_verification_fund_ratio) == 1000
    && not (p.fail_settlement_fee_ratio == 0)
    && leb p.fail_settlement_fee_ratio 1000
    && not (p.second_verifier_count == 0)
    && not (p.second_verification_match_threshold == 0)
    && leb p.second_verification_match_threshold p.second_verifier_count
    && not (p.logits_sample_positions == 0)
    && not (p.logits_match_required == 0)
    && leb p.logits_match_required p.logits_sample_positions
    && not (p.second_verification_base_rate == 0)
    && leb p.second_verification_base_rate 1000
    && leb p.second_verification_rate_min p.second_verification_rate_max
    && not (p.second_verification_timeout == 0)
    && leb p.third_verification_base_rate 1000
    && leb p.third_verification_rate_min p.third_verification_rate_max
    && not (p.third_verification_timeout == 0)
    && not (p.dishonest_jail_threshold == 0)
    && not (p.fraud_window_blocks == 0)

-- Fee ratios that leave the executor a share.
abbrev pub HasRatios : Params → Type 0
HasRatios params = params.verifier_fee_ratio + params.multi_verification_fund_ratio ≤ 1000

-- Parameters that pass the validation leave the executor a share, unless their sum wraps.
pub validate-HasRatios :
    (p : Params)
    → p.executor_fee_ratio + p.verifier_fee_ratio + p.multi_verification_fund_ratio < 4294967296
    → validate p ≡ true
    → HasRatios p
unfolding validate
validate-HasRatios p small h = ground arith
