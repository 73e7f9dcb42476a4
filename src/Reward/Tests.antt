-- ===== src/Reward/Tests.antt =====
-- The fixtures and the witnesses of x/reward: exact fractions for decimals, and a bank that counts what
-- it mints.
use funai_chain.Base.{
  ℕ, ◌+◌, ◌*◌, ◌/◌, ◌^◌, ◌≤◌, ◌≡◌, ◌==◌, false, ltb, if◌then◌else◌, none, some, List, [], ◌∷◌,
  arith, refl,
}
use native.Mathlib.Nat.{mul-div-le, mul-add, mul_assoc, mul_comm}
use funai_chain.Base.Result.{ok}
use funai_chain.Settlement.Tests.Bank.{Book, send, decode}
use funai_chain.Reward.Types.{Decimals, ConsensusSignerInfo, default_reward_params}
use funai_chain.Reward.Schedule.{calculate_epoch_reward}
use funai_chain.Reward.Payment.{RewardContext, RewardState}
use funai_chain.Reward.Pools.{distribute_rewards}
use funai_chain.Reward.Exact.{IsMint, IsPaidOut, empty_epoch_exact}
use funai_chain.Reward.Rounding.{IsRounded, unit}
use funai_chain.Reward.Supply.{emitted, emitted-le-supply}

-- A numerator and a denominator.
abbrev Fraction : Type 0
Fraction = ℕ × ℕ

abbrev fractions : Decimals Fraction
fractions = record {
  zero_dec = (0, 1);
  one_dec = (1, 1);
  with_prec = λ n places. (n, 10 ^ places);
  of_int = λ n. (n, 1);
  of_uint64 = λ n. (n, 1);
  plus = λ a b. (a.0 * b.1 + b.0 * a.1, a.1 * b.1);
  times = λ a b. (a.0 * b.0, a.1 * b.1);
  times_int = λ a n. (a.0 * n, a.1);
  quo = λ a b. (a.0 * b.1, a.1 * b.0);
  truncate = λ a. a.0 / a.1;
  is_negative = λ a. false;
  exceeds = λ a b. ltb (b.0 * a.1) (a.0 * b.1);
  equals = λ a b. a.0 * b.1 == b.0 * a.1;
}

floor-le : (a b n : ℕ) → a * 1 * n / (1 * b) * (b * unit) ≤ n * (a * unit + b)
floor-le a b n =
    let one : 1 * b ≡ b = omega arith in
    let same : a * 1 * n ≡ a * n = omega arith in
    let f = a * n / b in
    rw (one, same, mul-add n (a * unit) b)
      (omega (
        arith,
        mul-div-le (a * n) b,
        mul_assoc f b unit,
        mul_comm f b,
        mul_assoc n a unit,
        mul_comm n a,
      ))

fractions-IsRounded : IsRounded fractions
fractions-IsRounded = record {
  int_ratio = λ a b n pos. floor-le a b n;
  count_ratio = λ a b n pos small_a small_b. floor-le a b n;
}

-- The supply is counted at address 0; the module holds what it mints at address 2.
abbrev till : RewardContext Fraction Book
till = record {
  height = 200;
  dec = fractions;
  authority = 9;
  decode = decode;
  mint = λ o n.
      let more : Book = λ a. if a == 0 then o a + n else if a == 2 then o a + n else o a in
      some more;
  send = λ o a n. if a == 0 then none else send o 2 a n;
  to_fund = λ o n. send o 2 3 n;
}

till-IsMint : IsMint till (λ o. o 0)
till-IsMint = record { minted = λ o n o' e. ground arith; sent = λ o a n o' e. ground arith }

abbrev start : RewardState Fraction Book
start = record {
  outer = λ a. 0;
  records = [];
  params = some (record (default_reward_params fractions) { halving_period = 150 });
}

abbrev signers : List ConsensusSignerInfo
signers =
    record { validator_address = 11; blocks_signed = 70 }
    ∷ record { validator_address = 21; blocks_signed = 30 }
    ∷ []

abbrev Distributed : Type 0
Distributed =
    (t : RewardState Fraction Book) × (distribute_rewards till [] [] signers [] start ≡ ok t)

distributed : Distributed
unfolding distribute_rewards
distributed = (_, refl)

empty_epoch_exact_example : IsPaidOut till (λ o. o 0) till-IsMint signers [] start distributed.0
unfolding distributed calculate_epoch_reward
empty_epoch_exact_example =
    empty_epoch_exact till (λ o. o 0) till-IsMint [] signers [] start distributed.0
      fractions-IsRounded (omega arith) (omega arith) (omega arith) distributed.1

emitted-le-supply_example : emitted (default_reward_params fractions) 5000000 ≤ 210000000000000000
emitted-le-supply_example =
    emitted-le-supply (default_reward_params fractions) (omega arith) 5000000 (omega arith)
      (omega arith)
