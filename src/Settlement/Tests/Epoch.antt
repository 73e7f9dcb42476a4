-- ===== src/Settlement/Tests/Epoch.antt =====
-- A batch of second results, and the distribution of an epoch's fund.
use funai_chain.Base.{ℕ, ◌+◌, ◌≡◌, ◌≤◌, false, if◌then◌else◌, List, [], ◌∷◌, refl}
use funai_chain.Settlement.Types.{default_epoch_stats}
use funai_chain.Settlement.Store.{Store}
use funai_chain.Settlement.Account.Solvent.{holdings}
use funai_chain.Settlement.Audit.Batched.{SecondVerificationBatchEntry, Bytewise, BatchCounts}
use funai_chain.Settlement.Audit.Fund.{
  distribute_multi_verification_fund, distribute_multi_verification_fund_bounded, fund_pool,
  pay_fund, pay_from_fund,
}
use funai_chain.Settlement.Tests.Bank.{Book, bank, bank-laws}
use funai_chain.Settlement.Tests.Verification.{waiting_store}

abbrev sum : List ℕ → ℕ
sum [] = 0
sum (n ∷ ns) = n + sum ns

abbrev bytewise : Bytewise
bytewise = record { join = sum; put_uint32 = λ n. n; flag = λ b. if b then 1 else 0 }

abbrev good : SecondVerificationBatchEntry
good = record {
  task_id = 77;
  second_verifier = 43;
  epoch = 10;
  pass = false;
  logits_hash = 1;
  verified_input_tokens = 9;
  verified_output_tokens = 90;
  signature = 461;
}

abbrev forged : SecondVerificationBatchEntry
forged = record good { signature = 460 }

abbrev one_of_two : BatchCounts
one_of_two = record { accepted = 1; rejected = 1 }

-- The two who gave results share a fund of 300.
abbrev funded : Store Book
funded = record waiting_store {
  epoch_stats =
      (
        10,
        record (default_epoch_stats 10) {
          total_fees = 10000;
          second_verification_person_count = 2;
        },
      )
      ∷ [];
}

paid_in_full : holdings bank (distribute_multi_verification_fund bank 10 funded) ≡ 400
unfolding distribute_multi_verification_fund pay_fund pay_from_fund
paid_in_full = refl

distribute_multi_verification_fund_bounded_example :
    holdings bank funded
    ≤ holdings bank (distribute_multi_verification_fund bank 10 funded) + fund_pool bank 10 funded
distribute_multi_verification_fund_bounded_example =
    distribute_multi_verification_fund_bounded bank 10 funded bank-laws
