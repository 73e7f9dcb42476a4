-- ===== src/Settlement/Payout.antt =====
-- x/settlement/keeper/keeper.go, how the fee of a task is shared out: `dedupVerifierResults`,
-- `distributeSuccessFee` and `distributeFailFee`. Each pays from the module's account and stops at
-- the first transfer that the bank refuses.
pub mod Dedup
pub mod Split
pub mod Shares
use funai_chain.Base.{
  ℕ, ◌+◌, ◌-◌, ◌*◌, ◌/◌, Bool, true, false, ◌||◌, ltb, leb, ◌==◌, if◌then◌else◌, Option, none, some,
  List, [], ◌∷◌, length, u32,
}
use funai_chain.Base.Result.{Result, ok, err, panic, ◌>>=◌}
use funai_chain.Settlement.Params.{Params}
use funai_chain.Settlement.Types.{VerifierResult, Error, send_failed}
use funai_chain.Settlement.Store.{Context, Store, increment_verifier_epoch_fee}

abbrev pub mem : ℕ → List ℕ → Bool
mem a [] = false
mem a (x ∷ xs) = a == x || mem a xs

-- The loop of `dedupVerifierResults`, over the addresses that were seen.
unfoldable pub dedup_from : List ℕ → List VerifierResult → List VerifierResult
dedup_from seen [] = []
dedup_from seen (v ∷ vs) =
    let skipped = dedup_from seen vs in
    let kept = v ∷ dedup_from (v.address ∷ seen) vs in
    if v.address == 0 then skipped else if mem v.address seen then skipped else kept

unfoldable pub dedup_verifier_results : List VerifierResult → List VerifierResult
unfolding dedup_from
dedup_verifier_results vs = dedup_from [] vs

abbrev pub is_last : List VerifierResult → Bool
is_last [] = true
is_last (v ∷ vs) = false

abbrev pub verifier_pool : ℕ → Params → ℕ
verifier_pool fee params = fee * params.verifier_fee_ratio / 1000

abbrev pub audit_fund : ℕ → Params → ℕ
audit_fund fee params = fee * params.multi_verification_fund_ratio / 1000

module _ {S : Type 0} (c : Context S) where
  -- The payment of one verifier: nothing is sent for an amount of 0.
  unfoldable pub pay_verifier : ℕ → ℕ → VerifierResult → Store S → Result Error (Store S)
  pay_verifier account amount v s =
      if amount == 0 then ok s else elim (c.send s.outer c.module_account account amount) [
        | none ↦ err send_failed
        | some paid ↦
            ok (increment_verifier_epoch_fee c v.address amount (record s { outer = paid }))
      ]

  -- The loop over the verifiers: `per` for each, and what is left of `pool` for the last. A
  -- verifier whose address is malformed is passed over. The result is with the amount paid out.
  unfoldable pub pay_verifiers :
      ℕ → ℕ → List VerifierResult → ℕ → Store S → Result Error (Store S × ℕ)
  pay_verifiers pool per [] paid s = ok (s, paid)
  pay_verifiers pool per (v ∷ vs) paid s =
      let amount = if is_last vs then pool - paid else per in
      elim (c.decode v.address) [
        | none ↦ pay_verifiers pool per vs paid s
        | some account ↦ elim (pay_verifier account amount v s) [
          | ok t ↦ pay_verifiers pool per vs (paid + amount) t
          | err e ↦ err e
          | panic ↦ panic
        ]
      ]

  -- The executor's payment: `NewCoin` panics where the amount would be negative.
  unfoldable pub pay_executor : ℕ → ℕ → ℕ → Store S → Result Error (Store S)
  pay_executor fee others worker s =
      if ltb fee others
      then panic
      else if fee - others == 0
      then ok s
      else elim (c.send s.outer c.module_account worker (fee - others)) [
        | none ↦ err send_failed
        | some paid ↦ ok (record s { outer = paid })
      ]

  unfoldable pub distribute_success_fee :
      ℕ → ℕ → List VerifierResult → Params → Store S → Result Error (Store S)
  distribute_success_fee fee worker verifiers params s =
      let pool = verifier_pool fee params in
      let unique = dedup_verifier_results verifiers in
      do
        (t, paid) ← pay_verifiers pool (pool / length unique) unique 0 s
        pay_executor fee (paid + audit_fund fee params) worker t

  -- The verifiers' part of a fail fee. The fund's part stays in the module's account. With both
  -- ratios 0 the division panics.
  unfoldable pub distribute_fail_fee :
      ℕ → List VerifierResult → Params → Store S → Result Error (Store S)
  distribute_fail_fee fail_fee verifiers params s =
      let unique = dedup_verifier_results verifiers in
      let both = u32 (params.verifier_fee_ratio + params.multi_verification_fund_ratio) in
      let pool = fail_fee * params.verifier_fee_ratio / both in
      let paying : Result Error (Store S) = do
        (t, paid) ← pay_verifiers pool (pool / length unique) unique 0 s
        ok t
      in if length unique == 0 then ok s else if both == 0 then panic else paying
