-- ===== src/Settlement/Payout/Shares.antt =====
-- The two fee splits as a whole: what the module keeps, and that the success split never panics.
use native.Mathlib.Nat.{mul-div-le, mul-le-mul_left, mul-add, mod-eq_of_lt, div-le_of_le-mul}
use funai_chain.Base.{
  sym, ℕ, ◌+◌, ◌-◌, ◌*◌, ◌/◌, ◌≤◌, ◌<◌, ◌≡◌, ◌≢◌, ◌==◌, if◌then◌else◌, List, [], ◌∷◌, length, arith,
  Option-cases, inl, inr, ◌⊎◌, Bool-cases, u32,
}
use funai_chain.Base.Result.{ok, panic, Result-cases, >>=-eq-ok}
use funai_chain.Settlement.Params.{Params}
use funai_chain.Settlement.Types.{VerifierResult}
use funai_chain.Settlement.Store.{Context, Store}
use funai_chain.Settlement.Account.Solvent.{BankLaws, holdings}
use funai_chain.Settlement.Payout.{
  dedup_from, dedup_verifier_results, pay_verifier, pay_verifiers, pay_executor, verifier_pool,
  audit_fund, distribute_success_fee, distribute_fail_fee, is_last,
}
use funai_chain.Settlement.Payout.Split.{
  Sent, pay_verifier_ok, pay_verifiers_cons, paid_out, paid_out_trans, Sent-holdings,
  Sent-holdings_exact, pay_executor_ok, pay_verifiers_ok, pay_verifiers_exact, pay_verifiers_bound,
  IsOutside,
}

module _ {S : Type 0} (c : Context S) where
  IsOutside-dedup_from :
      (seen : List ℕ) (vs : List VerifierResult) → IsOutside c vs → IsOutside c (dedup_from seen vs)
  unfolding dedup_from
  IsOutside-dedup_from seen [] o = tt
  IsOutside-dedup_from seen (v ∷ vs) o =
      ground
        (arith, IsOutside-dedup_from seen vs o.1, IsOutside-dedup_from (v.address ∷ seen) vs o.1)

  IsOutside-dedup :
      (vs : List VerifierResult) → IsOutside c vs → IsOutside c (dedup_verifier_results vs)
  unfolding dedup_verifier_results
  IsOutside-dedup vs o = IsOutside-dedup_from [] vs o

  -- A success split is the verifiers' loop and then the executor's payment.
  distribute_success_fee_parts :
      (fee worker : ℕ) (vs : List VerifierResult) (params : Params) (s t : Store S)
      → distribute_success_fee c fee worker vs params s ≡ ok t
      → (u : Store S) × (paid : ℕ) × (pay_verifiers c
            (verifier_pool fee params)
            (verifier_pool fee params / length (dedup_verifier_results vs))
            (dedup_verifier_results vs)
            0
            s
          ≡ ok (u, paid))
        × (pay_executor c fee (paid + audit_fund fee params) worker u ≡ ok t)
  unfolding distribute_success_fee
  distribute_success_fee_parts fee worker vs params s t e =
      let ((u, paid), first, then_executor) =
        >>=-eq-ok
          (pay_verifiers c (verifier_pool fee params)
            (verifier_pool fee params / length (dedup_verifier_results vs))
            (dedup_verifier_results vs) 0 s)
          _ e in
      (u, paid, first, then_executor)

  -- With a bank that keeps its laws, a success split that goes through changes nothing but the bank
  -- and the fee totals, and leaves at least the fund's part of the fee in the module's account.
  pub distribute_success_fee_ok :
      (fee worker : ℕ) (vs : List VerifierResult) (params : Params) (s t : Store S)
      → BankLaws c
      → distribute_success_fee c fee worker vs params s ≡ ok t
      → (t ≡ paid_out c s t) × (holdings c s + audit_fund fee params ≤ holdings c t + fee)
  distribute_success_fee_ok fee worker vs params s t laws e =
      let (u, paid, first, last) = distribute_success_fee_parts fee worker vs params s t e in
      let (same, sent, fits) =
        pay_executor_ok c fee (paid + audit_fund fee params) worker u t last in
      let (kept, moved, _) = pay_verifiers_ok c _ _ _ 0 s u paid laws first in
      (
        paid_out_trans c s u t kept same,
        omega (arith, Sent-holdings c worker (fee - (paid + audit_fund fee params)) u t laws sent),
      )

  Sent-others :
      (account amount other : ℕ) (s t : Store S)
      → BankLaws c
      → c.module_account ≢ other
      → Sent c account amount s t
      → c.balance s.outer other ≤ c.balance t.outer other
  Sent-others account amount other s t laws ne (inl (z, same)) = rw same (omega arith)
  Sent-others account amount other s t laws ne (inr (paid, sent, to)) =
      rw to
        (laws.send_others s.outer c.module_account account other amount paid (λ e. ne (sym e)) sent)

  -- The payment of the verifiers takes nothing from anyone but the module.
  pay_verifiers_others :
      (pool per other : ℕ) (vs : List VerifierResult) (paid : ℕ) (s t : Store S) (paid' : ℕ)
      → BankLaws c
      → c.module_account ≢ other
      → pay_verifiers c pool per vs paid s ≡ ok (t, paid')
      → c.balance s.outer other ≤ c.balance t.outer other
  unfolding pay_verifiers
  pay_verifiers_others pool per other [] paid s t paid' laws ne e = ground arith
  pay_verifiers_others pool per other (v ∷ vs) paid s t paid' laws ne e =
      elim (pay_verifiers_cons c pool per v vs paid s (t, paid') e) [
        | inl (malformed, rest) ↦ pay_verifiers_others pool per other vs paid s t paid' laws ne rest
        | inr (account, u, known, done, rest) ↦
            let amount : ℕ = if is_last vs then pool - paid else per in
            omega (
              arith,
              Sent-others account amount other s u laws ne
                  (pay_verifier_ok c account amount v s u done).1,
              pay_verifiers_others pool per other vs (paid + amount) u t paid' laws ne rest,
            )
      ]

  Sent-credit :
      (account amount : ℕ) (s t : Store S)
      → BankLaws c
      → c.module_account ≢ account
      → Sent c account amount s t
      → c.balance t.outer account ≡ c.balance s.outer account + amount
  Sent-credit account amount s t laws ne (inl (z, same)) = rw (same, z) (omega arith)
  Sent-credit account amount s t laws ne (inr (paid, sent, to)) =
      rw to (laws.send_credit s.outer c.module_account account amount paid ne sent)

  -- With a bank that keeps its laws, a success split that goes through, with recipients outside the
  -- module, leaves exactly the fund's part of the fee in the module's account, and gives the executor
  -- at least what the verifiers' pool and the fund leave of the fee.
  pub distribute_success_fee_exact :
      (fee worker : ℕ) (vs : List VerifierResult) (params : Params) (s t : Store S)
      → BankLaws c
      → IsOutside c vs
      → c.module_account ≢ worker
      → distribute_success_fee c fee worker vs params s ≡ ok t
      → (holdings c s + audit_fund fee params ≡ holdings c t + fee)
        × (c.balance s.outer worker + fee
            ≤ c.balance t.outer worker + verifier_pool fee params + audit_fund fee params)
  distribute_success_fee_exact fee worker vs params s t laws out ne e =
      let (u, paid, first, last) = distribute_success_fee_parts fee worker vs params s t e in
      let (same, sent, fits) =
        pay_executor_ok c fee (paid + audit_fund fee params) worker u t last in
      let pool : ℕ = verifier_pool fee params in
      let unique = dedup_verifier_results vs in
      (
        omega (
          arith,
          pay_verifiers_exact c _ _ _ 0 s u paid laws (IsOutside-dedup vs out) first,
          Sent-holdings_exact c worker (fee - (paid + audit_fund fee params)) u t laws ne sent,
        ),
        omega (
          arith,
          pay_verifiers_others pool (pool / length unique) worker unique 0 s u paid laws ne first,
          Sent-credit worker (fee - (paid + audit_fund fee params)) u t laws ne sent,
          pay_verifiers_bound c pool (pool / length unique) unique 0 s u paid
              (omega (arith, mul-div-le pool (length unique))) first,
          fits,
        ),
      )

  pay_verifiers-ne-panic :
      (pool per : ℕ) (vs : List VerifierResult) (paid : ℕ) (s : Store S)
      → pay_verifiers c pool per vs paid s ≢ panic
  unfolding pay_verifiers pay_verifier
  pay_verifiers-ne-panic pool per [] paid s e = ground arith
  pay_verifiers-ne-panic pool per (v ∷ vs) paid s e =
      let amount : ℕ = if is_last vs then pool - paid else per in
      elim (Option-cases (c.decode v.address)) [
        | inl malformed ↦ pay_verifiers-ne-panic pool per vs paid s (ground arith)
        | inr (account, known) ↦ elim (Result-cases (pay_verifier c account amount v s)) [
          | inl (t, done) ↦ pay_verifiers-ne-panic pool per vs (paid + amount) t (ground arith)
          | inr (inl (x, refused)) ↦ ground arith
          | inr (inr panics) ↦ ground arith
        ]
      ]

  executor_not_negative :
      (fee worker paid : ℕ) (params : Params) (s : Store S)
      → paid + audit_fund fee params ≤ fee
      → pay_executor c fee (paid + audit_fund fee params) worker s ≢ panic
  unfolding pay_executor
  executor_not_negative fee worker paid params s fits = ground arith

  -- With fee ratios that leave the executor a share, the success split never panics: the executor's
  -- amount is not negative, whatever the fee, the verifiers and the addresses are.
  pub distribute_success_fee-ne-panic :
      (fee worker : ℕ) (vs : List VerifierResult) (params : Params) (s : Store S)
      → params.verifier_fee_ratio + params.multi_verification_fund_ratio ≤ 1000
      → distribute_success_fee c fee worker vs params s ≢ panic
  unfolding distribute_success_fee
  distribute_success_fee-ne-panic fee worker vs params s ratios e =
      let pool : ℕ = verifier_pool fee params in
      let unique = dedup_verifier_results vs in
      elim (Result-cases (pay_verifiers c pool (pool / length unique) unique 0 s)) [
        | inl ((t, paid), done) ↦
            executor_not_negative fee worker paid params t
              (omega (
                arith,
                pay_verifiers_bound c pool (pool / length unique) unique 0 s t paid
                    (omega (arith, mul-div-le pool (length unique))) done,
                mul-add fee params.verifier_fee_ratio params.multi_verification_fund_ratio,
                mul-le-mul_left fee ratios,
              ))
              (rw done at e)
        | inr (inl (x, refused)) ↦ ground arith
        | inr (inr panics) ↦ pay_verifiers-ne-panic pool (pool / length unique) unique 0 s panics
      ]

  share-le : (fee part rest : ℕ) → fee * part / (part + rest) ≤ fee
  share-le fee part rest = div-le_of_le-mul (part + rest) (omega arith)

  -- A fail split pays nobody, or it is the verifiers' loop.
  distribute_fail_fee_parts :
      (fee : ℕ) (vs : List VerifierResult) (params : Params) (s t : Store S)
      → distribute_fail_fee c fee vs params s ≡ ok t
      → let both = u32 (params.verifier_fee_ratio + params.multi_verification_fund_ratio) in
        let pool = fee * params.verifier_fee_ratio / both in
        (t ≡ s)
        ⊎ ((paid : ℕ) × (pay_verifiers c pool
                (pool / length (dedup_verifier_results vs))
                (dedup_verifier_results vs)
                0
                s
              ≡ ok (t, paid)))
  unfolding distribute_fail_fee
  distribute_fail_fee_parts fee vs params s t e =
      let both : ℕ = u32 (params.verifier_fee_ratio + params.multi_verification_fund_ratio) in
      let pool : ℕ = fee * params.verifier_fee_ratio / both in
      let unique = dedup_verifier_results vs in
      elim (Result-cases (pay_verifiers c pool (pool / length unique) unique 0 s)) [
        | inl ((u, paid), done) ↦ elim (Bool-cases (length unique == 0)) [
          | inl nobody ↦ inl (ground arith)
          | inr somebody ↦ inr (paid, ground arith)
        ]
        | inr (inl (x, refused)) ↦ inl (ground arith)
        | inr (inr panics) ↦ inl (ground arith)
      ]

  -- With a bank that keeps its laws and ratios whose sum is a uint32, a fail split that goes
  -- through changes nothing but the bank and the fee totals, and pays out at most the verifiers'
  -- part of the fee, which is at most the fee.
  pub distribute_fail_fee_ok :
      (fee : ℕ) (vs : List VerifierResult) (params : Params) (s t : Store S)
      → BankLaws c
      → params.verifier_fee_ratio + params.multi_verification_fund_ratio < 4294967296
      → distribute_fail_fee c fee vs params s ≡ ok t
      → let both = params.verifier_fee_ratio + params.multi_verification_fund_ratio in
        (t ≡ paid_out c s t)
        × (holdings c s ≤ holdings c t + fee * params.verifier_fee_ratio / both)
        × (fee * params.verifier_fee_ratio / both ≤ fee)
  distribute_fail_fee_ok fee vs params s t laws small e =
      let part : ℕ = params.verifier_fee_ratio in
      let rest : ℕ = params.multi_verification_fund_ratio in
      let pool : ℕ = fee * part / u32 (part + rest) in
      let unique = dedup_verifier_results vs in
      let fits : u32 (part + rest) ≡ part + rest = mod-eq_of_lt small in
      let same : pool ≡ fee * part / (part + rest) = rw fits in
      elim (distribute_fail_fee_parts fee vs params s t e) [
        | inl nobody ↦ (rw nobody, rw nobody (omega arith), share-le fee part rest)
        | inr (paid, done) ↦
            let (kept, moved, _) =
              pay_verifiers_ok c pool (pool / length unique) unique 0 s t paid laws done in
            let bound =
              pay_verifiers_bound c pool (pool / length unique) unique 0 s t paid
                (omega (arith, mul-div-le pool (length unique))) done in
            (kept, omega arith, share-le fee part rest)
      ]
