-- ===== src/Settlement/Payout/Split.antt =====
-- What leaves the module's account when a fee is shared out.
use funai_chain.Base.{
  ℕ, suc, ◌+◌, ◌-◌, ◌*◌, ◌≤◌, ◌≡◌, ◌≢◌, ◌==◌, if◌then◌else◌, none, some, List, [], ◌∷◌, length,
  arith, Option-cases, inl, inr, ◌⊎◌, ◌∙◌, ap, Bool-cases,
}
use funai_chain.Base.Result.{ok, Result-cases}
use funai_chain.Settlement.Types.{VerifierResult}
use funai_chain.Settlement.Store.{Context, Store}
use funai_chain.Settlement.Account.Solvent.{BankLaws, holdings}
use funai_chain.Settlement.Payout.{pay_verifier, pay_verifiers, pay_executor, is_last}

module _ {S : Type 0} (c : Context S) where
  -- Two stores that differ at most in the other modules and in the verifiers' fee totals.
  abbrev pub paid_out : Store S → Store S → Store S
  paid_out s t = record s { outer = t.outer; verifier_fees = t.verifier_fees }

  pub paid_out_trans : (s t u : Store S) → t ≡ paid_out s t → u ≡ paid_out t u → u ≡ paid_out s u
  paid_out_trans s t u p q = q ∙ ap (λ x. paid_out x u) p

  -- Where an amount goes: nowhere if it is 0, and otherwise through the bank.
  abbrev pub Sent : ℕ → ℕ → Store S → Store S → Type 0
  Sent account amount s t =
      ((amount ≡ 0) × (t ≡ s))
      ⊎ ((paid : S) × (c.send s.outer c.module_account account amount ≡ some paid)
          × (t.outer ≡ paid))

  pub pay_verifier_ok :
      (account amount : ℕ) (v : VerifierResult) (s t : Store S)
      → pay_verifier c account amount v s ≡ ok t
      → (t ≡ paid_out s t) × Sent account amount s t
  unfolding pay_verifier
  pay_verifier_ok account amount v s t e =
      elim (Option-cases (c.send s.outer c.module_account account amount)) [
        | inl refused ↦ ground arith
        | inr (paid, sent) ↦ elim (Bool-cases (amount == 0)) [
          | inl nothing ↦ ground arith
          | inr positive ↦ (ground arith, inr (paid, sent, ground arith))
        ]
      ]

  pub pay_executor_ok :
      (fee others worker : ℕ) (s t : Store S)
      → pay_executor c fee others worker s ≡ ok t
      → (t ≡ paid_out s t) × Sent worker (fee - others) s t × (others ≤ fee)
  unfolding pay_executor
  pay_executor_ok fee others worker s t e =
      elim (Option-cases (c.send s.outer c.module_account worker (fee - others))) [
        | inl refused ↦ ground arith
        | inr (paid, sent) ↦ elim (Bool-cases (fee - others == 0)) [
          | inl nothing ↦ ground arith
          | inr positive ↦ (ground arith, inr (paid, sent, ground arith), ground arith)
        ]
      ]

  pub Sent-holdings :
      (account amount : ℕ) (s t : Store S)
      → BankLaws c
      → Sent account amount s t
      → holdings c s ≤ holdings c t + amount
  Sent-holdings account amount s t laws (inl (z, same)) = rw same (omega arith)
  Sent-holdings account amount s t laws (inr (paid, sent, to)) =
      rw to (laws.send_debit s.outer c.module_account account amount paid sent)

  pub Sent-holdings_exact :
      (account amount : ℕ) (s t : Store S)
      → BankLaws c
      → c.module_account ≢ account
      → Sent account amount s t
      → holdings c s ≡ holdings c t + amount
  Sent-holdings_exact account amount s t laws ne (inl (z, same)) = rw same (omega arith)
  Sent-holdings_exact account amount s t laws ne (inr (paid, sent, to)) =
      rw to (laws.send_exact s.outer c.module_account account amount paid ne sent)

  last_fits :
      (pool per : ℕ) (vs : List VerifierResult) (paid : ℕ)
      → paid + suc (length vs) * per ≤ pool
      → paid + (if is_last vs then pool - paid else per) + length vs * per ≤ pool
  last_fits pool per [] paid fits = omega arith
  last_fits pool per (v ∷ vs) paid fits = grind arith

  -- One step of the loop, by what became of the verifier.
  pub pay_verifiers_cons :
      (pool per : ℕ) (v : VerifierResult) (vs : List VerifierResult) (paid : ℕ) (s : Store S)
      (r : Store S × ℕ)
      → pay_verifiers c pool per (v ∷ vs) paid s ≡ ok r
      → ((c.decode v.address ≡ none) × (pay_verifiers c pool per vs paid s ≡ ok r))
        ⊎ ((account : ℕ) × (t : Store S) × (c.decode v.address ≡ some account)
            × (pay_verifier c account (if is_last vs then pool - paid else per) v s ≡ ok t)
            × (pay_verifiers c pool per vs (paid + (if is_last vs then pool - paid else per)) t
                ≡ ok r))
  unfolding pay_verifiers
  pay_verifiers_cons pool per v vs paid s r e =
      let amount : ℕ = if is_last vs then pool - paid else per in
      elim (Option-cases (c.decode v.address)) [
        | inl malformed ↦ inl (malformed, ground arith)
        | inr (account, known) ↦ elim (Result-cases (pay_verifier c account amount v s)) [
          | inl (t, done) ↦ inr (account, t, known, done, ground arith)
          | inr (inl (x, refused)) ↦ ground arith
          | inr (inr panics) ↦ ground arith
        ]
      ]

  -- The loop changes only the bank and the fee totals, and no more leaves the module's account than
  -- what it adds to the amount paid.
  pub pay_verifiers_ok :
      (pool per : ℕ) (vs : List VerifierResult) (paid : ℕ) (s t : Store S) (paid' : ℕ)
      → BankLaws c
      → pay_verifiers c pool per vs paid s ≡ ok (t, paid')
      → (t ≡ paid_out s t) × (holdings c s + paid ≤ holdings c t + paid') × (paid ≤ paid')
  unfolding pay_verifiers
  pay_verifiers_ok pool per [] paid s t paid' laws e = ground arith
  pay_verifiers_ok pool per (v ∷ vs) paid s t paid' laws e =
      elim (pay_verifiers_cons pool per v vs paid s (t, paid') e) [
        | inl (malformed, rest) ↦ pay_verifiers_ok pool per vs paid s t paid' laws rest
        | inr (account, u, known, done, rest) ↦
            let amount : ℕ = if is_last vs then pool - paid else per in
            let (first, sent) = pay_verifier_ok account amount v s u done in
            let (later, moved, more) =
              pay_verifiers_ok pool per vs (paid + amount) u t paid' laws rest in
            (
              paid_out_trans s u t first later,
              omega (arith, Sent-holdings account amount s u laws sent),
              omega arith,
            )
      ]

  -- No verifier's address is the module's own account.
  abbrev pub IsOutside : List VerifierResult → Type 0
  IsOutside [] = Unit
  IsOutside (v ∷ vs) = (c.decode v.address ≢ some c.module_account) × IsOutside vs

  pub pay_verifiers_exact :
      (pool per : ℕ) (vs : List VerifierResult) (paid : ℕ) (s t : Store S) (paid' : ℕ)
      → BankLaws c
      → IsOutside vs
      → pay_verifiers c pool per vs paid s ≡ ok (t, paid')
      → holdings c s + paid ≡ holdings c t + paid'
  unfolding pay_verifiers
  pay_verifiers_exact pool per [] paid s t paid' laws out e = ground arith
  pay_verifiers_exact pool per (v ∷ vs) paid s t paid' laws out e =
      elim (pay_verifiers_cons pool per v vs paid s (t, paid') e) [
        | inl (malformed, rest) ↦ pay_verifiers_exact pool per vs paid s t paid' laws out.1 rest
        | inr (account, u, known, done, rest) ↦
            let amount : ℕ = if is_last vs then pool - paid else per in
            let ne : c.module_account ≢ account = λ same. out.0 (rw same known) in
            omega (
              arith,
              pay_verifiers_exact pool per vs (paid + amount) u t paid' laws out.1 rest,
              Sent-holdings_exact account amount s u laws ne
                  (pay_verifier_ok account amount v s u done).1,
            )
      ]

  -- The shares never exceed the pool.
  pub pay_verifiers_bound :
      (pool per : ℕ) (vs : List VerifierResult) (paid : ℕ) (s t : Store S) (paid' : ℕ)
      → paid + length vs * per ≤ pool
      → pay_verifiers c pool per vs paid s ≡ ok (t, paid')
      → paid' ≤ pool
  unfolding pay_verifiers
  pay_verifiers_bound pool per [] paid s t paid' fits e = ground arith
  pay_verifiers_bound pool per (v ∷ vs) paid s t paid' fits e =
      elim (pay_verifiers_cons pool per v vs paid s (t, paid') e) [
        | inl (malformed, rest) ↦ pay_verifiers_bound pool per vs paid s t paid' (grind arith) rest
        | inr (account, u, known, done, rest) ↦
            pay_verifiers_bound pool per vs (paid + (if is_last vs then pool - paid else per)) u t
              paid' (last_fits pool per vs paid fits) rest
      ]
