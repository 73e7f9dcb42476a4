-- ===== src/Settlement/Account/Solvent.antt =====
-- Solvency: the module's bank account covers the sum of the users' balances. The bank is another
-- library's, so what it does with balances is stated as laws.
use funai_chain.Base.{
  ℕ, ℤ, ◌+◌, ◌-◌, ◌≤◌, ◌≡◌, ◌≢◌, ◌⊎◌, Option, none, some, lookup, arith, total, total-insert,
  lookup-insert, refl,
}
use funai_chain.Base.Result.{ok}
use funai_chain.Settlement.Types.{Coin, InferenceAccount}
use funai_chain.Settlement.Store.{Context, Store, acc_address, set_inference_account}
use funai_chain.Settlement.Account.{available_balance, credited, process_deposit, process_withdraw}

module _ {S : Type 0} (c : Context S) where
  -- What `x/bank` documents of a transfer that succeeds: it takes at most the amount from the
  -- sender, adds it to any other recipient, and takes nothing from others. An address that is
  -- printed is read back.
  pub record BankLaws : Type 0 where
    pub send_debit :
        (s : S) (from to amount : ℕ) (s' : S)
        → c.send s from to amount ≡ some s'
        → c.balance s from ≤ c.balance s' from + amount
    pub send_exact :
        (s : S) (from to amount : ℕ) (s' : S)
        → from ≢ to
        → c.send s from to amount ≡ some s'
        → c.balance s from ≡ c.balance s' from + amount
    pub send_credit :
        (s : S) (from to amount : ℕ) (s' : S)
        → from ≢ to
        → c.send s from to amount ≡ some s'
        → c.balance s' to ≡ c.balance s to + amount
    pub send_others :
        (s : S) (from to other amount : ℕ) (s' : S)
        → other ≢ from
        → c.send s from to amount ≡ some s'
        → c.balance s other ≤ c.balance s' other
    pub decode-encode : (a : ℕ) → c.decode (c.encode a) ≡ some a

  -- The modules for workers and models spend nothing from the settlement module's account.
  pub record KeeperLaws : Type 0 where
    pub jail_keeps :
        (s : S) (a : ℕ)
        → c.balance s c.module_account ≤ c.balance (c.jail_worker s a) c.module_account
    pub streak_keeps :
        (s : S) (a : ℕ)
        → c.balance s c.module_account ≤ c.balance (c.increment_success_streak s a) c.module_account
    pub stats_keeps :
        (s : S) (a : ℕ) (n : ℤ)
        → c.balance s c.module_account ≤ c.balance (c.update_worker_stats s a n) c.module_account
    pub accept_keeps :
        (s : S) (a : ℕ)
        → c.balance s c.module_account ≤ c.balance (c.reputation_on_accept s a) c.module_account
    pub latency_keeps :
        (s : S) (a n : ℕ)
        → c.balance s c.module_account ≤ c.balance (c.update_avg_latency s a n) c.module_account
    pub model_keeps :
        (s : S) (a n m : ℕ)
        → c.balance s c.module_account ≤ c.balance (c.record_model_task s a n m) c.module_account

  abbrev pub balances : Store S → ℕ
  balances s = total (λ ia. ia.balance) s.accounts

  -- What the module's bank account holds.
  abbrev pub holdings : Store S → ℕ
  holdings s = c.balance s.outer c.module_account

  -- Every account is stored under its own address, and the module can pay out every balance.
  pub record IsSolvent (s : Store S) : Type 0 where
    pub keyed :
        (a : ℕ) (ia : InferenceAccount)
        → lookup a s.accounts ≡ some ia
        → acc_address c ia.address ≡ a
    pub covered : balances s ≤ holdings s

  pub set_inference_account_keyed :
      (s : Store S) (ia : InferenceAccount)
      → ((a : ℕ) (i : InferenceAccount)
          → lookup a s.accounts ≡ some i
          → acc_address c i.address ≡ a)
      → (a : ℕ) (i : InferenceAccount) → lookup a (set_inference_account c ia s).accounts ≡ some i
      → acc_address c i.address ≡ a
  set_inference_account_keyed s ia k a i e =
      ground (arith, lookup-insert a (acc_address c ia.address) ia s.accounts, k a i)

  -- The sum of the balances when an account is written back with another balance.
  pub balances-set :
      (s : Store S) (user : ℕ) (ia new : InferenceAccount)
      → IsSolvent s
      → lookup user s.accounts ≡ some ia
      → new.address ≡ ia.address
      → balances (set_inference_account c new s) + ia.balance ≡ balances s + new.balance
  balances-set s user ia new inv e same =
      let k : acc_address c new.address ≡ user = rw same (inv.keyed user ia e) in
      ground (arith, total-insert (λ i. i.balance) (acc_address c new.address) new s.accounts)

  process_deposit_ok :
      (creator : ℕ) (amount : Coin) (s t : Store S)
      → process_deposit c creator amount s ≡ ok t
      → (paid : S) × (c.send s.outer creator c.module_account amount.amount ≡ some paid)
        × (t
            ≡ set_inference_account c
                (credited c creator amount.amount (lookup creator s.accounts))
                (record s { outer = paid }))
  unfolding process_deposit
  process_deposit_ok creator amount s t e = ground arith

  balances-credited :
      (creator amount : ℕ) (s : Store S) (o : Option InferenceAccount)
      → BankLaws
      → IsSolvent s
      → lookup creator s.accounts ≡ o
      → balances (set_inference_account c (credited c creator amount o) s) ≡ balances s + amount
  balances-credited creator amount s none laws inv e =
      let k : acc_address c (c.encode creator) ≡ creator =
        ground (arith, laws.decode-encode creator) in
      ground (
        arith,
        k,
        total-insert (λ i. i.balance) (acc_address c (c.encode creator))
            (credited c creator amount none) s.accounts,
      )
  balances-credited creator amount s (some ia) laws inv e =
      omega (arith, balances-set s creator ia (credited c creator amount (some ia)) inv e refl)

  -- From a solvent store, with a bank that keeps its laws, a deposit that succeeds, by anyone but
  -- the module itself, raises both the sum of the balances and the module's holdings by its amount,
  -- and the module stays solvent.
  pub process_deposit-IsSolvent :
      (creator : ℕ) (amount : Coin) (s t : Store S)
      → BankLaws
      → IsSolvent s
      → creator ≢ c.module_account
      → process_deposit c creator amount s ≡ ok t
      → IsSolvent t
        × (balances t ≡ balances s + amount.amount)
        × (holdings t ≡ holdings s + amount.amount)
  process_deposit-IsSolvent creator amount s t laws inv ne e =
      let (paid, sent, written) = process_deposit_ok creator amount s t e in
      let more : holdings t ≡ holdings s + amount.amount =
        rw written (laws.send_credit s.outer creator c.module_account amount.amount paid ne sent) in
      let sum : balances t ≡ balances s + amount.amount =
        rw written
          (balances-credited creator amount.amount s (lookup creator s.accounts) laws inv refl) in
      (
        record {
          keyed = rw written (set_inference_account_keyed s _ inv.keyed);
          covered = omega arith;
        },
        sum,
        more,
      )

  process_withdraw_ok :
      (creator : ℕ) (amount : Coin) (s t : Store S)
      → process_withdraw c creator amount s ≡ ok t
      → (ia : InferenceAccount) × (paid : S) × (lookup creator s.accounts ≡ some ia)
        × (c.send s.outer c.module_account creator amount.amount ≡ some paid)
        × (amount.amount ≤ available_balance ia)
        × (t
            ≡ set_inference_account c
                (record ia { balance = ia.balance - amount.amount })
                (record s { outer = paid }))
  unfolding process_withdraw
  process_withdraw_ok creator amount s t e = ground arith

  available-le :
      (ia : InferenceAccount)
      → available_balance ia + ia.frozen_balance ≤ ia.balance ⊎ (available_balance ia ≡ 0)
  unfolding available_balance
  available-le ia = ground arith

  -- From a solvent store, with a bank that keeps its laws, a withdrawal that succeeds lowers the
  -- sum of the balances by exactly its amount, never takes more than what was available, and the
  -- module stays solvent.
  pub process_withdraw-IsSolvent :
      (creator : ℕ) (amount : Coin) (s t : Store S)
      → BankLaws
      → IsSolvent s
      → process_withdraw c creator amount s ≡ ok t
      → IsSolvent t
        × (balances t + amount.amount ≡ balances s)
        × ((ia : InferenceAccount) × (lookup creator s.accounts ≡ some ia)
            × (amount.amount ≤ available_balance ia))
  process_withdraw-IsSolvent creator amount s t laws inv e =
      let (ia, paid, there, sent, enough, written) = process_withdraw_ok creator amount s t e in
      let new : InferenceAccount = record ia { balance = ia.balance - amount.amount } in
      let spent = laws.send_debit s.outer c.module_account creator amount.amount paid sent in
      let le = available-le ia in
      let moved = balances-set s creator ia new inv there refl in
      let sum : balances t + amount.amount ≡ balances s = rw written (omega arith) in
      (
        record {
          keyed = rw written (set_inference_account_keyed s new inv.keyed);
          covered =
              let less : holdings s ≤ holdings t + amount.amount = rw written spent in omega arith;
        },
        sum,
        (ia, there, enough),
      )
