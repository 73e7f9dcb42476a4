-- ===== src/Settlement/Trigger.antt =====
-- `shouldTriggerSecondVerification` and `shouldTriggerThirdVerification` (keeper.go): a task is drawn
-- when its hash with the block is below the rate's part, per mille, of 2^256.
use funai_chain.Base.{ℕ, ◌*◌, ◌/◌, ◌^◌, ◌≤◌, ◌<◌, ◌≡◌, Bool, true, false, ltb, arith}
use funai_chain.Settlement.Store.{Context}

module _ {S : Type 0} (c : Context S) where
  unfoldable pub should_trigger : ℕ → ℕ → Bool
  should_trigger task_id rate = ltb (c.vrf_hash task_id) (2 ^ 256 * rate / 1000)

  -- Over hashes below 2^256: a rate of 0 draws no task, a rate of 1000 or more draws every task, and
  -- a task that is drawn at a rate is drawn at every higher one.
  pub should_trigger_rates :
      (task_id : ℕ)
      → c.vrf_hash task_id < 2 ^ 256
      → (should_trigger task_id 0 ≡ false)
        × ((rate : ℕ) → 1000 ≤ rate → should_trigger task_id rate ≡ true)
        × ((low high : ℕ)
            → low ≤ high
            → should_trigger task_id low ≡ true
            → should_trigger task_id high ≡ true)
  unfolding should_trigger
  should_trigger_rates task_id h =
      (ground arith, λ rate le. ground arith, λ low high le e. ground arith)
