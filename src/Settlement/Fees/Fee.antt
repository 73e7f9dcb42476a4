-- ===== src/Settlement/Fees/Fee.antt =====
-- `CalculatePerTokenFee` (keeper.go), with its overflow checks on uint64 arithmetic.
use native.Mathlib.Nat.{mul_comm, div-add-mod, mod-eq_of_lt, mul-div_cancel}
use native.Mathlib.Decide.{dec_lt}
use funai_chain.Base.{
  ℕ, ◌+◌, ◌*◌, ◌/◌, ◌%◌, ◌≤◌, ◌<◌, ◌≡◌, true, false, not, ◌&&◌, ltb, ◌==◌, if◌then◌else◌, u64,
  arith, ◌⊎◌, inl, inr,
}
use Prim.Native.Nat.{min}

-- inputTokens, outputTokens : uint32; the rest uint64.
unfoldable pub calculate_per_token_fee : ℕ → ℕ → ℕ → ℕ → ℕ → ℕ
calculate_per_token_fee input_tokens output_tokens fee_per_input fee_per_output max_fee =
    let input_cost = u64 (input_tokens * fee_per_input) in
    let output_cost = u64 (output_tokens * fee_per_output) in
    let actual_fee = u64 (input_cost + output_cost) in
    if ltb 0 fee_per_input && not (input_cost / fee_per_input == input_tokens)
    then max_fee
    else if ltb 0 fee_per_output && not (output_cost / fee_per_output == output_tokens)
    then max_fee
    else if ltb actual_fee input_cost
    then max_fee
    else if ltb max_fee actual_fee
    then max_fee
    else actual_fee

-- The division test of a wrapped product passes only when nothing wrapped.
wrapped_product : (a b : ℕ) → 0 < b → u64 (a * b) / b ≡ a → a * b < 18446744073709551616
wrapped_product a b h e =
    let r : ℕ = u64 (a * b) in
    let q : b * (r / b) + r % b ≡ r = div-add-mod r b in
    let q' : b * a + r % b ≡ r = rw e at q in omega (arith, mul_comm a b)

unwrapped_product : (a b : ℕ) → 0 < b → a * b < 18446744073709551616 → u64 (a * b) / b ≡ a
unwrapped_product a b h l = rw (mod-eq_of_lt l) (mul-div_cancel a h)

-- The cost of one side as the code tests it: the product, or an overflow.
cost_cases :
    (n f : ℕ)
    → ((n * f < 18446744073709551616)
        × (u64 (n * f) ≡ n * f)
        × ((ltb 0 f && not (u64 (n * f) / f == n)) ≡ false))
      ⊎ ((18446744073709551616 ≤ n * f) × ((ltb 0 f && not (u64 (n * f) / f == n)) ≡ true))
cost_cases n f = elim (dec_lt (n * f) 18446744073709551616) [
  | yes small ↦ inl (small, mod-eq_of_lt small, ground (arith, unwrapped_product n f))
  | no large ↦ inr (omega arith, ground (arith, wrapped_product n f))
]

-- Whatever the token counts and prices, the fee is the exact cost, capped at the maximal fee: the
-- overflow checks lose nothing and let nothing wrap. The counts need not even fit a uint32.
pub calculate_per_token_fee_lem :
    (n_in n_out fee_in fee_out max_fee : ℕ)
    → max_fee < 18446744073709551616
    → calculate_per_token_fee n_in n_out fee_in fee_out max_fee
      ≡ min (n_in * fee_in + n_out * fee_out) max_fee
unfolding calculate_per_token_fee
calculate_per_token_fee_lem n_in n_out fee_in fee_out max_fee h =
    ground (arith, cost_cases n_in fee_in, cost_cases n_out fee_out)
