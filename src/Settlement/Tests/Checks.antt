-- ===== src/Settlement/Tests/Checks.antt =====
-- The theorems about fees, token counts, roots and statistics, at concrete inputs.
use funai_chain.Base.{
  ℕ, ◌+◌, ◌*◌, ◌/◌, ◌≤◌, ◌<◌, ◌≡◌, true, some, List, [], ◌∷◌, All, arith, refl, Bool-cases, ltb,
  ltb→lt, inl, inr, ap,
}
use Prim.Native.Nat.{min, max}
use native.Mathlib.Nat.{mul-le-mul}
use funai_chain.Settlement.Params.{default_params, validate}
use funai_chain.Settlement.Fees.Fee.{calculate_per_token_fee, calculate_per_token_fee_lem}
use funai_chain.Settlement.Fees.Tokens.{resolve_token_counts, output_tokens_bounded}
use funai_chain.Settlement.Merkle.{merkle_root, collapse, level}
use funai_chain.Settlement.Merkle.Binding.{
  merkle_root_total, merkle_root-injective, IsCollisionFree,
}
use funai_chain.Settlement.Mismatch.{update_token_mismatch_pair}
use funai_chain.Settlement.Mismatch.Window.{IsWindowed, update_token_mismatch_pair-IsWindowed}
use funai_chain.Settlement.Tests.Bank.{store, entry, verdict}

-- Both products exceed a uint64.
calculate_per_token_fee_lem_example :
    calculate_per_token_fee 4294967295 4294967295 18446744073709551615 3 1000
    ≡ min (4294967295 * 18446744073709551615 + 4294967295 * 3) 1000
calculate_per_token_fee_lem_example =
    calculate_per_token_fee_lem 4294967295 4294967295 18446744073709551615 3 1000 (omega arith)

abbrev reported : ℕ
reported = 90

output_tokens_bounded_example :
    (resolve_token_counts entry 2 2).output_tokens ≤ 90 + max 2 (90 * 2 / 100)
output_tokens_bounded_example =
    output_tokens_bounded entry (verdict 31) (verdict 32) (verdict 33) 90 90 2 2 refl (omega arith)
      (omega arith) (omega arith) (omega arith) (omega arith) (omega arith)

merkle_root_total_example : (r : ℕ) × (merkle_root (λ a b. a + b) (1 ∷ 2 ∷ 3 ∷ []) ≡ some r)
merkle_root_total_example = merkle_root_total (λ a b. a + b) (1 ∷ 2 ∷ 3 ∷ []) (omega arith)

abbrev pair : ℕ → ℕ → ℕ
pair a b = (a + b) * (a + b) + a

square-lt : (m n : ℕ) → m < n → m * m + m < n * n
square-lt m n h = omega (arith, mul-le-mul h h)

pair-IsCollisionFree : IsCollisionFree pair
pair-IsCollisionFree a b a' b' e = elim (Bool-cases (ltb (a + b) (a' + b'))) [
  | inl above ↦ absurd (omega (arith, square-lt (a + b) (a' + b') (ltb→lt (a + b) (a' + b') above)))
  | inr below ↦ elim (Bool-cases (ltb (a' + b') (a + b))) [
    | inl less ↦ absurd (omega (arith, square-lt (a' + b') (a + b) (ltb→lt (a' + b') (a + b) less)))
    | inr above ↦
        let same : a + b ≡ a' + b' = ground arith in
        let squares : (a + b) * (a + b) ≡ (a' + b') * (a' + b') = ap (λ s. s * s) same in
        (omega (arith, squares), omega (arith, squares, same))
  ]
]

abbrev leaves : List ℕ
leaves = 1 ∷ 2 ∷ 3 ∷ []

abbrev root : ℕ
root = pair (pair 1 2) (pair 3 3)

root-eq : merkle_root pair leaves ≡ some root
unfolding merkle_root collapse level
root-eq = refl

merkle_root-injective_example : leaves ≡ leaves
merkle_root-injective_example =
    merkle_root-injective pair leaves leaves root pair-IsCollisionFree refl root-eq root-eq

update_token_mismatch_pair-IsWindowed_example :
    All
      (IsWindowed default_params)
      (update_token_mismatch_pair 21 31 true default_params store).mismatches
update_token_mismatch_pair-IsWindowed_example =
    update_token_mismatch_pair-IsWindowed 21 31 true default_params store (omega arith)
      (omega arith) tt

default-valid : validate default_params ≡ true
unfolding validate
default-valid = refl
