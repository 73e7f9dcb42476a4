-- ===== src/Settlement/Fees/Tokens.antt =====
-- `ResolveTokenCounts`, `effectiveTolerance` and `resolveTokenPair` (keeper.go): what the worker
-- reports is charged when it is near the verifiers' median, and the median otherwise.
use Prim.Native.Nat.{max}
use native.Mathlib.Nat.{mul-le-mul_right}
use funai_chain.Base.{
  ℕ, ◌+◌, ◌-◌, ◌*◌, ◌/◌, ◌≤◌, ◌<◌, ◌≡◌, Bool, true, false, ltb, leb, ◌==◌, if◌then◌else◌, u32,
  arith, ◌⊎◌, List, [], ◌∷◌, length,
}
use funai_chain.Settlement.Types.{SettlementEntry, VerifierResult}
use funai_chain.Settlement.Fees.Median.{median, median_of_two, median_of_three}

unfoldable pub effective_tolerance : ℕ → ℕ → ℕ → ℕ
effective_tolerance count abs_tol pct =
    let pct_tol = u32 (count * pct) / 100 in if ltb abs_tol pct_tol then pct_tol else abs_tol

-- |a - b|, by the comparison that the source writes before each subtraction.
abbrev pub delta : ℕ → ℕ → ℕ
delta a b = if ltb b a then a - b else b - a

-- The count that is charged, and whether the worker misreported.
unfoldable pub resolve_token_pair : ℕ → ℕ → ℕ → ℕ × Bool
resolve_token_pair n_worker n_median tolerance =
    if n_median == 0
    then (n_worker, false)
    else if leb (delta n_worker n_median) tolerance
    then (n_worker, false)
    else (n_median, true)

-- The loops that gather the counts that verifiers reported, 0 being none.
unfoldable pub verifier_outs : List VerifierResult → List ℕ
verifier_outs [] = []
verifier_outs (v ∷ vs) =
    let rest = verifier_outs vs in
    if ltb 0 v.verified_output_tokens then v.verified_output_tokens ∷ rest else rest

unfoldable pub verifier_ins : List VerifierResult → List ℕ
verifier_ins [] = []
verifier_ins (v ∷ vs) =
    let rest = verifier_ins vs in
    if ltb 0 v.verified_input_tokens then v.verified_input_tokens ∷ rest else rest

pub record TokenCountResolution : Type 0 where
  pub input_tokens : ℕ
  pub output_tokens : ℕ
  pub worker_dishonest : Bool
  pub low_confidence : Bool

unfoldable pub resolve_token_counts : SettlementEntry → ℕ → ℕ → TokenCountResolution
unfolding verifier_outs verifier_ins
resolve_token_counts entry tolerance tolerance_pct =
    let outs = verifier_outs entry.verifier_results in
    let median_out = median outs in
    let median_in = median (verifier_ins entry.verifier_results) in
    let out_tol = effective_tolerance median_out tolerance tolerance_pct in
    let in_tol = effective_tolerance median_in tolerance tolerance_pct in
    let (out, dishonest) = resolve_token_pair entry.worker_output_tokens median_out out_tol in
    record {
      input_tokens = (resolve_token_pair entry.worker_input_tokens median_in in_tol).0;
      output_tokens = out;
      worker_dishonest = dishonest;
      low_confidence = ltb (length outs) 3;
    }

-- The tolerance is at least the absolute one, and at most that or the percentage.
effective_tolerance_bounds :
    (count abs_tol pct : ℕ)
    → (abs_tol ≤ effective_tolerance count abs_tol pct)
      × (effective_tolerance count abs_tol pct ≤ max abs_tol (count * pct / 100))
unfolding effective_tolerance
effective_tolerance_bounds count abs_tol pct = (ground arith, ground arith)

resolve_token_pair_upper : (w m tol : ℕ) → 0 < m → (resolve_token_pair w m tol).0 ≤ m + tol
unfolding resolve_token_pair
resolve_token_pair_upper w m tol h = ground arith

-- A worker that is called dishonest reported more than the tolerance away from a median that the
-- verifiers gave, and it is the median that is charged; any other report is charged as it stands,
-- and lies within the tolerance of the median where there is one.
pub resolve_token_pair_cases :
    (w m tol : ℕ)
    → (((resolve_token_pair w m tol).1 ≡ true)
        × ((resolve_token_pair w m tol).0 ≡ m)
        × (0 < m)
        × (tol < delta w m))
      ⊎ (((resolve_token_pair w m tol).1 ≡ false)
          × ((resolve_token_pair w m tol).0 ≡ w)
          × ((m ≡ 0) ⊎ ((w ≤ m + tol) × (m ≤ w + tol))))
unfolding resolve_token_pair
resolve_token_pair_cases w m tol = ground arith

-- The median of three verifiers' reports, of which two are positive and within [lo, hi].
median_reported :
    (v1 v2 v3 : VerifierResult) (lo hi : ℕ)
    → 0 < lo
    → lo ≤ v1.verified_output_tokens
    → v1.verified_output_tokens ≤ hi
    → lo ≤ v2.verified_output_tokens
    → v2.verified_output_tokens ≤ hi
    → hi < 2147483648
    → (lo ≤ median (verifier_outs (v1 ∷ v2 ∷ v3 ∷ [])))
      × (median (verifier_outs (v1 ∷ v2 ∷ v3 ∷ [])) ≤ hi)
unfolding verifier_outs
median_reported v1 v2 v3 lo hi p l1 h1 l2 h2 small =
    let a = v1.verified_output_tokens in
    let b = v2.verified_output_tokens in
    ground (
      arith,
      median_of_three a b v3.verified_output_tokens lo hi l1 h1 l2 h2,
      median_of_two a b lo hi l1 h1 l2 h2 small,
    )

-- Three verifiers, of which the first two report output token counts within [lo, hi]: the count
-- that is charged is at most `hi` and the tolerance that goes with `hi`, whatever the worker and
-- the third verifier report. Counts from 2^31 on are left out, where the mean of two wraps.
pub output_tokens_bounded :
    (entry : SettlementEntry) (v1 v2 v3 : VerifierResult) (lo hi tol pct : ℕ)
    → entry.verifier_results ≡ v1 ∷ v2 ∷ v3 ∷ []
    → 0 < lo
    → lo ≤ v1.verified_output_tokens
    → v1.verified_output_tokens ≤ hi
    → lo ≤ v2.verified_output_tokens
    → v2.verified_output_tokens ≤ hi
    → hi < 2147483648
    → (resolve_token_counts entry tol pct).output_tokens ≤ hi + max tol (hi * pct / 100)
unfolding resolve_token_counts
output_tokens_bounded entry v1 v2 v3 lo hi tol pct e p l1 h1 l2 h2 small =
    let m = median (verifier_outs (v1 ∷ v2 ∷ v3 ∷ [])) in
    let (above, below) = median_reported v1 v2 v3 lo hi p l1 h1 l2 h2 small in
    rw e (
      omega (
        arith,
        resolve_token_pair_upper entry.worker_output_tokens m (effective_tolerance m tol pct)
            (omega arith),
        effective_tolerance_bounds m tol pct,
        mul-le-mul_right pct below,
      ))
