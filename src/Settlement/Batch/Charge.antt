-- ===== src/Settlement/Batch/Charge.antt =====
-- `ProcessBatchSettlement` (keeper.go), the fee of an entry by its billing mode, with what the token
-- counts add to the statistics about worker and verifiers.
use funai_chain.Base.{
  ℕ, ℤ, pos, negsuc, ◌*◌, ◌/◌, Bool, ◌&&◌, ltb, if◌then◌else◌, List, [], ◌∷◌, u32,
}
use funai_chain.Base.Result.{Result, ok, panic, ◌>>=◌}
use funai_chain.Settlement.Params.{Params}
use funai_chain.Settlement.Types.{SettlementEntry, VerifierResult, Error, is_per_token}
use funai_chain.Settlement.Store.{Context, Store, increment_verifier_epoch_count}
use funai_chain.Settlement.Fees.Fee.{calculate_per_token_fee}
use funai_chain.Settlement.Fees.Tokens.{effective_tolerance, resolve_token_counts, delta}
use funai_chain.Settlement.Mismatch.{update_token_mismatch_pair, increment_dishonest_count}

-- A verifier that counted tokens, and is off by more than the tolerance and the deviation.
unfoldable pub is_mismatch : Params → ℕ → VerifierResult → Bool
is_mismatch params output_tokens v =
    let tol =
      effective_tolerance output_tokens params.token_count_tolerance
        params.token_count_tolerance_pct in
    let off = delta v.verified_output_tokens output_tokens in
    ltb 0 v.verified_output_tokens
    && ltb tol off
    && ltb (u32 (output_tokens * params.token_mismatch_deviation_pct) / 100) off

-- `Int.Uint64`, which panics out of the range of a uint64.
abbrev pub uint64 : ℤ → Result Error ℕ
uint64 (pos n) = if ltb n 18446744073709551616 then ok n else panic
uint64 (negsuc n) = panic

module _ {S : Type 0} (c : Context S) where
  unfoldable pub count_verifiers : List VerifierResult → Store S → Store S
  count_verifiers [] s = s
  count_verifiers (v ∷ vs) s = count_verifiers vs (increment_verifier_epoch_count c v.address s)

  unfoldable pub track_pairs : Params → ℕ → ℕ → List VerifierResult → Store S → Store S
  track_pairs params worker output_tokens [] s = s
  track_pairs params worker output_tokens (v ∷ vs) s =
      track_pairs params worker output_tokens vs
        (update_token_mismatch_pair worker v.address (is_mismatch params output_tokens v) params s)

  -- The branch for per-token billing.
  unfoldable pub per_token_fee : Params → ℕ → SettlementEntry → Store S → Result Error (ℤ × Store S)
  unfolding track_pairs is_mismatch
  per_token_fee params worker e s =
      let resolution =
        resolve_token_counts e params.token_count_tolerance params.token_count_tolerance_pct in
      let s1 =
        if resolution.worker_dishonest then increment_dishonest_count c worker params s else s in
      let s2 = track_pairs params e.worker_address resolution.output_tokens e.verifier_results s1 in
      uint64 e.max_fee.amount >>= λ max_fee. ok (
        pos (
            calculate_per_token_fee resolution.input_tokens resolution.output_tokens
              e.fee_per_input_token e.fee_per_output_token max_fee),
        s2,
      )

  unfoldable pub actual_fee : Params → ℕ → SettlementEntry → Store S → Result Error (ℤ × Store S)
  actual_fee params worker e s =
      if is_per_token e
      then if params.per_token_billing_enabled
        then per_token_fee params worker e s
        else ok (e.max_fee.amount, s)
      else ok (e.fee.amount, s)
