-- ===== src/Settlement/Batch/Keeps.antt =====
-- The steps of an entry that leave the accounts and the module's holdings alone.
use funai_chain.Base.{
  ℤ, ◌==◌, ℕ, ◌≤◌, ◌≡◌, if◌then◌else◌, List, [], ◌∷◌, arith, refl, Bool-cases, inl, inr, u32,
}
use funai_chain.Base.Result.{ok, Result-cases}
use funai_chain.Settlement.Params.{Params}
use funai_chain.Settlement.Types.{SettlementEntry, VerifierResult, is_per_token, TaskStatus}
use funai_chain.Settlement.Store.{Context, Store, increment_verifier_epoch_count}
use funai_chain.Settlement.Account.Solvent.{KeeperLaws, IsSolvent, holdings}
use funai_chain.Settlement.Mismatch.{update_token_mismatch_pair, increment_dishonest_count}
use funai_chain.Settlement.Fees.Tokens.{resolve_token_counts}
use funai_chain.Settlement.Batch.Entry.{put_off}
use funai_chain.Settlement.Batch.Charge.{
  count_verifiers, track_pairs, actual_fee, per_token_fee, uint64,
}
use funai_chain.Settlement.Batch.Settle.{credit_worker, done}

module _ {S : Type 0} (c : Context S) where
  -- A change that keeps the accounts and does not lower the holdings.
  pub Keeps : Store S → Store S → Type 0
  Keeps s t = (t.accounts ≡ s.accounts) × (holdings c s ≤ holdings c t)

  pub Keeps-refl : (s : Store S) → Keeps s s
  unfolding Keeps
  Keeps-refl s = (refl, omega arith)

  pub Keeps-trans : (s t u : Store S) → Keeps s t → Keeps t u → Keeps s u
  unfolding Keeps
  Keeps-trans s t u (p, l) (q, m) = (rw (q, p), omega arith)

  pub Keeps-accounts : (s t : Store S) → Keeps s t → t.accounts ≡ s.accounts
  unfolding Keeps
  Keeps-accounts s t (same, more) = same

  pub Keeps-IsSolvent : (s t : Store S) → Keeps s t → IsSolvent c s → IsSolvent c t
  unfolding Keeps
  Keeps-IsSolvent s t (same, more) inv = record {
    keyed = λ a ia e. inv.keyed a ia (rw same at e);
    covered = rw same (omega (arith, inv.covered));
  }

  Keeps-increment_verifier_epoch_count :
      (str : ℕ) (s : Store S) → Keeps s (increment_verifier_epoch_count c str s)
  unfolding Keeps
  Keeps-increment_verifier_epoch_count str s = (ground arith, ground arith)

  pub Keeps-count_verifiers :
      (vs : List VerifierResult) (s : Store S) → Keeps s (count_verifiers c vs s)
  unfolding count_verifiers
  Keeps-count_verifiers [] s = Keeps-refl s
  Keeps-count_verifiers (v ∷ vs) s =
      let t = increment_verifier_epoch_count c v.address s in
      Keeps-trans s t (count_verifiers c vs t) (Keeps-increment_verifier_epoch_count v.address s)
        (Keeps-count_verifiers vs t)

  pub Keeps-track_pairs :
      (params : Params) (worker out : ℕ) (vs : List VerifierResult) (s : Store S)
      → Keeps s (track_pairs c params worker out vs s)
  unfolding track_pairs Keeps update_token_mismatch_pair
  Keeps-track_pairs params worker out [] s = (refl, omega arith)
  Keeps-track_pairs params worker out (v ∷ vs) s = Keeps-track_pairs params worker out vs _

  pub Keeps-increment_dishonest_count :
      (worker : ℕ) (params : Params) (s : Store S)
      → KeeperLaws c
      → Keeps s (increment_dishonest_count c worker params s)
  unfolding increment_dishonest_count Keeps
  Keeps-increment_dishonest_count worker params s laws =
      (ground arith, ground (arith, laws.jail_keeps s.outer worker))

  pub Keeps-put_off : (e : SettlementEntry) (s : Store S) → Keeps s (put_off c e s)
  unfolding put_off Keeps
  Keeps-put_off e s = (refl, omega arith)

  -- The store that the per-token branch leaves.
  Keeps-per_token_fee :
      (params : Params) (worker : ℕ) (e : SettlementEntry) (s t : Store S) (fee : ℤ)
      → KeeperLaws c
      → per_token_fee c params worker e s ≡ ok (fee, t)
      → Keeps s t
  unfolding per_token_fee
  Keeps-per_token_fee params worker e s t fee laws h =
      let resolution =
        resolve_token_counts e params.token_count_tolerance params.token_count_tolerance_pct in
      let s1 : Store S =
        if resolution.worker_dishonest then increment_dishonest_count c worker params s else s in
      let s2 : Store S =
        track_pairs c params e.worker_address resolution.output_tokens e.verifier_results s1 in
      let first : Keeps s s1 = elim (Bool-cases resolution.worker_dishonest) [
        | inl yes' ↦ rw yes' (Keeps-increment_dishonest_count worker params s laws)
        | inr no' ↦ rw no' (Keeps-refl s)
      ] in
      let second =
        Keeps-track_pairs params e.worker_address resolution.output_tokens e.verifier_results s1 in
      elim (Result-cases (uint64 e.max_fee.amount)) [
        | inl (max_fee, fits) ↦
            let end : t ≡ s2 = ground arith in rw end (Keeps-trans s s1 s2 first second)
        | inr (inl (x, refused)) ↦ ground arith
        | inr (inr panics) ↦ ground arith
      ]

  pub Keeps-actual_fee :
      (params : Params) (worker : ℕ) (e : SettlementEntry) (s t : Store S) (fee : ℤ)
      → KeeperLaws c
      → actual_fee c params worker e s ≡ ok (fee, t)
      → Keeps s t
  unfolding actual_fee
  Keeps-actual_fee params worker e s t fee laws h = elim (Bool-cases (is_per_token e)) [
    | inl per_token ↦ elim (Bool-cases params.per_token_billing_enabled) [
      | inl enabled ↦ Keeps-per_token_fee params worker e s t fee laws (ground arith)
      | inr disabled ↦ let end : t ≡ s = ground arith in rw end (Keeps-refl s)
    ]
    | inr per_request ↦ let end : t ≡ s = ground arith in rw end (Keeps-refl s)
  ]

  pub Keeps-credit_worker :
      (worker : ℕ) (fee : ℤ) (e : SettlementEntry) (s t : Store S)
      → KeeperLaws c
      → credit_worker c worker fee e s ≡ ok t
      → Keeps s t
  unfolding credit_worker Keeps
  Keeps-credit_worker worker fee e s t laws h =
      let streak = c.increment_success_streak s.outer worker in
      let stats = c.update_worker_stats streak worker fee in
      let accepted = c.reputation_on_accept stats worker in
      let timed = c.update_avg_latency accepted worker (u32 e.latency_ms) in
      elim (Bool-cases (e.model_id == 0)) [
        | inl no_model ↦ (
          ground arith,
          ground (
            arith,
            laws.streak_keeps s.outer worker,
            laws.stats_keeps streak worker fee,
            laws.accept_keeps stats worker,
            laws.latency_keeps accepted worker (u32 e.latency_ms),
          ),
        )
        | inr model ↦ elim (Result-cases (uint64 fee)) [
          | inl (n, fits) ↦ (
            ground arith,
            ground (
              arith,
              laws.streak_keeps s.outer worker,
              laws.stats_keeps streak worker fee,
              laws.accept_keeps stats worker,
              laws.latency_keeps accepted worker (u32 e.latency_ms),
              laws.model_keeps accepted e.model_id n e.latency_ms,
              laws.model_keeps timed e.model_id n e.latency_ms,
            ),
          )
          | inr (inl (x, refused)) ↦ ground arith
          | inr (inr panics) ↦ ground arith
        ]
      ]

  pub Keeps-done :
      (status : TaskStatus) (fee : ℤ) (e : SettlementEntry) (s : Store S)
      → Keeps s (done c status fee e s)
  unfolding Keeps
  Keeps-done status fee e s = (refl, omega arith)

  pub Keeps-jail :
      (worker : ℕ) (s : Store S)
      → KeeperLaws c
      → Keeps s (record s { outer = c.jail_worker s.outer worker })
  unfolding Keeps
  Keeps-jail worker s laws = (refl, laws.jail_keeps s.outer worker)
