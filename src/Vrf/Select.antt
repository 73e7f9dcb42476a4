-- ===== src/Vrf/Select.antt =====
-- x/vrf/keeper/keeper.go: the draws for one task, by the statuses of the workers.
use funai_chain.Base.{
  ℕ, zero, suc, ◌||◌, ◌&&◌, not, Bool, false, ◌==◌, leb, if◌then◌else◌, List, [], ◌∷◌, ◌++◌, Dict,
  length,
}
use funai_chain.Base.Result.{Result, ok, err}
use funai_chain.Vrf.Types.{
  Bytes, VrfAlpha, alpha_dispatch, alpha_verification, alpha_second_third_verification, VrfError,
  no_online_workers, not_enough, VrfWorkerStatus, WorkerRank,
}
use funai_chain.Vrf.Rank.{RankedWorker, Scored, rank_workers, compute_score}
use funai_chain.Vrf.Keeper.{VrfStore, VrfContext, get_current_seed}

abbrev pub has : ℕ → List ℕ → Bool
has m [] = false
has m (n ∷ ns) = m == n || has m ns

abbrev pub online : ℕ → Dict VrfWorkerStatus → List VrfWorkerStatus
online model [] = []
online model (e ∷ d) =
    let rest = online model d in
    if e.1.is_online && has model e.1.model_ids then e.1 ∷ rest else rest

abbrev pub get_online_workers : ℕ → VrfStore → List VrfWorkerStatus
get_online_workers model s = online model s.statuses

-- An idle worker with a key, where the draw does not leave it out.
abbrev pub may_serve : (ℕ → Bool) → VrfWorkerStatus → Bool
may_serve left_out w = not (left_out w.address) && not w.is_busy && not (length w.pubkey == 0)

abbrev pub stake_of : VrfWorkerStatus → ℕ
stake_of w = if w.stake == 0 then 1 else w.stake

abbrev pub take {ℓ} : {A : Type ℓ} → ℕ → List A → List A
take zero xs = []
take (suc n) [] = []
take (suc n) (x ∷ xs) = x ∷ take n xs

module _ {F G : Type 0} (c : VrfContext F G) where
  -- The reputation and the latency keep the zero values of the struct.
  abbrev pub ranked_worker : ℕ → Bytes → ℕ → RankedWorker F
  ranked_worker a key stake = record {
    address = a;
    pubkey = key;
    stake = stake;
    reputation = c.floats.literal 0 10;
    avg_latency_ms = 0;
  }

  unfoldable pub candidates : (ℕ → Bool) → List VrfWorkerStatus → List (RankedWorker F)
  candidates left_out [] = []
  candidates left_out (w ∷ ws) =
      let rest = candidates left_out ws in
      if may_serve left_out w then ranked_worker w.address w.pubkey (stake_of w) ∷ rest else rest

  abbrev pub addresses : List (Scored c.floats) → List ℕ
  addresses [] = []
  addresses (e ∷ es) = e.1.address ∷ addresses es

  -- The hash of the block, or the seed where there is none.
  abbrev pub block_hash : VrfStore → Bytes
  block_hash s = if length c.header_hash == 0 then (get_current_seed c s).value else c.header_hash

  abbrev pub task_seed : ℕ → Bytes → Bytes
  task_seed task bytes = c.floats.sha256 (c.bytes_of task ++ bytes)

  -- The first `count` of the ranking of those who may serve, or all of them.
  unfoldable pub draw :
      Bytes → VrfAlpha → (ℕ → Bool) → ℕ → List VrfWorkerStatus → Result VrfError (List ℕ)
  unfolding candidates rank_workers
  draw seed alpha left_out count workers =
      let able = candidates left_out workers in
      let n = if leb count (length able) then count else length able in
      if length workers == 0
      then err no_online_workers
      else if n == 0
      then err not_enough
      else ok (take n (addresses (rank_workers c.floats seed alpha able)))

  unfoldable pub select_second_verifiers_for_task :
      ℕ → ℕ → List ℕ → ℕ → VrfStore → Result VrfError (List ℕ)
  unfolding draw
  select_second_verifiers_for_task task model excluded count s =
      draw (task_seed task (block_hash s)) alpha_second_third_verification (λ a. has a excluded)
        count (get_online_workers model s)

  unfoldable pub select_verifiers_for_task :
      ℕ → Bytes → ℕ → ℕ → ℕ → VrfStore → Result VrfError (List ℕ)
  unfolding draw
  select_verifiers_for_task task result_hash model executor count s =
      draw (task_seed task result_hash) alpha_verification (λ a. a == executor) count
        (get_online_workers model s)

  -- The first of the ranking; the event is not kept.
  unfoldable pub select_worker_for_task : ℕ → ℕ → VrfStore → Result VrfError ℕ
  unfolding candidates rank_workers
  select_worker_for_task task model s =
      let workers = get_online_workers model s in
      let able = candidates (λ a. false) workers in
      let seed = task_seed task (block_hash s) in
      if length workers == 0
      then err no_online_workers
      else elim (addresses (rank_workers c.floats seed alpha_dispatch able)) [
        | [] ↦ err not_enough
        | a ∷ _ ↦ ok a
      ]

  -- The key is its bytes here, decoded from hexadecimal where it is that.
  unfoldable pub compute_worker_rank : ℕ → Bytes → ℕ → Bytes → ℕ → WorkerRank
  unfolding compute_score
  compute_worker_rank task block a key stake =
      let seed = task_seed task block in
      let counted = if stake == 0 then 1 else stake in
      record {
        address = a;
        rank = c.floats.to_uint64 (compute_score c.floats seed key counted alpha_dispatch);
        stake = stake;
        vrf_proof = seed;
      }
