-- ===== src/Worker/Reputation.antt =====
-- x/worker/keeper/keeper.go: reputation scores and the average latency. Subtractions stop at 0 as the
-- code's branches do.
use funai_chain.Base.{ℕ, ◌+◌, ◌-◌, ◌*◌, ◌/◌, Bool, ltb, leb, ◌==◌, if◌then◌else◌, none, some, u32}
use funai_chain.Worker.Types.{Worker, is_active, reputation_initial, reputation_max}
use funai_chain.Worker.Keeper.{
  Register, WorkerContext, get_worker, set_worker, get_all_workers, for_workers,
}

-- `ensureReputation`: a score of 0 counts as not yet set.
abbrev pub ensure_reputation : Worker → ℕ
ensure_reputation w = if w.reputation_score == 0 then reputation_initial else w.reputation_score

abbrev pub accepted_score : ℕ → ℕ
accepted_score score =
    let more = u32 (score + 100) in if ltb reputation_max more then reputation_max else more

abbrev pub lowered : ℕ → ℕ → ℕ
lowered delta score = if ltb delta score then score - delta else 0

abbrev pub rejected_worker : Worker → Worker
rejected_worker w =
    let score = ensure_reputation w in
    let rejects = u32 (w.consecutive_rejects + 1) in
    if leb 10 rejects
    then record w { reputation_score = lowered 500 score; consecutive_rejects = 0 }
    else record w { reputation_score = score; consecutive_rejects = rejects }

-- One hour's step of a score towards the initial one. The uint32 subtraction of the code stays above
-- 0 where it is reached.
unfoldable pub decayed_score : ℕ → ℕ
decayed_score score =
    if ltb reputation_initial score
    then (if leb reputation_initial (score - 50) then score - 50 else reputation_initial)
    else if ltb score reputation_initial
    then (if leb (score + 50) reputation_initial then score + 50 else reputation_initial)
    else score

-- uint32 arithmetic, which wraps for an average from 2^30 milliseconds on.
unfoldable pub average_latency : ℕ → ℕ → ℕ
average_latency old sample = if old == 0 then sample else u32 (u32 (old * 4) + sample) / 5

module _ {S : Type 0} (c : WorkerContext S) where
  unfoldable pub reputation_on_accept : ℕ → Register S → Register S
  reputation_on_accept a s = elim (get_worker a s) [
    | none ↦ s
    | some w ↦
        set_worker c
          (record w {
            reputation_score = accepted_score (ensure_reputation w);
            consecutive_rejects = 0;
          })
          s
  ]

  -- The penalty is doubled for a second verifier.
  unfoldable pub reputation_on_miss : ℕ → Bool → Register S → Register S
  reputation_on_miss a is_second_verifier s = elim (get_worker a s) [
    | none ↦ s
    | some w ↦
        let delta = if is_second_verifier then 2000 else 1000 in
        set_worker c (record w { reputation_score = lowered delta (ensure_reputation w) }) s
  ]

  unfoldable pub reputation_on_reject : ℕ → Bool → Register S → Register S
  reputation_on_reject a is_busy s =
      let rejected : Register S = elim (get_worker a s) [
        | none ↦ s
        | some w ↦ set_worker c (rejected_worker w) s
      ] in
      if is_busy then s else rejected

  unfoldable pub decay_worker : Worker → Register S → Register S
  decay_worker w s =
      let decayed = record w { reputation_score = decayed_score (ensure_reputation w) } in
      if is_active w then set_worker c decayed s else s

  unfoldable pub reputation_decay_all : Register S → Register S
  unfolding for_workers decay_worker
  reputation_decay_all s = for_workers decay_worker (get_all_workers s) s

  unfoldable pub update_avg_latency : ℕ → ℕ → Register S → Register S
  unfolding average_latency
  update_avg_latency a sample s = elim (get_worker a s) [
    | none ↦ s
    | some w ↦
        if sample == 0
        then s
        else set_worker c (record w { avg_latency_ms = average_latency w.avg_latency_ms sample }) s
  ]
