-- ===== src/Worker/Change/Score.antt =====
-- x/worker/keeper/keeper.go: the updates of reputation and latency change the register only in the
-- ways of `Change`.
use funai_chain.Base.{
  ℕ, ◌≤◌, ◌≡◌, ◌==◌, Bool, true, false, lookup, arith, refl, Bool-cases, Option-cases, inl, inr,
  lookup-insert, get_or,
}
use funai_chain.Worker.Types.{Worker, is_active}
use funai_chain.Worker.Keeper.{Register, WorkerContext}
use funai_chain.Worker.Reputation.{
  ensure_reputation, rejected_worker, decayed_score, reputation_on_accept, reputation_on_miss,
  reputation_on_reject, decay_worker, reputation_decay_all, update_avg_latency,
}
use funai_chain.Worker.Change.{
  Change, same, Moves, IsSolid, IsLocal, set_worker-Change, for_workers-Change,
}

-- A new score in range leaves a record sound.
scored-Moves :
    (w : Worker) (score : ℕ) → score ≤ 12000 → Moves w (record w { reputation_score = score })
scored-Moves w score h = ground arith

ensure_reputation-le : (w : Worker) → w.reputation_score ≤ 12000 → ensure_reputation w ≤ 12000
ensure_reputation-le w h = ground arith

pub decayed_score-le : (x : ℕ) → x ≤ 12000 → decayed_score x ≤ 12000
unfolding decayed_score
decayed_score-le x h = ground arith

module _ {S : Type 0} (c : WorkerContext S) where
  abbrev Changes : (Register S → Register S) → Type 0
  Changes op = (s : Register S) → Change c.decode c.held s (op s)

  unchanged : (s : Register S) → Change c.decode c.held s s
  unchanged s = same s s refl refl (omega arith)

  pub reputation_on_accept-Change : (a : ℕ) → Changes (reputation_on_accept c a)
  unfolding reputation_on_accept
  reputation_on_accept-Change a s = elim (Option-cases (lookup a s.workers)) [
    | inl missing ↦ rw (reputation_on_accept, missing) (unchanged s)
    | inr (w, there) ↦
        rw (reputation_on_accept, there)
          (set_worker-Change c a w _ s.outer s there (ground arith) (omega arith))
  ]

  pub reputation_on_miss-Change : (a : ℕ) (second : Bool) → Changes (reputation_on_miss c a second)
  unfolding reputation_on_miss
  reputation_on_miss-Change a second s = elim (Option-cases (lookup a s.workers)) [
    | inl missing ↦ rw (reputation_on_miss, missing) (unchanged s)
    | inr (w, there) ↦
        rw (reputation_on_miss, there)
          (set_worker-Change c a w _ s.outer s there (ground arith) (omega arith))
  ]

  pub reputation_on_reject-Change : (a : ℕ) (busy : Bool) → Changes (reputation_on_reject c a busy)
  unfolding reputation_on_reject
  reputation_on_reject-Change a true s = unchanged s
  reputation_on_reject-Change a false s = elim (Option-cases (lookup a s.workers)) [
    | inl missing ↦ rw (reputation_on_reject, missing) (unchanged s)
    | inr (w, there) ↦
        rw (reputation_on_reject, there)
          (set_worker-Change c a w (rejected_worker w) s.outer s there (ground arith)
            (ground arith))
  ]

  pub update_avg_latency-Change : (a sample : ℕ) → Changes (update_avg_latency c a sample)
  unfolding update_avg_latency
  update_avg_latency-Change a sample s = elim (Option-cases (lookup a s.workers)) [
    | inl missing ↦ rw (update_avg_latency, missing) (unchanged s)
    | inr (w, there) ↦ elim (Bool-cases (sample == 0)) [
      | inl absent ↦ rw (update_avg_latency, there, absent) (unchanged s)
      | inr given ↦
          rw (update_avg_latency, there, given)
            (set_worker-Change c a w _ s.outer s there (ground arith) (omega arith))
    ]
  ]

  pub decay_worker-IsLocal : IsLocal c.decode c.held (decay_worker c)
  unfolding decay_worker
  decay_worker-IsLocal k w s known there =
      let w' = record w { reputation_score = decayed_score (ensure_reputation w) } in
      let key : get_or 0 (c.decode w.address) ≡ k = rw known.0 refl in
      elim (Bool-cases (is_active w)) [
        | inr idle ↦ rw (decay_worker, idle) (unchanged s, λ j away. refl)
        | inl works ↦
            rw (decay_worker, works)
              (
                set_worker-Change c k w w' s.outer s there
                    (ground (arith, decayed_score-le (ensure_reputation w))) (omega arith),
                λ j away. rw key (ground (arith, lookup-insert j k w' s.workers)),
              )
      ]

  pub reputation_decay_all-Change :
      (s : Register S)
      → IsSolid c.decode c.held s
      → Change c.decode c.held s (reputation_decay_all c s)
  unfolding reputation_decay_all
  reputation_decay_all-Change s i =
      for_workers-Change c.decode c.held (decay_worker c) s decay_worker-IsLocal i
