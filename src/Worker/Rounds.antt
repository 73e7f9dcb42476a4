-- ===== src/Worker/Rounds.antt =====
-- x/worker/keeper/keeper.go: what the loops over all workers do to one worker, for the hourly decay and
-- for the end of an exit's waiting period.
use funai_chain.Base.{
  Bool, ℕ, suc, zero, ◌+◌, ◌-◌, ◌*◌, ◌≤◌, ◌≡◌, ◌==◌, ◌∙◌, true, false, ltb, Option, none, some, [],
  ◌∷◌, Dict, lookup, get_or, arith, refl, total-insert, total-erase, ◌≢◌, IsDict, Each, Each-away,
  Each-both, Each-current, lookup-insert, lookup-erase, Bool-cases, inl, inr,
}
use funai_chain.Worker.Types.{
  Worker, WorkerParams, default_worker_params, is_active, is_status_exiting, reputation_initial,
}
use funai_chain.Worker.Keeper.{Register, WorkerContext, for_workers, values, get_worker_params}
use funai_chain.Worker.Jail.{release_worker, process_exiting_worker, process_exiting_workers}
use funai_chain.Worker.Reputation.{
  ensure_reputation, decayed_score, decay_worker, reputation_decay_all,
}
use funai_chain.Worker.Change.{
  Change, same, update, enrol, leave, chain, IsSolid, IsBacked, IsLocal, IsKeyed, IsPending,
  Change-IsSolid, lookup-IsKeyed,
}
use funai_chain.Worker.Change.Jail.{process_exiting_worker-IsLocal}
use funai_chain.Worker.Change.Score.{decay_worker-IsLocal, reputation_decay_all-Change}

module _ {S : Type 0} (decode : ℕ → Option ℕ) (held : S → ℕ) where
  Change-params : (s t : Register S) → Change decode held s t → t.params ≡ s.params
  Change-params s t (same _ _ e p h) = p
  Change-params s t (update _ _ a w w' found moves e p h) = p
  Change-params s t (enrol _ _ a w fresh key sound e p h) = p
  Change-params s t (leave _ _ a w found status e p h) = p
  Change-params s u (chain _ t _ first next) = Change-params t u next ∙ Change-params s t first

  -- What one round does to its own worker is what the loop does to it.
  abbrev IsRound :
      (Worker → Register S → Register S) → Option WorkerParams → ℕ → Worker → Option Worker → Type 0
  IsRound step p a w r =
      (t : Register S)
      → IsSolid decode held t
      → t.params ≡ p
      → lookup a t.workers ≡ some w
      → lookup a (step w t).workers ≡ r

  for_workers_pending_at :
      (step : Worker → Register S → Register S) (d : Dict Worker) (s : Register S)
      (p : Option WorkerParams) (a : ℕ) (w : Worker) (r : Option Worker)
      → IsLocal decode held step
      → IsRound step p a w r
      → IsDict d
      → Each (IsPending decode held s) d
      → IsSolid decode held s
      → s.params ≡ p
      → (lookup a d ≡ some w → lookup a (for_workers step (values d) s).workers ≡ r)
        × (lookup a d ≡ none
            → lookup a (for_workers step (values d) s).workers ≡ lookup a s.workers)
  unfolding for_workers
  for_workers_pending_at step [] s p a w r local round dict h i same_params = (λ e. cc, λ e. refl)
  for_workers_pending_at step (e ∷ d) s p a w r local round dict h i same_params =
      let (first, elsewhere) = local e.0 e.1 s h.0.1 h.0.0 in
      let rest =
        for_workers_pending_at step d (step e.1 s) p a w r local round dict.1
          (Each-away (IsPending decode held s) (IsPending decode held (step e.1 s)) e.0 d
            (λ j v away there. (elsewhere j away ∙ there.0, there.1)) dict.0 h.1)
          (Change-IsSolid decode held s (step e.1 s) first i)
          (Change-params s (step e.1 s) first ∙ same_params) in
      elim (Bool-cases (a == e.0)) [
        | inr away ↦ (
          λ there. rest.0 (ground (arith, away, there)),
          λ missing. rest.1 (ground (arith, away, missing)) ∙ elsewhere a away,
        )
        | inl here ↦
            let key : a ≡ e.0 = ground arith in
            (
              λ there.
                  let mine : e.1 ≡ w = ground (arith, here, there) in
                  let gone : lookup a d ≡ none = rw key dict.0 in
                  let now : lookup a s.workers ≡ some w = rw (key, ← mine) h.0.0 in
                  rest.1 gone ∙ rw mine (round s i same_params now),
              λ missing. absurd (ground (arith, here, missing)),
            )
      ]

  pub for_workers_at :
      (step : Worker → Register S → Register S) (s : Register S) (a : ℕ) (w : Worker)
      (r : Option Worker)
      → IsLocal decode held step
      → IsRound step s.params a w r
      → IsSolid decode held s
      → lookup a s.workers ≡ some w
      → lookup a (for_workers step (values s.workers) s).workers ≡ r
  for_workers_at step s a w r local round i there =
      (for_workers_pending_at step s.workers s s.params a w r local round i.dict
          (Each-both (λ k v. lookup k s.workers ≡ some v) (IsKeyed decode held) s.workers
            (Each-current s.workers i.dict) i.keyed)
          i refl).0
        there

module _ {S : Type 0} (c : WorkerContext S) where
  -- The bank pays out what the account holds, to an address that it does not block.
  abbrev pub Pays : (ℕ → Bool) → Type 0
  Pays blocked =
      (o : S) (a n : ℕ)
      → blocked a ≡ false
      → n ≤ c.held o
      → (o' : S) × (c.stake_out o a n ≡ some o')

  stake-le-held :
      (a : ℕ) (w : Worker) (s : Register S)
      → IsSolid c.decode c.held s
      → lookup a s.workers ≡ some w
      → w.stake ≤ c.held s.outer
  stake-le-held a w s i there = ground (
    arith,
    i.staked,
    total-insert (λ (x : Worker). x.stake) a w s.workers,
    total-erase (λ (x : Worker). x.stake) a s.workers,
  )

  release_worker-gone :
      (blocked : ℕ → Bool) (a : ℕ) (w : Worker) (s : Register S)
      → Pays blocked
      → blocked a ≡ false
      → w.stake ≤ c.held s.outer
      → lookup a (release_worker c w a s).workers ≡ none
  unfolding release_worker
  release_worker-gone blocked a w s pays free h =
      let (o, paid) = pays s.outer a w.stake free h in
      ground (arith, paid, lookup-erase a a s.workers)

  process_exiting_worker-IsRound :
      (blocked : ℕ → Bool) (a : ℕ) (w : Worker) (p : Option WorkerParams)
      → Pays blocked
      → blocked a ≡ false
      → is_status_exiting w.status ≡ true
      → (w.exit_requested_at == 0) ≡ false
      → ltb (c.height - w.exit_requested_at) (get_or default_worker_params p).exit_wait_period
        ≡ false
      → IsRound c.decode c.held (process_exiting_worker c) p a w none
  unfolding process_exiting_worker
  process_exiting_worker-IsRound blocked a w p pays free leaves asked over t i same_params there =
      let known = (lookup-IsKeyed c.decode c.held t a w i there).0 in
      let due : ltb (c.height - w.exit_requested_at) (get_worker_params t).exit_wait_period
          ≡ false =
        rw same_params over in
      rw (process_exiting_worker, leaves, asked, due, known)
        (release_worker-gone blocked a w t pays free (stake-le-held a w t i there))

  -- In a solid register, and with a bank that pays what the account holds to every address that it
  -- does not block, the end of a block releases every exiting worker whose address is not blocked and
  -- whose waiting period is over: the register no longer has it.
  pub process_exiting_workers-releases :
      (blocked : ℕ → Bool) (s : Register S) (a : ℕ) (w : Worker)
      → IsBacked c
      → Pays blocked
      → blocked a ≡ false
      → IsSolid c.decode c.held s
      → lookup a s.workers ≡ some w
      → is_status_exiting w.status ≡ true
      → (w.exit_requested_at == 0) ≡ false
      → ltb (c.height - w.exit_requested_at) (get_worker_params s).exit_wait_period ≡ false
      → lookup a (process_exiting_workers c s).workers ≡ none
  unfolding process_exiting_workers
  process_exiting_workers-releases blocked s a w b pays free i there leaves asked over =
      for_workers_at c.decode c.held (process_exiting_worker c) s a w none
        (process_exiting_worker-IsLocal c b)
        (process_exiting_worker-IsRound blocked a w s.params pays free leaves asked over) i there

  -- The record after one hour.
  abbrev aged : Worker → Worker
  aged w = record w { reputation_score = decayed_score (ensure_reputation w) }

  decay_worker-IsRound :
      (a : ℕ) (w : Worker) (p : Option WorkerParams)
      → is_active w ≡ true
      → IsRound c.decode c.held (decay_worker c) p a w (some (aged w))
  unfolding decay_worker
  decay_worker-IsRound a w p works t i same_params there =
      let known = (lookup-IsKeyed c.decode c.held t a w i there).0 in
      rw (decay_worker, works, known) (ground (arith, lookup-insert a a (aged w) t.workers))

  reputation_decay_all-lookup :
      (s : Register S) (a : ℕ) (w : Worker)
      → IsSolid c.decode c.held s
      → lookup a s.workers ≡ some w
      → is_active w ≡ true
      → lookup a (reputation_decay_all c s).workers ≡ some (aged w)
  unfolding reputation_decay_all
  reputation_decay_all-lookup s a w i there works =
      for_workers_at c.decode c.held (decay_worker c) s a w (some (aged w)) (decay_worker-IsLocal c)
        (decay_worker-IsRound a w s.params works) i there

  -- Some hours in which nothing else happens.
  abbrev pub hours : ℕ → Register S → Register S
  hours zero s = s
  hours (suc n) s = hours n (reputation_decay_all c s)

  settles :
      (n : ℕ) (s : Register S) (a : ℕ) (w : Worker)
      → IsSolid c.decode c.held s
      → lookup a s.workers ≡ some w
      → is_active w ≡ true
      → w.reputation_score ≢ 0
      → w.reputation_score ≤ 10000 + 50 * n
      → 10000 ≤ w.reputation_score + 50 * n
      → lookup a (hours n s).workers ≡ some (record w { reputation_score = reputation_initial })
  unfolding decayed_score
  settles zero s a w i there works nonzero above below =
      let score : w.reputation_score ≡ 10000 = omega arith in ground (arith, there)
  settles (suc n) s a w i there works nonzero above below =
      settles n (reputation_decay_all c s) a (aged w)
        (Change-IsSolid c.decode c.held s (reputation_decay_all c s)
          (reputation_decay_all-Change c s i) i)
        (reputation_decay_all-lookup s a w i there works) works (ground arith) (ground arith)
        (ground arith)

  -- Whatever the score of an active worker of a solid register, after 201 hours in which nothing
  -- else happens it is the initial one, and the rest of the record is as before.
  pub hours-settle :
      (s : Register S) (a : ℕ) (w : Worker) (n : ℕ)
      → IsSolid c.decode c.held s
      → lookup a s.workers ≡ some w
      → is_active w ≡ true
      → 201 ≤ n
      → lookup a (hours n s).workers ≡ some (record w { reputation_score = reputation_initial })
  unfolding decayed_score
  hours-settle s a w zero i there works h = absurd (omega arith)
  hours-settle s a w (suc n) i there works h =
      let sound = (lookup-IsKeyed c.decode c.held s a w i there).1 in
      settles n (reputation_decay_all c s) a (aged w)
        (Change-IsSolid c.decode c.held s (reputation_decay_all c s)
          (reputation_decay_all-Change c s i) i)
        (reputation_decay_all-lookup s a w i there works) works (ground arith)
        (ground (arith, sound.reputed)) (ground (arith, sound.reputed))
