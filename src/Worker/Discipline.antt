-- ===== src/Worker/Discipline.antt =====
-- x/worker/keeper/keeper.go: when a release succeeds, how jail terms escalate, and the average of the
-- latency.
use funai_chain.Base.{
  ℕ, ◌+◌, ◌-◌, ◌*◌, ◌/◌, ◌^◌, ◌≤◌, ◌<◌, ◌≡◌, ◌≢◌, ◌==◌, ◌⊎◌, true, false, leb, none, some, lookup,
  arith, refl, Bool-cases, Option-cases, inl, inr, if◌then◌else◌, u32, lookup-insert_self,
}
use funai_chain.Base.Result.{ok, err}
use funai_chain.Worker.Types.{
  Worker, active, jailed, can_unjail, worker_not_jailed, worker_tombstoned, jail_period_not_elapsed,
}
use funai_chain.Worker.Keeper.{Register, WorkerContext, set_worker, notify, get_worker_params}
use funai_chain.Worker.Jail.{
  jail_worker, jail_for_good, jail_for_a_while, slash_worker_internal, slash_worker, unjail_worker,
  tombstoned_worker,
}
use funai_chain.Worker.Reputation.{average_latency}
use funai_chain.Worker.Change.{IsSolid, lookup-IsKeyed}

module _ {S : Type 0} (c : WorkerContext S) where
  -- The outcome of a release, on every branch.
  abbrev pub IsReleased : ℕ → Worker → Register S → Type 0
  IsReleased a w s =
      ((can_unjail w c.height ≡ true)
        × ((t : Register S) × (unjail_worker c a s ≡ ok t)
            × (lookup a t.workers
                ≡ some (record w { is_jailed = false; status = active; jail_until = 0 }))))
      ⊎ ((can_unjail w c.height ≡ false)
          × (unjail_worker c a s
              ≡ err (
                  if w.is_jailed
                  then (if w.tombstoned then worker_tombstoned else jail_period_not_elapsed)
                  else worker_not_jailed)))

  -- In a solid register, the release of a stored worker succeeds exactly if the worker is jailed, not
  -- tombstoned and past the end of its term; then it is active, with its counters as they were, and
  -- otherwise an error tells which condition fails.
  pub unjail_worker_lem :
      (a : ℕ) (w : Worker) (s : Register S)
      → IsSolid c.decode c.held s
      → lookup a s.workers ≡ some w
      → IsReleased a w s
  unfolding unjail_worker
  unjail_worker_lem a w s i there =
      let known = (lookup-IsKeyed c.decode c.held s a w i there).0 in
      let freed = record w { is_jailed = false; status = active; jail_until = 0 } in
      elim (Bool-cases (can_unjail w c.height)) [
        | inl may ↦ inl (
          may,
          (
            notify c a (set_worker c freed s),
            ground (arith, there, may),
            rw known (lookup-insert_self a freed s.workers),
          ),
        )
        | inr may_not ↦ inr (may_not, ground (arith, there, may_not))
      ]

  -- What is left of a stake after a slash: the percentage is gone if it is not 0 and the bank burns
  -- it, and the stake stays if it is 0 or the bank refuses.
  abbrev pub IsSlashed : Register S → ℕ → ℕ → ℕ → Type 0
  IsSlashed s percent old new =
      let cut = old * percent / 100 in
      (((cut ≡ 0) ⊎ (c.burn s.outer cut ≡ none)) × (new ≡ old))
      ⊎ ((cut ≢ 0) × ((o : S) × (c.burn s.outer cut ≡ some o)) × (new + cut ≡ old))

  -- The record after an offence, by the number of offences before it.
  abbrev pub IsPunished : Register S → Worker → Worker → Type 0
  IsPunished s w w' =
      let params = get_worker_params s in
      (w'.is_jailed ≡ true)
      × (((w.jail_count < 2)
            × (w'.jail_count ≡ w.jail_count + 1)
            × (w'.tombstoned ≡ false)
            × (w'.stake ≡ w.stake)
            × (w'.jail_until
                ≡ c.height
                  + (if w.jail_count == 0 then params.jail1_duration else params.jail2_duration)))
          ⊎ ((w.jail_count ≡ 2)
              × (w'.tombstoned ≡ true)
              × IsSlashed s params.slash_fraud_percent w.stake w'.stake))

  slash_worker-lookup :
      (a percent : ℕ) (w : Worker) (s : Register S)
      → c.decode w.address ≡ some a
      → lookup a s.workers ≡ some w
      → percent ≤ 100
      → (n : ℕ) × (lookup a (slash_worker c a percent s).workers ≡ some (record w { stake = n }))
        × IsSlashed s percent w.stake n
  unfolding slash_worker_internal
  slash_worker-lookup a percent w s known there h =
      let cut = w.stake * percent / 100 in
      let part : cut ≤ w.stake = grind arith in
      elim (Bool-cases (w.stake == 0)) [
        | inl bare ↦
            let nothing : cut ≡ 0 = grind (arith, bare, part) in
            (w.stake, ground (arith, there, bare), inl (inl nothing, refl))
        | inr rich ↦ elim (Bool-cases (cut == 0)) [
          | inl small ↦
              (w.stake, ground (arith, there, rich, small), inl (inl (ground (arith, small)), refl))
          | inr big ↦ elim (Option-cases (c.burn s.outer cut)) [
            | inl refused ↦
                (w.stake, ground (arith, there, rich, big, refused), inl (inr refused, refl))
            | inr (o, paid) ↦
                let w' = record w { stake = w.stake - cut } in
                (
                  w.stake - cut,
                  ground (arith, there, rich, big, paid, known, lookup-insert_self a w' s.workers),
                  inr (λ z. ground (arith, big, z), (o, paid), omega (arith, part)),
                )
          ]
        ]
      ]

  -- In a solid register, an offence of a stored worker that is not tombstoned jails it: for the first
  -- term after no offence, for the second after one, with its stake kept; the third tombstones it,
  -- and its stake loses the percentage of the parameters if the bank burns that much, and stays if the
  -- bank refuses or the percentage rounds to nothing.
  pub jail_worker_lem :
      (a : ℕ) (w : Worker) (s : Register S)
      → IsSolid c.decode c.held s
      → lookup a s.workers ≡ some w
      → w.tombstoned ≡ false
      → (w' : Worker) × (lookup a (jail_worker c a s).workers ≡ some w') × IsPunished s w w'
  unfolding jail_worker jail_for_a_while jail_for_good
  jail_worker_lem a w s i there free =
      let (known, sound) = lookup-IsKeyed c.decode c.held s a w i there in
      let count = w.jail_count + 1 in
      elim (Bool-cases (leb 3 (u32 (w.jail_count + 1)))) [
        | inr few ↦
            let params = get_worker_params s in
            let w' = record w {
              jail_count = u32 count;
              success_streak = 0;
              is_jailed = true;
              status = jailed;
              jail_until =
                  c.height
                  + (if u32 count == 1 then params.jail1_duration else params.jail2_duration);
            } in
            (
              w',
              ground (arith, there, free, few, known, lookup-insert_self a w' s.workers),
              (
                refl,
                inl (
                  ground (arith, sound.offences),
                  ground (arith, sound.offences),
                  free,
                  refl,
                  ground (arith, sound.offences),
                ),
              ),
            )
        | inl third ↦
            let percent = (get_worker_params s).slash_fraud_percent in
            let t = slash_worker c a percent s in
            let (n, left, cut) = slash_worker-lookup a percent w s known there i.fair in
            let w' = tombstoned_worker (record w { stake = n }) in
            (
              w',
              ground (arith, there, free, third, left, known, lookup-insert_self a w' t.workers),
              (refl, inr (ground (arith, sound.offences), refl, cut)),
            )
      ]

abbrev pub IsAveraged : ℕ → ℕ → Type 0
IsAveraged old sample =
    let new = average_latency old sample in
    (old ≡ 0 → new ≡ sample)
    × (old ≢ 0 → old ≤ sample → (old ≤ new) × (new ≤ sample))
    × (sample ≤ old → (sample ≤ new) × (new ≤ old))

-- Where four times the old average and the sample together fit a uint32, the new average of the
-- latency does not wrap: it lies between the old average and the sample, and is the sample where
-- there is no old average.
pub average_latency_bounds : (old sample : ℕ) → old * 4 + sample < 2 ^ 32 → IsAveraged old sample
unfolding average_latency
average_latency_bounds old sample h = (λ z. ground arith, λ nz le. ground arith, λ le. ground arith)
