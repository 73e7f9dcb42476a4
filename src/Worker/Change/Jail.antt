-- ===== src/Worker/Change/Jail.antt =====
-- x/worker/keeper/keeper.go: slashing, jail, release and the end of an exit change the register only
-- in the ways of `Change`.
use funai_chain.Base.{
  ℤ, ℕ, ◌+◌, ◌-◌, ◌*◌, ◌/◌, ◌≤◌, ◌≡◌, ◌==◌, true, false, ltb, leb, Option, none, some, lookup,
  arith, refl, Bool-cases, Option-cases, inl, inr, u32, lookup-erase,
}
use funai_chain.Base.Result.{ok}
use funai_chain.Worker.Types.{Worker, active, is_status_exiting}
use funai_chain.Worker.Keeper.{Register, WorkerContext, notify, set_worker, get_worker_params}
use funai_chain.Worker.Jail.{
  tombstoned_worker, slash_out, slash_worker_internal, slash_worker, tombstone_worker,
  jail_for_good, jail_for_a_while, jail_worker, unjail_worker, increment_success_streak,
  update_worker_stats, release_worker, process_exiting_worker, process_exiting_workers,
}
use funai_chain.Worker.Change.{
  Change, same, leave, chain, Moves, IsSolid, IsBacked, IsLocal, set_worker-Change, notify-Change,
  for_workers-Change,
}

tombstoned_worker-Moves : (w : Worker) → Moves w (tombstoned_worker w)
tombstoned_worker-Moves w = ground arith

slashed-Moves : (w : Worker) (amount : ℕ) → Moves w (record w { stake = w.stake - amount })
slashed-Moves w amount = ground arith

module _ {S : Type 0} (c : WorkerContext S) (b : IsBacked c) where
  abbrev Changes : (Register S → Register S) → Type 0
  Changes op = (s : Register S) → Change c.decode c.held s (op s)

  unchanged : (s : Register S) → Change c.decode c.held s s
  unchanged s = same s s refl refl (omega arith)

  slash_out-le :
      (recipient : Option ℕ) (n : ℕ) (s : Register S) (o : S)
      → slash_out c recipient n s ≡ some o
      → c.held s.outer ≤ c.held o + n
  slash_out-le none n s o e = b.burns s.outer n o e
  slash_out-le (some r) n s o e = b.pays_out s.outer r n o e

  pub slash_worker_internal-Change :
      (a percent : ℕ) (recipient : Option ℕ)
      → percent ≤ 100
      → Changes (slash_worker_internal c a percent recipient)
  unfolding slash_worker_internal
  slash_worker_internal-Change a percent recipient h s = elim (Option-cases (lookup a s.workers)) [
    | inl missing ↦ rw (slash_worker_internal, missing) (unchanged s)
    | inr (w, there) ↦
        let n = w.stake * percent / 100 in
        let part : n ≤ w.stake = grind arith in
        elim (Bool-cases (w.stake == 0)) [
          | inl bare ↦ rw (slash_worker_internal, there, bare) (unchanged s)
          | inr rich ↦ elim (Bool-cases (n == 0)) [
            | inl small ↦ rw (slash_worker_internal, there, rich, small) (unchanged s)
            | inr big ↦ elim (Option-cases (slash_out c recipient n s)) [
              | inl refused ↦ rw (slash_worker_internal, there, rich, big, refused) (unchanged s)
              | inr (o, paid) ↦
                  rw (slash_worker_internal, there, rich, big, paid)
                    (notify-Change c a w (record w { stake = w.stake - n }) o s b there
                      (slashed-Moves w n) (omega (arith, slash_out-le recipient n s o paid)))
            ]
          ]
        ]
  ]

  pub tombstone_worker-Change : (a : ℕ) → Changes (tombstone_worker c a)
  unfolding tombstone_worker
  tombstone_worker-Change a s = elim (Option-cases (lookup a s.workers)) [
    | inl missing ↦ rw (tombstone_worker, missing) (unchanged s)
    | inr (w, there) ↦ elim (Bool-cases w.tombstoned) [
      | inl buried ↦ rw (tombstone_worker, there, buried) (unchanged s)
      | inr free ↦
          rw (tombstone_worker, there, free)
            (notify-Change c a w (tombstoned_worker w) s.outer s b there (tombstoned_worker-Moves w)
              (omega arith))
    ]
  ]

  jail_for_good-Change :
      (a : ℕ) (s : Register S)
      → IsSolid c.decode c.held s
      → Change c.decode c.held s (jail_for_good c a s)
  unfolding jail_for_good
  jail_for_good-Change a s i =
      let percent = (get_worker_params s).slash_fraud_percent in
      let t = slash_worker c a percent s in
      let slash : Change c.decode c.held s t =
        slash_worker_internal-Change a percent none i.fair s in
      elim (Option-cases (lookup a t.workers)) [
        | inl missing ↦ rw (jail_for_good, missing) slash
        | inr (w, there) ↦
            rw (jail_for_good, there)
              (chain s t _ slash (
                notify-Change c a w (tombstoned_worker w) t.outer t b there
                  (tombstoned_worker-Moves w) (omega arith)))
      ]

  jail_for_a_while-Change :
      (a : ℕ) (w : Worker) (s : Register S)
      → lookup a s.workers ≡ some w
      → leb 3 (u32 (w.jail_count + 1)) ≡ false
      → Change c.decode c.held s (jail_for_a_while c a w s)
  unfolding jail_for_a_while
  jail_for_a_while-Change a w s there few =
      notify-Change c a w _ s.outer s b there ground arith (omega arith)

  pub jail_worker-Change :
      (a : ℕ) (s : Register S)
      → IsSolid c.decode c.held s
      → Change c.decode c.held s (jail_worker c a s)
  unfolding jail_worker
  jail_worker-Change a s i = elim (Option-cases (lookup a s.workers)) [
    | inl missing ↦ rw (jail_worker, missing) (unchanged s)
    | inr (w, there) ↦ elim (Bool-cases w.tombstoned) [
      | inl buried ↦ rw (jail_worker, there, buried) (unchanged s)
      | inr free ↦ elim (Bool-cases (leb 3 (u32 (w.jail_count + 1)))) [
        | inl third ↦
            let end : jail_worker c a s ≡ jail_for_good c a s = ground (arith, there) in
            rw end (jail_for_good-Change a s i)
        | inr few ↦
            let end : jail_worker c a s ≡ jail_for_a_while c a w s = ground (arith, there) in
            rw end (jail_for_a_while-Change a w s there few)
      ]
    ]
  ]

  pub unjail_worker-Change :
      (a : ℕ) (s t : Register S) → unjail_worker c a s ≡ ok t → Change c.decode c.held s t
  unfolding unjail_worker
  unjail_worker-Change a s t e = elim (Option-cases (lookup a s.workers)) [
    | inl missing ↦ ground (arith, missing)
    | inr (w, there) ↦
        let freed = record w { is_jailed = false; status = active; jail_until = 0 } in
        let free : w.tombstoned ≡ false = ground (arith, there) in
        let end : t ≡ notify c a (set_worker c freed s) = ground (arith, there) in
        rw end (notify-Change c a w freed s.outer s b there (ground arith) (omega arith))
  ]

  pub increment_success_streak-Change : (a : ℕ) → Changes (increment_success_streak c a)
  unfolding increment_success_streak
  increment_success_streak-Change a s = elim (Option-cases (lookup a s.workers)) [
    | inl missing ↦ rw (increment_success_streak, missing) (unchanged s)
    | inr (w, there) ↦
        rw (increment_success_streak, there)
          (set_worker-Change c a w _ s.outer s there (ground arith) (ground arith))
  ]

  pub update_worker_stats-Change : (a : ℕ) (fee : ℤ) → Changes (update_worker_stats c a fee)
  unfolding update_worker_stats
  update_worker_stats-Change a fee s = elim (Option-cases (lookup a s.workers)) [
    | inl missing ↦ rw (update_worker_stats, missing) (unchanged s)
    | inr (w, there) ↦
        rw (update_worker_stats, there)
          (set_worker-Change c a w _ s.outer s there (ground arith) (omega arith))
  ]

  release_worker-Change :
      (w : Worker) (k : ℕ) (s : Register S)
      → lookup k s.workers ≡ some w
      → is_status_exiting w.status ≡ true
      → Change c.decode c.held s (release_worker c w k s)
  unfolding release_worker
  release_worker-Change w k s there status = elim (Bool-cases (w.stake == 0)) [
    | inl bare ↦
        rw (release_worker, bare)
          (leave s _ k w there status refl refl (omega (arith, b.removed s k)))
    | inr rich ↦ elim (Option-cases (c.stake_out s.outer k w.stake)) [
      | inl refused ↦ rw (release_worker, rich, refused) (unchanged s)
      | inr (o, paid) ↦
          rw (release_worker, rich, paid)
            (leave s _ k w there status refl refl (
              omega
                (arith, b.removed (record s { outer = o }) k, b.pays_out s.outer k w.stake o paid)))
    ]
  ]

  release_worker-elsewhere :
      (w : Worker) (k : ℕ) (s : Register S) (j : ℕ)
      → (j == k) ≡ false
      → lookup j (release_worker c w k s).workers ≡ lookup j s.workers
  unfolding release_worker
  release_worker-elsewhere w k s j away = ground (arith, lookup-erase j k s.workers)

  pub process_exiting_worker-IsLocal : IsLocal c.decode c.held (process_exiting_worker c)
  unfolding process_exiting_worker
  process_exiting_worker-IsLocal k w s known there =
      let key = known.0 in
      elim (Bool-cases (is_status_exiting w.status)) [
        | inr stays ↦ rw (process_exiting_worker, stays) (unchanged s, λ j away. refl)
        | inl leaves ↦ elim (Bool-cases (w.exit_requested_at == 0)) [
          | inl never ↦ rw (process_exiting_worker, leaves, never) (unchanged s, λ j away. refl)
          | inr asked ↦
              elim (Bool-cases
                (ltb (c.height - w.exit_requested_at) (get_worker_params s).exit_wait_period)) [
                  | inl waits ↦
                      rw (process_exiting_worker, leaves, asked, waits)
                        (unchanged s, λ j away. refl)
                  | inr over ↦
                      rw (process_exiting_worker, leaves, asked, over, key)
                        (release_worker-Change w k s there leaves, release_worker-elsewhere w k s)
                ]
        ]
      ]

  pub process_exiting_workers-Change :
      (s : Register S)
      → IsSolid c.decode c.held s
      → Change c.decode c.held s (process_exiting_workers c s)
  unfolding process_exiting_workers
  process_exiting_workers-Change s i =
      for_workers-Change c.decode c.held (process_exiting_worker c) s process_exiting_worker-IsLocal
        i
