-- ===== src/Worker/Tests.antt =====
-- The fixtures and the witnesses of x/worker: the module's account is 1, the spelling of an address is
-- its successor.
use funai_chain.Base.{
  pos, ℕ, ◌+◌, ◌-◌, ◌≡◌, leb, ◌==◌, if◌then◌else◌, true, false, none, some, [], ◌∷◌, All, lookup,
  arith, refl,
}
use funai_chain.Settlement.Tests.Bank.{Book, send, decode}
use funai_chain.Worker.Types.{
  Worker, WorkerStatus, MsgRegisterWorker, default_worker_params, active, exiting, jailed,
}
use funai_chain.Worker.Keeper.{Register, WorkerContext, get_all_workers, for_workers}
use funai_chain.Worker.Jail.{
  jail_worker, process_exiting_worker, process_exiting_workers, release_worker,
}
use funai_chain.Worker.Change.{IsSolid, IsBacked, IsSound, IsBuried}
use funai_chain.Worker.Run.{
  Run, start, operation, register, exit, jail, end_block, Run-IsSolid, Run-IsBuried,
}
use funai_chain.Worker.Rounds.{Pays, hours, process_exiting_workers-releases, hours-settle}
use funai_chain.Worker.Discipline.{unjail_worker_lem, jail_worker_lem, IsPunished, IsReleased}
use funai_chain.Worker.Validators.{worker_end_block, worker_end_block_backed, IsBacking}

abbrev pub keeper : WorkerContext Book
keeper = record {
  height = 600000;
  decode = decode;
  held = λ o. o 1;
  stake_in = λ o a n. if a == 1 then none else send o a 1 n;
  stake_out = λ o a n. if a == 1 then none else send o 1 a n;
  burn = λ o n.
      let less : Book = λ a. if a == 1 then o a - n else o a in
      if leb n (o 1) then some less else none;
  on_worker_state_change = λ s a. s.outer;
  on_worker_removed = λ s a. s.outer;
}

pub keeper-IsBacked : IsBacked keeper
keeper-IsBacked = record {
  takes_in = λ o a n o' e. ground arith;
  pays_out = λ o a n o' e. ground arith;
  burns = λ o n o' e. ground arith;
  told = λ s a. omega arith;
  removed = λ s a. omega arith;
}

abbrev worker : ℕ → ℕ → WorkerStatus → Worker
worker address stake status = record {
  address = address;
  pubkey = address + 100;
  stake = stake;
  supported_models = 7 ∷ [];
  status = status;
  joined_at = 5;
  exit_requested_at = 0;
  endpoint = 0;
  gpu_model = 0;
  gpu_vram_gb = 24;
  gpu_count = 1;
  operator_id = 0;
  jail_count = 0;
  is_jailed = false;
  jail_until = 0;
  tombstoned = false;
  success_streak = 0;
  total_tasks = 0;
  total_fee_earned = pos 0;
  last_active_block = 5;
  max_concurrent_tasks = 1;
  max_concurrent_verify = 2;
  reputation_score = 9000;
  consecutive_rejects = 0;
  avg_latency_ms = 0;
}

abbrev running : Worker
running = worker 21 500 active

abbrev leaving : Worker
leaving = record (worker 31 300 exiting) { exit_requested_at = 100 }

abbrev held_back : Worker
held_back = record (worker 41 200 jailed) { is_jailed = true; jail_count = 2; jail_until = 599000 }

abbrev dead : Worker
dead = record (worker 51 100 jailed) { is_jailed = true; tombstoned = true }

abbrev pub workers : Register Book
workers = record {
  outer = λ a. if a == 1 then 1100 else if a == 0 then 700 else 0;
  workers = (20, running) ∷ (30, leaving) ∷ (40, held_back) ∷ (50, dead) ∷ [];
  model_index = [];
  params = some default_worker_params;
}

running-IsSound : IsSound running
running-IsSound = ground arith

leaving-IsSound : IsSound leaving
leaving-IsSound = ground arith

held_back-IsSound : IsSound held_back
held_back-IsSound = ground arith

dead-IsSound : IsSound dead
dead-IsSound = ground arith

workers-IsSolid : IsSolid keeper.decode keeper.held workers
workers-IsSolid = record {
  dict = (refl, (refl, (refl, (refl, tt))));
  keyed = (
    (refl, running-IsSound),
    ((refl, leaving-IsSound), ((refl, held_back-IsSound), ((refl, dead-IsSound), tt))),
  );
  staked = omega arith;
  fair = omega arith;
}

-- A new worker joins, the running one exits, an offence is punished, and a block ends.
abbrev joining : MsgRegisterWorker
joining = record {
  creator = 61;
  pubkey = 161;
  supported_models = [];
  endpoint = 0;
  gpu_model = 0;
  gpu_vram_gb = 8;
  gpu_count = 1;
  operator_id = 0;
  max_concurrent_tasks = 0;
}

abbrev Ended : Type 0
Ended = (t : Register Book) × Run keeper workers t

some_run : Ended
some_run = (
  _,
  operation 600000 end_block workers _ (
      operation 599500 (jail 20) workers _ (
        operation 599400 (exit 21) workers _
          (operation 300 (register joining) workers _ (start workers)))),
)

Run-IsSolid_example : IsSolid keeper.decode keeper.held some_run.0
Run-IsSolid_example =
    Run-IsSolid keeper workers some_run.0 keeper-IsBacked some_run.1 workers-IsSolid

Run-IsBuried_example : IsBuried keeper.decode keeper.held 50 some_run.0
Run-IsBuried_example =
    Run-IsBuried keeper 50 workers some_run.0 keeper-IsBacked some_run.1 workers-IsSolid
      (dead, refl, refl)

-- The bank blocks the module's own account.
keeper-Pays : Pays keeper (λ a. a == 1)
keeper-Pays o a n free h =
    let moved : Book =
      λ b. if 1 == a then o b else if b == 1 then o b - n else if b == a then o b + n else o b in
    (moved, ground arith)

process_exiting_workers-releases_example :
    lookup 30 (process_exiting_workers keeper workers).workers ≡ none
process_exiting_workers-releases_example =
    process_exiting_workers-releases keeper (λ a. a == 1) workers 30 leaving keeper-IsBacked
      keeper-Pays refl workers-IsSolid refl refl refl refl

hours-settle_example :
    lookup 20 (hours keeper 300 workers).workers
    ≡ some (record running { reputation_score = 10000 })
hours-settle_example =
    hours-settle keeper workers 20 running 300 workers-IsSolid refl refl (omega arith)

unjail_worker_lem_example : IsReleased keeper 40 held_back workers
unjail_worker_lem_example = unjail_worker_lem keeper 40 held_back workers workers-IsSolid refl

jail_worker_lem_example :
    (w' : Worker) × (lookup 40 (jail_worker keeper 40 workers).workers ≡ some w')
    × IsPunished keeper workers held_back w'
jail_worker_lem_example = jail_worker_lem keeper 40 held_back workers workers-IsSolid refl refl

some_updates :
    worker_end_block keeper (λ addresses. none) workers
    ≡ some ((121, 500) ∷ [], process_exiting_workers keeper workers)
unfolding worker_end_block for_workers process_exiting_workers process_exiting_worker release_worker
some_updates = refl

worker_end_block_backed_example :
    All
      (λ u. (w : Worker) × IsBacking (get_all_workers (process_exiting_workers keeper workers)) u w)
      ((121, 500) ∷ [])
worker_end_block_backed_example =
    worker_end_block_backed keeper (λ addresses. none) workers
      (process_exiting_workers keeper workers) ((121, 500) ∷ []) some_updates
