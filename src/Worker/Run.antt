-- ===== src/Worker/Run.antt =====
-- x/worker as a state machine: its messages, what x/settlement calls, and its blocks (module.go), in
-- any order and at any heights.
use funai_chain.Base.{
  ℤ, ℕ, ◌%◌, ◌≤◌, ◌≡◌, ◌==◌, Bool, Option, List, arith, refl, if◌then◌else◌, Bool-cases, inl, inr,
}
use funai_chain.Base.Result.{Result, ok, err, panic}
use funai_chain.Settlement.Types.{Coin}
use funai_chain.Worker.Types.{WorkerError, MsgRegisterWorker}
use funai_chain.Worker.Keeper.{Register, WorkerContext}
use funai_chain.Worker.Jail.{
  slash_worker_internal, tombstone_worker, jail_worker, increment_success_streak,
  update_worker_stats, process_exiting_workers,
}
use funai_chain.Worker.Reputation.{
  reputation_on_accept, reputation_on_miss, reputation_on_reject, reputation_decay_all,
  update_avg_latency,
}
use funai_chain.Worker.Message.{register_worker, exit_worker, update_models, add_stake, unjail}
use funai_chain.Worker.Change.{
  Change, same, IsSolid, IsBacked, IsBuried, Change-IsSolid, Change-IsBuried,
}
use funai_chain.Worker.Change.Jail.{
  slash_worker_internal-Change, tombstone_worker-Change, jail_worker-Change,
  increment_success_streak-Change, update_worker_stats-Change, process_exiting_workers-Change,
}
use funai_chain.Worker.Change.Score.{
  reputation_on_accept-Change, reputation_on_miss-Change, reputation_on_reject-Change,
  reputation_decay_all-Change, update_avg_latency-Change,
}
use funai_chain.Worker.Change.Message.{
  register_worker-Change, exit_worker-Change, update_models-Change, add_stake-Change, unjail-Change,
}

-- What can be asked of the module, the begin and the end of a block included. The slash is the one
-- that x/settlement asks for, of 5 percent.
pub data Op : Type 0 where
  register : MsgRegisterWorker → Op
  exit : ℕ → Op
  models : ℕ → List ℕ → Op
  stake : ℕ → Coin → Op
  end_jail : ℕ → Op
  jail : ℕ → Op
  slash : ℕ → Option ℕ → Op
  tombstone : ℕ → Op
  succeed : ℕ → Op
  earn : ℕ → ℤ → Op
  accept : ℕ → Op
  miss : ℕ → Bool → Op
  reject : ℕ → Bool → Op
  latency : ℕ → ℕ → Op
  begin_block end_block : Op

-- A failed message leaves no trace.
abbrev pub settle : {S : Type 0} → Register S → Result WorkerError (Register S) → Register S
settle s (ok t) = t
settle s (err e) = s
settle s panic = s

module _ {S : Type 0} (c : WorkerContext S) where
  unfoldable pub worker_begin_block : Register S → Register S
  worker_begin_block s = if c.height % 720 == 0 then reputation_decay_all c s else s

  unfoldable pub apply : Op → Register S → Register S
  unfolding worker_begin_block
  apply (register msg) s = settle s (register_worker c msg s)
  apply (exit creator) s = settle s (exit_worker c creator s)
  apply (models creator ms) s = settle s (update_models c creator ms s)
  apply (stake creator amount) s = settle s (add_stake c creator amount s)
  apply (end_jail creator) s = settle s (unjail c creator s)
  apply (jail a) s = jail_worker c a s
  apply (slash a recipient) s = slash_worker_internal c a 5 recipient s
  apply (tombstone a) s = tombstone_worker c a s
  apply (succeed a) s = increment_success_streak c a s
  apply (earn a fee) s = update_worker_stats c a fee s
  apply (accept a) s = reputation_on_accept c a s
  apply (miss a second) s = reputation_on_miss c a second s
  apply (reject a busy) s = reputation_on_reject c a busy s
  apply (latency a sample) s = update_avg_latency c a sample s
  apply begin_block s = worker_begin_block s
  apply end_block s = process_exiting_workers c s

  settle-Change :
      (s : Register S) (r : Result WorkerError (Register S))
      → ((t : Register S) → r ≡ ok t → Change c.decode c.held s t)
      → Change c.decode c.held s (settle s r)
  settle-Change s (ok t) h = h t refl
  settle-Change s (err e) h = same s s refl refl (omega arith)
  settle-Change s panic h = same s s refl refl (omega arith)

  -- Every operation is one of the changes that `Change` allows.
  pub apply-Change :
      (op : Op) (s : Register S)
      → IsBacked c
      → IsSolid c.decode c.held s
      → Change c.decode c.held s (apply op s)
  unfolding apply worker_begin_block
  apply-Change (register msg) s b i = settle-Change s _ (register_worker-Change c b msg s)
  apply-Change (exit creator) s b i = settle-Change s _ (exit_worker-Change c b creator s)
  apply-Change (models creator ms) s b i = settle-Change s _ (update_models-Change c b creator ms s)
  apply-Change (stake creator n) s b i = settle-Change s _ (add_stake-Change c b creator n s)
  apply-Change (end_jail creator) s b i = settle-Change s _ (unjail-Change c b creator s)
  apply-Change (jail a) s b i = jail_worker-Change c b a s i
  apply-Change (slash a recipient) s b i =
      slash_worker_internal-Change c b a 5 recipient (omega arith) s
  apply-Change (tombstone a) s b i = tombstone_worker-Change c b a s
  apply-Change (succeed a) s b i = increment_success_streak-Change c b a s
  apply-Change (earn a fee) s b i = update_worker_stats-Change c b a fee s
  apply-Change (accept a) s b i = reputation_on_accept-Change c a s
  apply-Change (miss a second) s b i = reputation_on_miss-Change c a second s
  apply-Change (reject a busy) s b i = reputation_on_reject-Change c a busy s
  apply-Change (latency a sample) s b i = update_avg_latency-Change c a sample s
  apply-Change begin_block s b i = elim (Bool-cases (c.height % 720 == 0)) [
    | inl hour ↦ rw (worker_begin_block, hour) (reputation_decay_all-Change c s i)
    | inr other ↦ rw (worker_begin_block, other) (same s s refl refl (omega arith))
  ]
  apply-Change end_block s b i = process_exiting_workers-Change c b s i

module _ {S : Type 0} (c : WorkerContext S) where
  abbrev pub at_height : ℕ → WorkerContext S
  at_height h = record c { height = h }

  at_height-IsBacked : (h : ℕ) → IsBacked c → IsBacked (at_height h)
  at_height-IsBacked h b = record {
    takes_in = b.takes_in;
    pays_out = b.pays_out;
    burns = b.burns;
    told = b.told;
    removed = b.removed;
  }

  -- A run: operations at any heights, and changes of the other modules that leave the module's
  -- account with no less.
  pub data Run : Register S → Register S → Type 0 where
    start : (s : Register S) → Run s s
    operation : (h : ℕ) (op : Op) (s t : Register S) → Run s t → Run s (apply (at_height h) op t)
    outside :
        (o : S) (s t : Register S)
        → Run s t
        → c.held t.outer ≤ c.held o
        → Run s (record t { outer = o })

  -- In every run from a solid register, the register stays solid: each worker is stored once, under
  -- its own address, with a sound record, and the module's account covers the sum of all stakes.
  pub Run-IsSolid :
      (s t : Register S)
      → IsBacked c
      → Run s t
      → IsSolid c.decode c.held s
      → IsSolid c.decode c.held t
  Run-IsSolid s t b (start _) i = i
  Run-IsSolid s _ b (operation h op _ t run) i =
      let before = Run-IsSolid s t b run i in
      Change-IsSolid c.decode c.held t (apply (at_height h) op t)
        (apply-Change (at_height h) op t (at_height-IsBacked h b) before) before
  Run-IsSolid s _ b (outside o _ t run more) i =
      Change-IsSolid c.decode c.held t (record t { outer = o }) (same t _ refl refl more)
        (Run-IsSolid s t b run i)

  -- In every run from a solid register, a worker that is tombstoned stays in the register and stays
  -- tombstoned.
  pub Run-IsBuried :
      (a : ℕ) (s t : Register S)
      → IsBacked c
      → Run s t
      → IsSolid c.decode c.held s
      → IsBuried c.decode c.held a s
      → IsBuried c.decode c.held a t
  Run-IsBuried a s t b (start _) i dead = dead
  Run-IsBuried a s _ b (operation h op _ t run) i dead =
      let before = Run-IsSolid s t b run i in
      Change-IsBuried c.decode c.held a t (apply (at_height h) op t)
        (apply-Change (at_height h) op t (at_height-IsBacked h b) before) before
        (Run-IsBuried a s t b run i dead)
  Run-IsBuried a s _ b (outside o _ t run more) i dead =
      Change-IsBuried c.decode c.held a t (record t { outer = o }) (same t _ refl refl more)
        (Run-IsSolid s t b run i) (Run-IsBuried a s t b run i dead)
