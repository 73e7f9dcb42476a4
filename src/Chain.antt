-- ===== src/Chain.antt =====
-- app/app.go: x/settlement over the keeper of x/worker. The state behind x/settlement's interface is
-- the register of workers, and the bank behind that.
use funai_chain.Base.{
  ℤ, ℕ, ◌≤◌, ◌≡◌, none, some, arith, lookup, Bool-cases, Option-cases, inl, inr, ◌+◌, ◌*◌, ◌-◌, ◌/◌,
  leb, u32,
}
use funai_chain.Settlement.Store.{Context}
use funai_chain.Settlement.Account.Solvent.{BankLaws, KeeperLaws}
use funai_chain.Worker.Types.{Worker}
use funai_chain.Worker.Keeper.{
  Register, WorkerContext, get_worker_pubkey, set_worker, get_worker_params,
}
use funai_chain.Worker.Jail.{
  slash_worker, slash_worker_to, tombstone_worker, jail_worker, increment_success_streak,
  get_success_streak, update_worker_stats, jail_for_good, jail_for_a_while, slash_worker_internal,
  tombstoned_worker,
}
use funai_chain.Worker.Reputation.{reputation_on_accept, update_avg_latency}
use funai_chain.Worker.Run.{at_height}

module _ {B : Type 0} (c : Context B) (w : WorkerContext B) where
  abbrev here : WorkerContext B
  here = at_height w c.height

  -- The bank and x/modelreg act on the state behind the register.
  abbrev pub over_workers : Context (Register B)
  over_workers = record {
    height = c.height;
    module_account = c.module_account;
    decode = c.decode;
    encode = c.encode;
    vrf_hash = c.vrf_hash;
    sha256 = c.sha256;
    pair_hash = c.pair_hash;
    entry_hash = c.entry_hash;
    reserve_hash = c.reserve_hash;
    decode_pubkey = c.decode_pubkey;
    verify_signature = c.verify_signature;
    balance = λ s a. c.balance s.outer a;
    send = λ s from to n. elim (c.send s.outer from to n) [
      | none ↦ none
      | some o ↦ some (record s { outer = o })
    ];
    jail_worker = λ s a. jail_worker here a s;
    slash_worker = λ s a n. slash_worker here a n s;
    slash_worker_to = λ s a n b. slash_worker_to here a n b s;
    tombstone_worker = λ s a. tombstone_worker here a s;
    increment_success_streak = λ s a. increment_success_streak here a s;
    success_streak = λ s a. get_success_streak here a s;
    update_worker_stats = λ s a n. update_worker_stats here a n s;
    worker_pubkey = λ s a. get_worker_pubkey a s;
    reputation_on_accept = λ s a. reputation_on_accept here a s;
    update_avg_latency = λ s a n. update_avg_latency here a n s;
    record_model_task = λ s a n m. record s { outer = c.record_model_task s.outer a n m };
  }

  -- What x/worker spends and x/modelreg is told of leaves the settlement module's account alone.
  pub record IsApart : Type 0 where
    pub burn_apart :
        (o : B) (n : ℕ) (o' : B)
        → w.burn o n ≡ some o'
        → c.balance o c.module_account ≤ c.balance o' c.module_account
    pub told_apart :
        (s : Register B) (a : ℕ)
        → c.balance s.outer c.module_account
          ≤ c.balance (w.on_worker_state_change s a) c.module_account
    pub model_apart :
        (o : B) (a n m : ℕ)
        → c.balance o c.module_account ≤ c.balance (c.record_model_task o a n m) c.module_account

  abbrev Keeps : (Register B → Register B) → Type 0
  Keeps op =
      (s : Register B)
      → c.balance s.outer c.module_account ≤ c.balance (op s).outer c.module_account

  slash_worker-Keeps : (a percent : ℕ) → IsApart → Keeps (slash_worker here a percent)
  unfolding slash_worker_internal
  slash_worker-Keeps a percent apart s = elim (Option-cases (lookup a s.workers)) [
    | inl missing ↦ ground (arith, missing)
    | inr (v, there) ↦
        let cut = v.stake * percent / 100 in
        elim (Option-cases (w.burn s.outer cut)) [
          | inl refused ↦ ground (arith, there, refused)
          | inr (o, paid) ↦
              let stored =
                set_worker here (record v { stake = v.stake - cut }) (record s { outer = o }) in
              ground (arith, there, paid, apart.burn_apart s.outer cut o, apart.told_apart stored a)
        ]
  ]

  jail_for_a_while-Keeps : (a : ℕ) (v : Worker) → IsApart → Keeps (jail_for_a_while here a v)
  unfolding jail_for_a_while
  jail_for_a_while-Keeps a v apart s = apart.told_apart _ a

  jail_worker-Keeps : (a : ℕ) → IsApart → Keeps (jail_worker here a)
  unfolding jail_worker jail_for_good
  jail_worker-Keeps a apart s = elim (Option-cases (lookup a s.workers)) [
    | inl missing ↦ ground (arith, missing)
    | inr (v, there) ↦ elim (Bool-cases v.tombstoned) [
      | inl buried ↦ ground (arith, there, buried)
      | inr free ↦ elim (Bool-cases (leb 3 (u32 (v.jail_count + 1)))) [
        | inl third ↦
            let percent = (get_worker_params s).slash_fraud_percent in
            let t = slash_worker here a percent s in
            let kept = slash_worker-Keeps a percent apart s in
            elim (Option-cases (lookup a t.workers)) [
              | inl gone ↦ ground (arith, there, gone, kept)
              | inr (u, left) ↦ ground (
                arith,
                there,
                left,
                kept,
                apart.told_apart (set_worker here (tombstoned_worker u) t) a,
              )
            ]
        | inr few ↦ ground (arith, there, few, jail_for_a_while-Keeps a v apart s)
      ]
    ]
  ]

  streak-Keeps : (a : ℕ) → Keeps (increment_success_streak here a)
  unfolding increment_success_streak
  streak-Keeps a s = elim (Option-cases (lookup a s.workers)) [
    | inl missing ↦ ground (arith, missing)
    | inr (v, there) ↦ ground (arith, there)
  ]

  stats-Keeps : (a : ℕ) (fee : ℤ) → Keeps (update_worker_stats here a fee)
  unfolding update_worker_stats
  stats-Keeps a fee s = elim (Option-cases (lookup a s.workers)) [
    | inl missing ↦ ground (arith, missing)
    | inr (v, there) ↦ ground (arith, there)
  ]

  accept-Keeps : (a : ℕ) → Keeps (reputation_on_accept here a)
  unfolding reputation_on_accept
  accept-Keeps a s = elim (Option-cases (lookup a s.workers)) [
    | inl missing ↦ ground (arith, missing)
    | inr (v, there) ↦ ground (arith, there)
  ]

  latency-Keeps : (a sample : ℕ) → Keeps (update_avg_latency here a sample)
  unfolding update_avg_latency
  latency-Keeps a sample s = elim (Option-cases (lookup a s.workers)) [
    | inl missing ↦ ground (arith, missing)
    | inr (v, there) ↦ ground (arith, there)
  ]

  over_workers-BankLaws : BankLaws c → BankLaws over_workers
  over_workers-BankLaws bank = record {
    send_debit = λ s from to n s' e. elim (Option-cases (c.send s.outer from to n)) [
      | inl refused ↦ ground (arith, refused, e)
      | inr (o, paid) ↦
          let end : s' ≡ record s { outer = o } = ground (arith, paid, e) in
          rw end (bank.send_debit s.outer from to n o paid)
    ];
    send_exact = λ s from to n s' ne e. elim (Option-cases (c.send s.outer from to n)) [
      | inl refused ↦ ground (arith, refused, e)
      | inr (o, paid) ↦
          let end : s' ≡ record s { outer = o } = ground (arith, paid, e) in
          rw end (bank.send_exact s.outer from to n o ne paid)
    ];
    send_credit = λ s from to n s' ne e. elim (Option-cases (c.send s.outer from to n)) [
      | inl refused ↦ ground (arith, refused, e)
      | inr (o, paid) ↦
          let end : s' ≡ record s { outer = o } = ground (arith, paid, e) in
          rw end (bank.send_credit s.outer from to n o ne paid)
    ];
    send_others = λ s from to other n s' ne e. elim (Option-cases (c.send s.outer from to n)) [
      | inl refused ↦ ground (arith, refused, e)
      | inr (o, paid) ↦
          let end : s' ≡ record s { outer = o } = ground (arith, paid, e) in
          rw end (bank.send_others s.outer from to other n o ne paid)
    ];
    decode-encode = bank.decode-encode;
  }

  -- The keeper of x/worker meets what the solvency of x/settlement asks of the bank and of the modules
  -- that it calls, whenever the bank behind it does and what x/worker burns and x/modelreg does
  -- leave the settlement module's account alone.
  pub over_workers-implements :
      BankLaws c → IsApart → BankLaws over_workers × KeeperLaws over_workers
  over_workers-implements bank apart = (
    over_workers-BankLaws bank,
    record {
      jail_keeps = λ s a. jail_worker-Keeps a apart s;
      streak_keeps = λ s a. streak-Keeps a s;
      stats_keeps = λ s a n. stats-Keeps a n s;
      accept_keeps = λ s a. accept-Keeps a s;
      latency_keeps = λ s a n. latency-Keeps a n s;
      model_keeps = λ s a n m. apart.model_apart s.outer a n m;
    },
  )
