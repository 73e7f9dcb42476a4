-- ===== src/Worker/Change/Message.antt =====
-- x/worker/keeper/msg_server.go: a message that succeeds changes the register only in the ways of
-- `Change`.
use funai_chain.Base.{
  ℕ, ◌+◌, ◌≤◌, ◌≡◌, false, leb, none, some, List, lookup, arith, refl, Bool-cases, Option-cases,
  inl, inr,
}
use funai_chain.Base.Result.{ok}
use funai_chain.Settlement.Types.{Coin}
use funai_chain.Worker.Types.{MsgRegisterWorker, exiting}
use funai_chain.Worker.Keeper.{
  Register, WorkerContext, set_worker, get_worker_params, notify, set_model_indices,
  remove_model_indices,
}
use funai_chain.Worker.Message.{
  new_worker, enrol_worker, register_worker, exit_worker, update_models, add_stake, unjail,
}
use funai_chain.Worker.Change.{
  Change, update, enrol, IsSound, IsBacked, set_worker-Change, notify-Change,
}
use funai_chain.Worker.Change.Jail.{unjail_worker-Change}

module _ {S : Type 0} (c : WorkerContext S) (b : IsBacked c) where
  new_worker-IsSound : (msg : MsgRegisterWorker) (stake : ℕ) → IsSound (new_worker c msg stake)
  new_worker-IsSound msg stake = ground arith

  enrol-Change :
      (msg : MsgRegisterWorker) (a stake : ℕ) (o : S) (s : Register S)
      → c.decode msg.creator ≡ some a
      → lookup a s.workers ≡ none
      → c.held s.outer + stake ≤ c.held o
      → Change c.decode c.held s (enrol_worker c msg a stake (record s { outer = o }))
  enrol-Change msg a stake o s known fresh kept =
      enrol s _ a (new_worker c msg stake) fresh known (new_worker-IsSound msg stake)
        (rw known refl) refl kept

  pub register_worker-Change :
      (msg : MsgRegisterWorker) (s t : Register S)
      → register_worker c msg s ≡ ok t
      → Change c.decode c.held s t
  unfolding register_worker
  register_worker-Change msg s t e = elim (Option-cases (c.decode msg.creator)) [
    | inl malformed ↦ ground (arith, malformed)
    | inr (a, known) ↦ elim (Option-cases (lookup a s.workers)) [
      | inr (w, there) ↦ ground (arith, known, there)
      | inl fresh ↦
          let params = get_worker_params s in
          elim (Bool-cases (leb c.height params.cold_start_free_blocks)) [
            | inl cold ↦
                let end : t ≡ enrol_worker c msg a 0 s = ground (arith, known, fresh) in
                rw end (enrol-Change msg a 0 s.outer s known fresh (omega arith))
            | inr warm ↦ elim (Option-cases (c.stake_in s.outer a params.min_stake)) [
              | inl poor ↦ ground (arith, known, fresh, poor)
              | inr (o, paid) ↦
                  let end : t ≡ enrol_worker c msg a params.min_stake (record s { outer = o }) =
                    ground (arith, known, fresh, paid) in
                  rw end (
                    enrol-Change msg a params.min_stake o s known fresh
                      (omega (arith, b.takes_in s.outer a params.min_stake o paid)))
            ]
          ]
    ]
  ]

  pub exit_worker-Change :
      (creator : ℕ) (s t : Register S) → exit_worker c creator s ≡ ok t → Change c.decode c.held s t
  unfolding exit_worker
  exit_worker-Change creator s t e = elim (Option-cases (c.decode creator)) [
    | inl malformed ↦ ground (arith, malformed)
    | inr (a, known) ↦ elim (Option-cases (lookup a s.workers)) [
      | inl missing ↦ ground (arith, known, missing)
      | inr (w, there) ↦
          let w' = record w { status = exiting; exit_requested_at = c.height } in
          let free : w.is_jailed ≡ false = ground (arith, known, there) in
          let end : t ≡ set_worker c w' s = ground (arith, known, there) in
          rw end (set_worker-Change c a w w' s.outer s there (ground arith) (omega arith))
    ]
  ]

  pub update_models-Change :
      (creator : ℕ) (models : List ℕ) (s t : Register S)
      → update_models c creator models s ≡ ok t
      → Change c.decode c.held s t
  unfolding update_models
  update_models-Change creator models s t e = elim (Option-cases (c.decode creator)) [
    | inl malformed ↦ ground (arith, malformed)
    | inr (a, known) ↦ elim (Option-cases (lookup a s.workers)) [
      | inl missing ↦ ground (arith, known, missing)
      | inr (w, there) ↦
          let w' = record w { supported_models = models } in
          let end : t
              ≡ set_model_indices a models
                  (set_worker c w' (remove_model_indices a w.supported_models s)) =
            ground (arith, known, there) in
          rw end (update s _ a w w' there (ground arith) refl refl (omega arith))
    ]
  ]

  pub add_stake-Change :
      (creator : ℕ) (amount : Coin) (s t : Register S)
      → add_stake c creator amount s ≡ ok t
      → Change c.decode c.held s t
  unfolding add_stake
  add_stake-Change creator amount s t e = elim (Option-cases (c.decode creator)) [
    | inl malformed ↦ ground (arith, malformed)
    | inr (a, known) ↦ elim (Option-cases (lookup a s.workers)) [
      | inl missing ↦ ground (arith, known, missing)
      | inr (w, there) ↦ elim (Option-cases (c.stake_in s.outer a amount.amount)) [
        | inl poor ↦ ground (arith, known, there, poor)
        | inr (o, paid) ↦
            let w' = record w { stake = w.stake + amount.amount } in
            let end : t ≡ notify c a (set_worker c w' (record s { outer = o })) =
              ground (arith, known, there, paid) in
            rw end (
              notify-Change c a w w' o s b there (ground arith)
                (omega (arith, b.takes_in s.outer a amount.amount o paid)))
      ]
    ]
  ]

  pub unjail-Change :
      (creator : ℕ) (s t : Register S) → unjail c creator s ≡ ok t → Change c.decode c.held s t
  unfolding unjail
  unjail-Change creator s t e = elim (Option-cases (c.decode creator)) [
    | inl malformed ↦ ground (arith, malformed)
    | inr (a, known) ↦ unjail_worker-Change c b a s t (ground (arith, known))
  ]
