-- ===== src/Settlement/Upkeep/Frozen.antt =====
-- x/settlement/keeper/keeper.go: `StoreFrozenTaskMeta` and `HandleFrozenBalanceTimeouts`, and the part of
-- module.go's `EndBlock` that looks after old tasks.
use funai_chain.Base.{
  pos, ℕ, ◌+◌, ◌-◌, ◌*◌, ◌/◌, ◌==◌, ◌&&◌, ◌||◌, ltb, leb, if◌then◌else◌, none, some, List, [], ◌∷◌,
  erase, lookup, is_some, u64,
}
use funai_chain.Base.Result.{Result, ok, ◌>>=◌}
use funai_chain.Settlement.Params.{Params}
use funai_chain.Settlement.Types.{Error, FrozenTaskMeta, fail_settled}
use funai_chain.Settlement.Store.{
  Context, Store, get_params, get_inference_account, set_inference_account, set_settled_task,
}
use funai_chain.Settlement.Account.{unfreeze_balance}
use funai_chain.Settlement.Upkeep.Timeouts.{
  cleanup_expired_tasks, handle_second_verification_timeouts,
}

-- In ascending order of the expiry, then of the task, as the store iterates over the keys.
abbrev pub put_meta : FrozenTaskMeta → List FrozenTaskMeta → List FrozenTaskMeta
put_meta m [] = m ∷ []
put_meta m (n ∷ ns) =
    let rest = n ∷ put_meta m ns in
    if ltb m.expire_block n.expire_block
      || (m.expire_block == n.expire_block && ltb m.task_id n.task_id)
    then m ∷ n ∷ ns
    else if m.expire_block == n.expire_block && m.task_id == n.task_id
    then m ∷ ns
    else rest

module _ {S : Type 0} (c : Context S) where
  unfoldable pub store_frozen_task_meta : FrozenTaskMeta → Store S → Store S
  store_frozen_task_meta m s = record s { frozen_index = put_meta m s.frozen_index }

  -- The fee is charged only to a balance that covers it, and stays in the module's account. The
  -- product is one of uint64.
  unfoldable pub charge_timeout : ℕ → ℕ → ℕ → Store S → Store S
  charge_timeout user max_fee ratio s =
      let fee = u64 (max_fee * ratio) / 1000 in
      let charged : Store S = elim (get_inference_account user s) [
        | none ↦ s
        | some ia ↦
            if leb fee ia.balance
            then set_inference_account c (record ia { balance = ia.balance - fee }) s
            else s
      ] in
      if fee == 0 then s else charged

  unfoldable pub jail_expired : FrozenTaskMeta → Store S → Store S
  jail_expired m s = elim (c.decode m.worker_address) [
    | none ↦ s
    | some w ↦ record s { outer = c.jail_worker s.outer w }
  ]

  abbrev pub record_expired : FrozenTaskMeta → Store S → Store S
  record_expired m s =
      set_settled_task
        (record {
          task_id = m.task_id;
          status = fail_settled;
          expire_block = m.expire_block;
          settled_at = c.height;
          worker_address = m.worker_address;
          original_verifiers = [];
          fee = pos 0;
          user_address = m.user_address;
        })
        s

  -- A task that is settled already loses only its reservation's record.
  unfoldable pub expire_reservation : Params → FrozenTaskMeta → Store S → Store S × ℕ
  unfolding charge_timeout jail_expired
  expire_reservation params m s =
      let charged : Store S × ℕ = elim (c.decode m.user_address) [
        | none ↦ (s, 0)
        | some user ↦ (
          jail_expired m (
              record_expired m (
                charge_timeout user m.max_fee params.fail_settlement_fee_ratio
                  (unfreeze_balance c user m.task_id s))),
          1,
        )
      ] in
      if is_some (lookup m.task_id s.settled)
      then (record s { frozen = erase m.task_id s.frozen }, 0)
      else charged

  -- The loop over the index up to the first task that has not expired; what it passed is deleted.
  unfoldable pub expire_reservations : Params → List FrozenTaskMeta → Store S → ℕ → Store S × ℕ
  unfolding expire_reservation
  expire_reservations params [] s n = (record s { frozen_index = [] }, n)
  expire_reservations params (m ∷ ms) s n =
      let next = expire_reservation params m s in
      let rest = expire_reservations params ms next.0 (n + next.1) in
      if ltb c.height m.expire_block then (record s { frozen_index = m ∷ ms }, n) else rest

  unfoldable pub handle_frozen_balance_timeouts : Store S → Store S × ℕ
  unfolding expire_reservations
  handle_frozen_balance_timeouts s =
      let params = get_params s in
      if params.per_token_billing_enabled
      then expire_reservations params s.frozen_index s 0
      else (s, 0)

  -- The first three steps of `EndBlock`; a panic halts the block.
  unfoldable pub upkeep : Store S → Result Error (Store S)
  unfolding cleanup_expired_tasks handle_second_verification_timeouts handle_frozen_balance_timeouts
  upkeep s = handle_second_verification_timeouts c (cleanup_expired_tasks c s).0 >>= λ r.
      ok (handle_frozen_balance_timeouts r.0).0
