-- ===== src/Settlement/Upkeep/Reserved.antt =====
-- x/settlement/keeper/keeper.go: the timeouts of reservations leave a solvent module solvent.
use funai_chain.Base.{
  ℕ, ◌+◌, ◌-◌, ◌*◌, ◌/◌, ◌==◌, ltb, leb, List, [], ◌∷◌, lookup, erase, arith, refl, Bool-cases,
  Option-cases, inl, inr, is_some, u64,
}
use funai_chain.Settlement.Params.{Params}
use funai_chain.Settlement.Types.{InferenceAccount, FrozenTaskMeta}
use funai_chain.Settlement.Store.{Context, Store, get_params}
use funai_chain.Settlement.Account.{unfreeze_balance}
use funai_chain.Settlement.Account.Solvent.{
  KeeperLaws, IsSolvent, balances-set, set_inference_account_keyed,
}
use funai_chain.Settlement.Batch.Solvent.{unfreeze_balance-IsSolvent}
use funai_chain.Settlement.Audit.Solvent.{IsSolvent-same}
use funai_chain.Settlement.Upkeep.Frozen.{
  charge_timeout, jail_expired, record_expired, expire_reservation, expire_reservations,
  handle_frozen_balance_timeouts,
}

module _ {S : Type 0} (c : Context S) where
  charge_timeout-IsSolvent :
      (user max_fee ratio : ℕ) (s : Store S)
      → IsSolvent c s
      → IsSolvent c (charge_timeout c user max_fee ratio s)
  unfolding charge_timeout
  charge_timeout-IsSolvent user max_fee ratio s inv =
      let fee = u64 (max_fee * ratio) / 1000 in
      elim (Bool-cases (fee == 0)) [
        | inl free ↦ rw (charge_timeout, free) inv
        | inr due ↦ elim (Option-cases (lookup user s.accounts)) [
          | inl nobody ↦ rw (charge_timeout, due, nobody) inv
          | inr (ia, there) ↦ elim (Bool-cases (leb fee ia.balance)) [
            | inr poor ↦ rw (charge_timeout, due, there, poor) inv
            | inl covered ↦
                let new : InferenceAccount = record ia { balance = ia.balance - fee } in
                rw (charge_timeout, due, there, covered)
                  (record {
                    keyed = set_inference_account_keyed c s new inv.keyed;
                    covered =
                        omega (arith, balances-set c s user ia new inv there refl, inv.covered);
                  })
          ]
        ]
      ]

  jail_expired-IsSolvent :
      (m : FrozenTaskMeta) (s : Store S)
      → KeeperLaws c
      → IsSolvent c s
      → IsSolvent c (jail_expired c m s)
  unfolding jail_expired
  jail_expired-IsSolvent m s keep inv = elim (Option-cases (c.decode m.worker_address)) [
    | inl malformed ↦ rw (jail_expired, malformed) inv
    | inr (w, known) ↦
        rw (jail_expired, known)
          (IsSolvent-same c s (record s { outer = c.jail_worker s.outer w }) refl
            (keep.jail_keeps s.outer w) inv)
  ]

  expire_reservation-IsSolvent :
      (params : Params) (m : FrozenTaskMeta) (s : Store S)
      → KeeperLaws c
      → IsSolvent c s
      → IsSolvent c (expire_reservation c params m s).0
  unfolding expire_reservation
  expire_reservation-IsSolvent params m s keep inv =
      elim (Bool-cases (is_some (lookup m.task_id s.settled))) [
        | inl over ↦
            rw (expire_reservation, over)
              (IsSolvent-same c s (record s { frozen = erase m.task_id s.frozen }) refl
                (omega arith) inv)
        | inr open_still ↦ elim (Option-cases (c.decode m.user_address)) [
          | inl malformed ↦ rw (expire_reservation, open_still, malformed) inv
          | inr (user, known) ↦
              let charged =
                charge_timeout c user m.max_fee params.fail_settlement_fee_ratio
                  (unfreeze_balance c user m.task_id s) in
              let solvent =
                charge_timeout-IsSolvent user m.max_fee params.fail_settlement_fee_ratio
                  (unfreeze_balance c user m.task_id s)
                  (unfreeze_balance-IsSolvent c user m.task_id s inv) in
              rw (expire_reservation, open_still, known)
                (jail_expired-IsSolvent m (record_expired c m charged) keep (
                  IsSolvent-same c charged (record_expired c m charged) refl (omega arith) solvent))
        ]
      ]

  expire_reservations-IsSolvent :
      (params : Params) (ms : List FrozenTaskMeta) (s : Store S) (n : ℕ)
      → KeeperLaws c
      → IsSolvent c s
      → IsSolvent c (expire_reservations c params ms s n).0
  unfolding expire_reservations
  expire_reservations-IsSolvent params [] s n keep inv =
      IsSolvent-same c s (record s { frozen_index = [] }) refl (omega arith) inv
  expire_reservations-IsSolvent params (m ∷ ms) s n keep inv =
      let next = expire_reservation c params m s in
      elim (Bool-cases (ltb c.height m.expire_block)) [
        | inl later ↦
            rw (expire_reservations, later)
              (IsSolvent-same c s (record s { frozen_index = m ∷ ms }) refl (omega arith) inv)
        | inr expired ↦
            rw (expire_reservations, expired)
              (expire_reservations-IsSolvent params ms next.0 (n + next.1) keep
                (expire_reservation-IsSolvent params m s keep inv))
      ]

  pub handle_frozen_balance_timeouts-IsSolvent :
      (s : Store S)
      → KeeperLaws c
      → IsSolvent c s
      → IsSolvent c (handle_frozen_balance_timeouts c s).0
  unfolding handle_frozen_balance_timeouts
  handle_frozen_balance_timeouts-IsSolvent s keep inv =
      elim (Bool-cases (get_params s).per_token_billing_enabled) [
        | inr off ↦ rw (handle_frozen_balance_timeouts, off) inv
        | inl on ↦
            rw (handle_frozen_balance_timeouts, on)
              (expire_reservations-IsSolvent (get_params s) s.frozen_index s 0 keep inv)
      ]
