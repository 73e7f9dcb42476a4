-- ===== src/Settlement/Upkeep/Solvent.antt =====
-- x/settlement: the upkeep at the end of a block leaves a solvent module solvent, and a timeout brings
-- its task to an end.
use funai_chain.Base.{
  is_nonneg, ◌&&◌, Dict, lookup, Option-cases, ◌∙◌, ℕ, ◌+◌, ◌-◌, ◌≡◌, ◌==◌, Bool, true, false,
  if◌then◌else◌, List, [], ◌∷◌, length, arith, refl, Bool-cases, inl, inr,
}
use funai_chain.Base.Result.{ok, ◌>>=◌, >>=-eq-ok}
use funai_chain.Settlement.Params.{Params, HasRatios}
use funai_chain.Settlement.Types.{PendingTask}
use funai_chain.Settlement.Store.{Context, Store, TimeoutKey, get_params}
use funai_chain.Settlement.Account.Solvent.{BankLaws, KeeperLaws, IsSolvent}
use funai_chain.Settlement.Audit.Settle.{settle_audited_task}
use funai_chain.Settlement.Audit.Judgment.{fail_unpaid}
use funai_chain.Settlement.Audit.Solvent.{IsSolvent-same, settle_audited_task-IsSolvent, HasCharges}
use funai_chain.Settlement.Audit.Waiting.{settle_audited_task-SameWaiting}
use funai_chain.Settlement.Upkeep.Timeouts.{
  due_keys, due_tasks, stands, drop_pending, time_out, time_out_all, process_timeouts_by_index,
  timeouts_before, handle_second_verification_timeouts, cleanup_expired_tasks,
}
use funai_chain.Settlement.Upkeep.Frozen.{handle_frozen_balance_timeouts, upkeep}
use funai_chain.Settlement.Upkeep.Reserved.{handle_frozen_balance_timeouts-IsSolvent}

abbrev no_debts : List PendingTask → Bool
no_debts [] = true
no_debts (apt ∷ apts) = is_nonneg apt.fee && no_debts apts

no_debts-due_tasks :
    (pending : Dict PendingTask) (keys : List TimeoutKey)
    → HasCharges pending
    → no_debts (due_tasks pending keys) ≡ true
no_debts-due_tasks pending [] charges = refl
no_debts-due_tasks pending (key ∷ keys) charges =
    let rest = no_debts-due_tasks pending keys charges in
    elim (Option-cases (lookup key.1 pending)) [
      | inl gone ↦ ground (arith, gone, rest)
      | inr (apt, waits) ↦ ground (arith, waits, rest, charges key.1 apt waits)
    ]

module _ {S : Type 0} (c : Context S) where
  drop_pending-IsSolvent :
      (is_third : Bool) (id : ℕ) (key : TimeoutKey) (s : Store S)
      → IsSolvent c s
      → IsSolvent c (drop_pending c is_third id key s)
  drop_pending-IsSolvent true id key s inv =
      IsSolvent-same c s (drop_pending c true id key s) refl (omega arith) inv
  drop_pending-IsSolvent false id key s inv =
      IsSolvent-same c s (drop_pending c false id key s) refl (omega arith) inv

  time_out-IsSolvent :
      (is_third : Bool) (params : Params) (apt : PendingTask) (key : TimeoutKey) (s t : Store S)
      → BankLaws c
      → KeeperLaws c
      → HasRatios params
      → is_nonneg apt.fee ≡ true
      → IsSolvent c s
      → time_out c is_third params apt key s ≡ ok t
      → IsSolvent c t
  unfolding time_out
  time_out-IsSolvent is_third params apt key s t bank keep ratios sign inv h =
      let ended : (Store S × Bool) → Store S = λ q. if q.1 then q.0 else fail_unpaid c apt q.0 in
      let (r, done, rest) =
        >>=-eq-ok (settle_audited_task c apt (stands c is_third params apt s) false params 0 s)
          (λ q. ok (drop_pending c is_third apt.task_id key (ended q))) h in
      let solvent =
        settle_audited_task-IsSolvent c apt (stands c is_third params apt s) params 0 s r bank keep
          ratios sign inv done in
      let end : t ≡ drop_pending c is_third apt.task_id key (ended r) = ground arith in
      let finished : IsSolvent c (ended r) = elim (Bool-cases r.1) [
        | inl over ↦ rw over solvent
        | inr forced ↦
            rw forced (IsSolvent-same c r.0 (fail_unpaid c apt r.0) refl (omega arith) solvent)
      ] in
      rw end (drop_pending-IsSolvent is_third apt.task_id key (ended r) finished)

  time_out_all-IsSolvent :
      (is_third : Bool) (params : Params) (apts : List PendingTask) (keys : List TimeoutKey)
      (s t : Store S)
      → BankLaws c
      → KeeperLaws c
      → HasRatios params
      → no_debts apts ≡ true
      → IsSolvent c s
      → time_out_all c is_third params apts keys s ≡ ok t
      → IsSolvent c t
  unfolding time_out_all
  time_out_all-IsSolvent is_third params [] keys s t bank keep ratios sign inv h =
      let end : t ≡ s = cc in rw end inv
  time_out_all-IsSolvent is_third params (apt ∷ apts) [] s t bank keep ratios sign inv h =
      ground arith
  time_out_all-IsSolvent is_third params (apt ∷ apts) (key ∷ keys) s t bank keep ratios sign inv h =
      let (u, first, next) =
        >>=-eq-ok (time_out c is_third params apt key s)
          (λ v. time_out_all c is_third params apts keys v) h in
      time_out_all-IsSolvent is_third params apts keys u t bank keep ratios (ground arith)
        (time_out-IsSolvent is_third params apt key s u bank keep ratios (ground arith) inv first)
        next

  timeouts_before-IsSolvent :
      (is_third : Bool) (wait : ℕ) (params : Params) (s : Store S) (r : Store S × ℕ)
      → BankLaws c
      → KeeperLaws c
      → HasRatios params
      → HasCharges (if is_third then s.third_pending else s.second_pending)
      → IsSolvent c s
      → timeouts_before c is_third wait params s ≡ ok r
      → IsSolvent c r.0
  unfolding process_timeouts_by_index
  timeouts_before-IsSolvent is_third wait params s r bank keep ratios sign inv h =
      let cutoff = c.height - wait in
      let keys = due_keys cutoff (if is_third then s.third_timeouts else s.second_timeouts) in
      let apts = due_tasks (if is_third then s.third_pending else s.second_pending) keys in
      elim (Bool-cases (cutoff == 0)) [
        | inl early ↦ let end : r.0 ≡ s = ground (arith, early, h) in rw end inv
        | inr due ↦
            let run : process_timeouts_by_index c is_third cutoff params s ≡ ok r =
              ground (arith, due, h) in
            let (t, done, rest) =
              >>=-eq-ok (time_out_all c is_third params apts keys s) (λ v. ok (v, length apts))
                run in
            let end : r.0 ≡ t = ground arith in
            rw end (
              time_out_all-IsSolvent is_third params apts keys s t bank keep ratios
                (no_debts-due_tasks (if is_third then s.third_pending else s.second_pending) keys
                  sign)
                inv done)
      ]

  -- The timeouts of second verifications leave the tasks that wait for a third one alone.
  time_out-third :
      (params : Params) (apt : PendingTask) (key : TimeoutKey) (s t : Store S)
      → BankLaws c
      → HasRatios params
      → time_out c false params apt key s ≡ ok t
      → t.third_pending ≡ s.third_pending
  unfolding time_out
  time_out-third params apt key s t bank ratios h =
      let ended : (Store S × Bool) → Store S = λ q. if q.1 then q.0 else fail_unpaid c apt q.0 in
      let (r, done, rest) =
        >>=-eq-ok (settle_audited_task c apt (stands c false params apt s) false params 0 s)
          (λ q. ok (drop_pending c false apt.task_id key (ended q))) h in
      let (second, third) =
        settle_audited_task-SameWaiting c apt (stands c false params apt s) params 0 s r bank ratios
          done in
      let end : t ≡ drop_pending c false apt.task_id key (ended r) = ground arith in
      let kept : (ended r).third_pending ≡ r.0.third_pending = elim (Bool-cases r.1) [
        | inl over ↦ rw over refl
        | inr forced ↦ rw forced refl
      ] in
      rw end (kept ∙ third)

  time_out_all-third :
      (params : Params) (apts : List PendingTask) (keys : List TimeoutKey) (s t : Store S)
      → BankLaws c
      → HasRatios params
      → time_out_all c false params apts keys s ≡ ok t
      → t.third_pending ≡ s.third_pending
  unfolding time_out_all
  time_out_all-third params [] keys s t bank ratios h = ground arith
  time_out_all-third params (apt ∷ apts) [] s t bank ratios h = ground arith
  time_out_all-third params (apt ∷ apts) (key ∷ keys) s t bank ratios h =
      let (u, first, next) =
        >>=-eq-ok (time_out c false params apt key s) (λ v. time_out_all c false params apts keys v)
          h in
      time_out_all-third params apts keys u t bank ratios next
      ∙ time_out-third params apt key s u bank ratios first

  timeouts_before-third :
      (wait : ℕ) (params : Params) (s : Store S) (r : Store S × ℕ)
      → BankLaws c
      → HasRatios params
      → timeouts_before c false wait params s ≡ ok r
      → r.0.third_pending ≡ s.third_pending
  unfolding process_timeouts_by_index
  timeouts_before-third wait params s r bank ratios h =
      let cutoff = c.height - wait in
      let keys = due_keys cutoff s.second_timeouts in
      let apts = due_tasks s.second_pending keys in
      elim (Bool-cases (cutoff == 0)) [
        | inl early ↦ let end : r.0 ≡ s = ground (arith, early, h) in rw end refl
        | inr due ↦
            let run : process_timeouts_by_index c false cutoff params s ≡ ok r =
              ground (arith, due, h) in
            let (t, done, rest) =
              >>=-eq-ok (time_out_all c false params apts keys s) (λ v. ok (v, length apts)) run in
            let end : r.0 ≡ t = ground arith in
            rw end (time_out_all-third params apts keys s t bank ratios done)
      ]

  -- With a bank and modules that keep their laws, and fee ratios that leave the executor a share: the
  -- upkeep at the end of a block (the clean-up, the timeouts of second and third verifications, the
  -- timeouts of reservations) leaves a solvent module solvent, unless it panics, where no waiting task
  -- has a negative fee.
  pub upkeep-IsSolvent :
      (s t : Store S)
      → BankLaws c
      → KeeperLaws c
      → HasRatios (get_params s)
      → HasCharges s.second_pending
      → HasCharges s.third_pending
      → IsSolvent c s
      → upkeep c s ≡ ok t
      → IsSolvent c t
  unfolding upkeep handle_second_verification_timeouts cleanup_expired_tasks
  upkeep-IsSolvent s t bank keep ratios waits2 waits3 inv h =
      let params = get_params s in
      let clean = (cleanup_expired_tasks c s).0 in
      let kept = IsSolvent-same c s clean refl (omega arith) inv in
      let (r, handled, last) =
        >>=-eq-ok (handle_second_verification_timeouts c clean)
          (λ q. ok (handle_frozen_balance_timeouts c q.0).0) h in
      let (u, second, more) =
        >>=-eq-ok (timeouts_before c false params.second_verification_timeout params clean)
          (λ q. timeouts_before c true params.third_verification_timeout params q.0 >>= λ v.
            ok (v.0, q.1 + v.1))
          handled in
      let (v, third, sum) =
        >>=-eq-ok (timeouts_before c true params.third_verification_timeout params u.0)
          (λ w. ok (w.0, u.1 + w.1)) more in
      let after_second =
        timeouts_before-IsSolvent false params.second_verification_timeout params clean u bank keep
          ratios waits2 kept second in
      let same_third =
        timeouts_before-third params.second_verification_timeout params clean u bank ratios
          second in
      let charges : HasCharges u.0.third_pending = λ id apt e. waits3 id apt (rw same_third at e) in
      let after_third =
        timeouts_before-IsSolvent true params.third_verification_timeout params u.0 v bank keep
          ratios charges after_second third in
      let same : r.0 ≡ v.0 = ground arith in
      let end : t ≡ (handle_frozen_balance_timeouts c v.0).0 = ground (arith, same) in
      rw end (handle_frozen_balance_timeouts-IsSolvent c v.0 keep after_third)
