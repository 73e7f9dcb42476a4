-- ===== src/Settlement/Upkeep/Timeouts.antt =====
-- x/settlement/keeper/keeper.go: `HandleSecondVerificationTimeouts`, `processTimeoutsByIndex` and
-- `CleanupExpiredTasks`.
use funai_chain.Base.{
  ℕ, ◌+◌, ◌-◌, ◌==◌, ◌&&◌, not, Bool, true, false, ltb, leb, if◌then◌else◌, none, some, List, [],
  ◌∷◌, Dict, lookup, erase, length,
}
use funai_chain.Base.Result.{Result, ok, panic, ◌>>=◌}
use funai_chain.Settlement.Params.{Params}
use funai_chain.Settlement.Types.{Error, PendingTask, SettledTask, is_success}
use funai_chain.Settlement.Store.{Context, Store, TimeoutKey, drop_key, get_params}
use funai_chain.Settlement.Audit.Settle.{settle_audited_task}
use funai_chain.Settlement.Audit.Judgment.{pass_count, fail_unpaid}

-- The keys up to the cutoff, and the tasks that are still there of them. An empty task is passed over.
abbrev pub due_keys : ℕ → List TimeoutKey → List TimeoutKey
due_keys cutoff [] = []
due_keys cutoff (key ∷ keys) =
    let rest = due_keys cutoff keys in if leb key.0 cutoff then key ∷ rest else rest

abbrev pub due_tasks : Dict PendingTask → List TimeoutKey → List PendingTask
due_tasks pending [] = []
due_tasks pending (key ∷ keys) =
    let rest = due_tasks pending keys in
    let here : List PendingTask = elim (lookup key.1 pending) [
      | none ↦ rest
      | some apt ↦ apt ∷ rest
    ] in
    if key.1 == 0 then rest else here

module _ {S : Type 0} (c : Context S) where
  -- The original result stands, or that of the second verification where a third one was due.
  abbrev pub stands : Bool → Params → PendingTask → Store S → Bool
  stands is_third params apt s =
      let original = is_success apt.original_status in
      let judged : Bool = elim (lookup apt.task_id s.records) [
        | none ↦ original
        | some ar ↦ leb params.second_verification_match_threshold (pass_count ar.results)
      ] in
      if is_third then judged else original

  abbrev pub drop_pending : Bool → ℕ → TimeoutKey → Store S → Store S
  drop_pending true id key s = record s {
    third_pending = erase id s.third_pending;
    third_timeouts = drop_key key s.third_timeouts;
  }
  drop_pending false id key s = record s {
    second_pending = erase id s.second_pending;
    second_timeouts = drop_key key s.second_timeouts;
  }

  -- A task that cannot be settled is recorded as failed.
  unfoldable pub time_out :
      Bool → Params → PendingTask → TimeoutKey → Store S → Result Error (Store S)
  time_out is_third params apt key s =
      settle_audited_task c apt (stands is_third params apt s) false params 0 s >>= λ r.
      ok (drop_pending is_third apt.task_id key (if r.1 then r.0 else fail_unpaid c apt r.0))

  -- The key at a task's place in the list of tasks is deleted with it, also where a key before it had
  -- no task.
  unfoldable pub time_out_all :
      Bool → Params → List PendingTask → List TimeoutKey → Store S → Result Error (Store S)
  unfolding time_out
  time_out_all is_third params [] keys s = ok s
  time_out_all is_third params (apt ∷ apts) [] s = panic
  time_out_all is_third params (apt ∷ apts) (key ∷ keys) s =
      time_out is_third params apt key s >>= λ t. time_out_all is_third params apts keys t

  unfoldable pub process_timeouts_by_index :
      Bool → ℕ → Params → Store S → Result Error (Store S × ℕ)
  unfolding time_out_all
  process_timeouts_by_index is_third cutoff params s =
      let keys = due_keys cutoff (if is_third then s.third_timeouts else s.second_timeouts) in
      let apts = due_tasks (if is_third then s.third_pending else s.second_pending) keys in
      time_out_all is_third params apts keys s >>= λ t. ok (t, length apts)

  -- The cutoff is a difference of heights, and nothing is done until it is positive.
  abbrev pub timeouts_before : Bool → ℕ → Params → Store S → Result Error (Store S × ℕ)
  timeouts_before is_third wait params s =
      let cutoff = c.height - wait in
      if cutoff == 0 then ok (s, 0) else process_timeouts_by_index is_third cutoff params s

  unfoldable pub handle_second_verification_timeouts : Store S → Result Error (Store S × ℕ)
  unfolding process_timeouts_by_index
  handle_second_verification_timeouts s =
      let params = get_params s in
      timeouts_before false params.second_verification_timeout params s >>= λ r.
      timeouts_before true params.third_verification_timeout params r.0 >>= λ u. ok (u.0, r.1 + u.1)

  abbrev pub is_stale : ℕ → SettledTask → Bool
  is_stale cutoff st =
      not (st.expire_block == 0) && not (st.settled_at == 0) && ltb st.settled_at cutoff

  abbrev pub drop_stale : ℕ → Dict SettledTask → Dict SettledTask
  drop_stale cutoff [] = []
  drop_stale cutoff (e ∷ d) =
      let rest = drop_stale cutoff d in if is_stale cutoff e.1 then rest else e ∷ rest

  unfoldable pub cleanup_expired_tasks : Store S → Store S × ℕ
  cleanup_expired_tasks s =
      let left = drop_stale (c.height - (get_params s).task_cleanup_buffer) s.settled in
      (record s { settled = left }, length s.settled - length left)
