-- ===== src/Vrf/Leader.antt =====
-- x/vrf/keeper/keeper.go: the leader of a model: its election, its heartbeat, its replacement.
use funai_chain.Base.{
  ℕ, ◌+◌, ◌||◌, Bool, ◌==◌, ltb, leb, if◌then◌else◌, none, some, List, [], ◌∷◌, ◌++◌, length,
}
use funai_chain.Base.Result.{Result, ok, err, panic}
use funai_chain.Vrf.Types.{
  Bytes, alpha_dispatch, VrfError, no_eligible_workers, no_pubkey, leader_not_found, not_leader,
  LeaderInfo,
}
use funai_chain.Vrf.Rank.{RankedWorker, Scored, rank_workers}
use funai_chain.Vrf.Keeper.{
  VrfStore, VrfContext, get_vrf_params, get_leader_info, set_leader_info, get_worker_status,
}
use funai_chain.Vrf.Select.{ranked_worker, stake_of, block_hash}

module _ {F G : Type 0} (c : VrfContext F G) where
  -- The workers of the list whose key is known.
  unfoldable pub keyed : List ℕ → VrfStore → List (RankedWorker F)
  keyed [] s = []
  keyed (a ∷ addrs) s =
      let rest = keyed addrs s in
      elim (get_worker_status a s) [
        | none ↦ rest
        | some w ↦
            if length w.pubkey == 0 then rest else ranked_worker c a w.pubkey (stake_of w) ∷ rest
      ]

  abbrev pub leader_seed : ℕ → VrfStore → Bytes
  leader_seed model s = c.floats.sha256 (c.bytes_of model ++ 0 ∷ block_hash c s)

  abbrev pub elected : ℕ → ℕ → VrfStore → LeaderInfo
  elected a model s = record {
    address = a;
    model_id = model;
    start_block = c.height;
    end_block = c.height + (get_vrf_params s).leader_epoch_duration;
    last_heartbeat = c.height;
  }

  -- The order of the candidates for leader.
  unfoldable pub leader_ranking : ℕ → List ℕ → VrfStore → List (Scored c.floats)
  unfolding keyed rank_workers
  leader_ranking model workers s =
      rank_workers c.floats (leader_seed model s) alpha_dispatch (keyed workers s)

  unfoldable pub select_leader : ℕ → List ℕ → VrfStore → Result VrfError (ℕ × VrfStore)
  unfolding leader_ranking
  select_leader model workers s =
      if length workers == 0
      then err no_eligible_workers
      else elim (leader_ranking model workers s) [
        | [] ↦ err no_pubkey
        | e ∷ _ ↦ ok (e.1.address, set_leader_info (elected e.1.address model s) s)
      ]

  unfoldable pub update_leader_heartbeat : ℕ → ℕ → VrfStore → Result VrfError VrfStore
  update_leader_heartbeat model sender s = elim (get_leader_info model s) [
    | none ↦ err leader_not_found
    | some l ↦
        if l.address == sender
        then ok (set_leader_info (record l { last_heartbeat = c.height }) s)
        else err not_leader
  ]

  -- What is left where the election fails is the store as it was.
  abbrev pub or_keep : VrfStore → Result VrfError (ℕ × VrfStore) → VrfStore
  or_keep s (ok r) = r.1
  or_keep s (err e) = s
  or_keep s panic = s

  -- Its term is over, or it has been silent for too long.
  abbrev pub is_overdue : LeaderInfo → VrfStore → Bool
  is_overdue l s =
      leb l.end_block c.height
      || ltb (l.last_heartbeat + (get_vrf_params s).leader_timeout_blocks) c.height

  -- One pass of the loop of CheckLeaderTimeouts.
  unfoldable pub check_leader : (ℕ → List ℕ) → ℕ → VrfStore → VrfStore
  unfolding select_leader
  check_leader online_workers model s = elim (get_leader_info model s) [
    | none ↦ s
    | some l ↦
        let workers = online_workers model in
        let anew = or_keep s (select_leader model workers s) in
        if is_overdue l s then (if length workers == 0 then s else anew) else s
  ]

  unfoldable pub check_leader_timeouts : List ℕ → (ℕ → List ℕ) → VrfStore → VrfStore
  unfolding check_leader
  check_leader_timeouts [] online_workers s = s
  check_leader_timeouts (m ∷ ms) online_workers s =
      check_leader_timeouts ms online_workers (check_leader online_workers m s)
