-- ===== src/Vrf/Run.antt =====
-- x/vrf/keeper/msg_server.go and module.go, with the callbacks of app/app.go: the module's messages
-- and blocks.
use funai_chain.Base.{
  ℕ, ◌+◌, ◌*◌, ◌/◌, ◌^◌, not, ◌==◌, ltb, leb, if◌then◌else◌, Option, none, some, List, [], ◌∷◌,
  length, is_some, u64,
}
use funai_chain.Base.Result.{Result, ok, err}
use funai_chain.Vrf.Types.{
  VrfError, unauthorized, insufficient_proofs, leader_not_found, leader_in_time, bad_creator,
  empty_proof, empty_value, empty_model, MsgSubmitVrfProof, MsgLeaderHeartbeat,
  MsgReportLeaderTimeout,
}
use funai_chain.Vrf.Keeper.{VrfStore, VrfContext, get_vrf_params, get_leader_info, update_seed}
use funai_chain.Vrf.Leader.{update_leader_heartbeat, check_leader_timeouts}
use funai_chain.Vrf.Committee.{handle_committee_rotation}

module _ {F G : Type 0} (c : VrfContext F G) where
  unfoldable pub validate_submit : MsgSubmitVrfProof → Option VrfError
  validate_submit m =
      if not (is_some (c.decode m.creator))
      then some bad_creator
      else if length m.proof == 0
      then some empty_proof
      else if length m.value == 0
      then some empty_value
      else none

  unfoldable pub validate_heartbeat : MsgLeaderHeartbeat → Option VrfError
  validate_heartbeat m =
      if not (is_some (c.decode m.creator))
      then some bad_creator
      else if m.model_id == 0
      then some empty_model
      else none

  unfoldable pub validate_report : MsgReportLeaderTimeout → Option VrfError
  validate_report m =
      if not (is_some (c.decode m.creator))
      then some bad_creator
      else if m.model_id == 0
      then some empty_model
      else if length m.timeout_proofs == 0
      then some insufficient_proofs
      else none

  unfoldable pub submit_vrf_proof : MsgSubmitVrfProof → VrfStore → Result VrfError VrfStore
  unfolding update_seed
  submit_vrf_proof m s =
      if m.creator == c.authority then ok (update_seed c (m.value ∷ []) s) else err unauthorized

  unfoldable pub leader_heartbeat : MsgLeaderHeartbeat → VrfStore → Result VrfError VrfStore
  unfolding update_leader_heartbeat
  leader_heartbeat m s = update_leader_heartbeat c m.model_id m.creator s

  -- It leaves the store as it is: all it does is an event. The product wraps, and from 2^63 on it
  -- is negative.
  unfoldable pub report_leader_timeout :
      MsgReportLeaderTimeout → VrfStore → Result VrfError VrfStore
  report_leader_timeout m s =
      let p = get_vrf_params s in
      let product = u64 (p.timeout_proof_percent * p.committee_size) in
      let required = if leb (2 ^ 63) product then 0 else product / 100 in
      if not (m.creator == c.authority)
      then err unauthorized
      else if ltb (length m.timeout_proofs) required
      then err insufficient_proofs
      else elim (get_leader_info m.model_id s) [
        | none ↦ err leader_not_found
        | some l ↦
            if leb c.height (l.last_heartbeat + p.leader_timeout_blocks)
            then err leader_in_time
            else ok s
      ]

  -- `BeginBlock`, with what the provider of workers answers; `sync` is what its last callback
  -- writes.
  unfoldable pub vrf_begin_block :
      List ℕ → (ℕ → List ℕ) → (VrfStore → VrfStore) → List ℕ → VrfStore → Option VrfStore
  unfolding check_leader_timeouts handle_committee_rotation
  vrf_begin_block models online_workers sync eligible s =
      handle_committee_rotation c eligible (sync (check_leader_timeouts c models online_workers s))
