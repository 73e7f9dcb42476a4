-- ===== src/Vrf/Reach.antt =====
-- x/vrf as a state machine, under the callbacks of app/app.go: its messages, its blocks, and the
-- draw that x/worker asks for, at any heights.
use funai_chain.Base.{
  ℕ, ◌≡◌, ◌+◌, false, ◌==◌, leb, some, List, [], ◌∷◌, Dict, Each, Each-insert, length, lookup,
  insert, arith, refl, ◌∙◌, Bool-cases, Option-cases, inl, inr,
}
use funai_chain.Base.Result.{ok, Result-cases}
use funai_chain.Worker.Types.{Worker, is_active}
use funai_chain.Vrf.Types.{
  Bytes, CommitteeInfo, VrfWorkerStatus, MsgSubmitVrfProof, MsgLeaderHeartbeat,
  MsgReportLeaderTimeout,
}
use funai_chain.Vrf.Keeper.{VrfStore, VrfContext, get_vrf_params, update_seed}
use funai_chain.Vrf.Leader.{check_leader, check_leader_timeouts, update_leader_heartbeat}
use funai_chain.Vrf.Committee.{select_committee, rotated, handle_committee_rotation}
use funai_chain.Vrf.Run.{submit_vrf_proof, leader_heartbeat, report_leader_timeout, vrf_begin_block}
use funai_chain.Vrf.Sync.{
  active_model_ids, online_workers_by_model, eligible_addresses, synced_status, sync_workers,
  app_begin_block,
}
use funai_chain.Vrf.Elected.{check_leader_apart}
use funai_chain.Vrf.Seated.{select_committee-eq-ok}

-- The seed and the statuses are as they were.
abbrev pub Keeps : VrfStore → VrfStore → Type 0
Keeps s t = (t.seed ≡ s.seed) × (t.statuses ≡ s.statuses)

module _ {F G : Type 0} where
  -- One message, one block or one draw of x/worker. What `decode_hex` is, is the same throughout.
  pub data VrfStep (decode_hex : ℕ → Bytes) (c : VrfContext F G) (s t : VrfStore) : Type 0 where
    submit : (m : MsgSubmitVrfProof) → submit_vrf_proof c m s ≡ ok t → VrfStep decode_hex c s t
    heartbeat : (m : MsgLeaderHeartbeat) → leader_heartbeat c m s ≡ ok t → VrfStep decode_hex c s t
    report :
        (m : MsgReportLeaderTimeout) → report_leader_timeout c m s ≡ ok t → VrfStep decode_hex c s t
    committee :
        (workers : List ℕ) (info : CommitteeInfo)
        → select_committee c workers s ≡ ok (info, t)
        → VrfStep decode_hex c s t
    block :
        (workers : List Worker)
        → app_begin_block c decode_hex workers s ≡ some t
        → VrfStep decode_hex c s t

  pub heartbeat-Keeps :
      (c : VrfContext F G) (m : MsgLeaderHeartbeat) (s t : VrfStore)
      → leader_heartbeat c m s ≡ ok t
      → Keeps s t
  unfolding leader_heartbeat update_leader_heartbeat
  heartbeat-Keeps c m s t e = elim (Option-cases (lookup m.model_id s.leaders)) [
    | inl missing ↦ ground (arith, e, missing)
    | inr (l, there) ↦ (ground (arith, e, there), ground (arith, e, there))
  ]

  pub report-Keeps :
      (c : VrfContext F G) (m : MsgReportLeaderTimeout) (s t : VrfStore)
      → report_leader_timeout c m s ≡ ok t
      → Keeps s t
  unfolding report_leader_timeout
  report-Keeps c m s t e = elim (Option-cases (lookup m.model_id s.leaders)) [
    | inl missing ↦ ground (arith, e, missing)
    | inr (l, there) ↦ (ground (arith, e, there), ground (arith, e, there))
  ]

  check-Keeps :
      (c : VrfContext F G) (models : List ℕ) (online_workers : ℕ → List ℕ) (s : VrfStore)
      → Keeps s (check_leader_timeouts c models online_workers s)
  unfolding check_leader_timeouts
  check-Keeps c [] online_workers s = (refl, refl)
  check-Keeps c (m ∷ ms) online_workers s =
      let t = check_leader c online_workers m s in
      let rest = check-Keeps c ms online_workers t in
      let pass = check_leader_apart c online_workers m s in
      (rest.0 ∙ rw pass.1 refl, rest.1 ∙ rw pass.1 refl)

  rotated-Keeps :
      (c : VrfContext F G) (workers : List ℕ) (s t : VrfStore)
      → rotated s (select_committee c workers s) ≡ some t
      → Keeps s t
  rotated-Keeps c workers s t e = elim (Result-cases (select_committee c workers s)) [
    | inl (r, drawn) ↦
        let got = select_committee-eq-ok c workers s r.1 r.0 drawn in
        let end : t ≡ r.1 = ground (arith, e, drawn) in (rw (end, got.3) refl, rw (end, got.3) refl)
    | inr (inl (x, refused)) ↦ (ground (arith, e, refused), ground (arith, e, refused))
    | inr (inr crash) ↦ (ground (arith, e, crash), ground (arith, e, crash))
  ]

  rotation-Keeps :
      (c : VrfContext F G) (workers : List ℕ) (s t : VrfStore)
      → handle_committee_rotation c workers s ≡ some t
      → Keeps s t
  unfolding handle_committee_rotation
  rotation-Keeps c workers s t e = elim (Option-cases s.committee) [
    | inl first ↦ rotated-Keeps c workers s t (ground (arith, e, first))
    | inr (old, there) ↦
        elim (Bool-cases
          (leb (old.rotation_block + (get_vrf_params s).committee_rotation) c.height)) [
            | inl due ↦ rotated-Keeps c workers s t (ground (arith, e, there, due))
            | inr early ↦ (ground (arith, e, there, early), ground (arith, e, there, early))
          ]
  ]

sync-seed :
    (decode_hex : ℕ → Bytes) (ws : List Worker) (s : VrfStore)
    → (sync_workers decode_hex ws s).seed ≡ s.seed
unfolding sync_workers
sync-seed decode_hex [] s = refl
sync-seed decode_hex (w ∷ ws) s =
    let status = synced_status (decode_hex w.pubkey) w in
    let copied = record s { statuses = insert w.address status s.statuses } in
    ground (arith, sync-seed decode_hex ws s, sync-seed decode_hex ws copied)

-- No status is that of a worker that is online.
abbrev pub IsDark : Dict VrfWorkerStatus → Type 0
IsDark d = Each (λ k (w : VrfWorkerStatus). w.is_online ≡ false) d

sync-IsDark :
    (decode_hex : ℕ → Bytes) (ws : List Worker) (s : VrfStore)
    → IsDark s.statuses
    → IsDark (sync_workers decode_hex ws s).statuses
unfolding sync_workers
sync-IsDark decode_hex [] s dark = dark
sync-IsDark decode_hex (w ∷ ws) s dark =
    let key = decode_hex w.pubkey in
    let status = synced_status key w in
    let copied = record s { statuses = insert w.address status s.statuses } in
    let passed_over = sync-IsDark decode_hex ws s dark in
    elim (Bool-cases (is_active w)) [
      | inr idle ↦ rw idle passed_over
      | inl works ↦ elim (Bool-cases (length key == 0)) [
        | inl blank ↦ rw (works, blank) passed_over
        | inr keyed ↦
            rw (works, keyed)
              (sync-IsDark decode_hex ws copied
                (Each-insert _ w.address status s.statuses refl dark))
      ]
    ]

module _ {F G : Type 0} (decode_hex : ℕ → Bytes) where
  pub block_lem :
      (c : VrfContext F G) (ws : List Worker) (s t : VrfStore)
      → app_begin_block c decode_hex ws s ≡ some t
      → (t.seed ≡ s.seed) × (IsDark s.statuses → IsDark t.statuses)
  unfolding app_begin_block vrf_begin_block
  block_lem c ws s t e =
      let u = check_leader_timeouts c (active_model_ids ws []) (online_workers_by_model ws) s in
      let leaders = check-Keeps c (active_model_ids ws []) (online_workers_by_model ws) s in
      let v = sync_workers decode_hex ws u in
      let turn = rotation-Keeps c (eligible_addresses ws) v t e in
      (
        turn.0 ∙ sync-seed decode_hex ws u ∙ leaders.0,
        λ dark. rw turn.1 (sync-IsDark decode_hex ws u (rw leaders.1 dark)),
      )

  pub step-IsDark :
      (c : VrfContext F G) (s t : VrfStore)
      → VrfStep decode_hex c s t
      → IsDark s.statuses
      → IsDark t.statuses
  unfolding submit_vrf_proof update_seed
  step-IsDark c s t (submit m e) dark =
      let same : t.statuses ≡ s.statuses = ground (arith, e) in rw same dark
  step-IsDark c s t (heartbeat m e) dark = rw (heartbeat-Keeps c m s t e).1 dark
  step-IsDark c s t (report m e) dark = rw (report-Keeps c m s t e).1 dark
  step-IsDark c s t (committee workers info e) dark =
      let got = select_committee-eq-ok c workers s t info e in rw got.3 dark
  step-IsDark c s t (block ws e) dark = (block_lem c ws s t e).1 dark
