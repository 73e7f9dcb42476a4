-- ===== src/Vrf/Trace.antt =====
-- x/vrf as a state machine, under the callbacks of app/app.go: what holds along every run.
use funai_chain.Base.{ℕ, ◌≡◌, ◌≢◌, List, [], ◌∷◌, Dict, arith, refl, ◌∙◌}
use funai_chain.Base.Result.{err}
use funai_chain.Vrf.Types.{Bytes, no_online_workers, VrfWorkerStatus}
use funai_chain.Vrf.Keeper.{VrfStore, VrfContext}
use funai_chain.Vrf.Select.{
  online, draw, select_worker_for_task, select_verifiers_for_task, select_second_verifiers_for_task,
}
use funai_chain.Vrf.Run.{submit_vrf_proof}
use funai_chain.Vrf.Seated.{select_committee-eq-ok}
use funai_chain.Vrf.Reach.{
  VrfStep, submit, heartbeat, report, committee, block, IsDark, heartbeat-Keeps, report-Keeps,
  block_lem, step-IsDark,
}

-- Any number of steps, each at its own height.
pub data VrfRun (F G : Type 0) (decode_hex : ℕ → Bytes) (s : VrfStore) : VrfStore → Type 0 where
  start : VrfRun F G decode_hex s s
  next :
      {t u : VrfStore} (c : VrfContext F G)
      → VrfRun F G decode_hex s t
      → VrfStep decode_hex c t u
      → VrfRun F G decode_hex s u

-- No message of the run that submits a proof comes from the authority.
abbrev pub IsOutside :
    {F G : Type 0} {decode_hex : ℕ → Bytes} {c : VrfContext F G} {s t : VrfStore}
    → VrfStep decode_hex c s t
    → Type 0
IsOutside {c = c} (submit m e) = m.creator ≢ c.authority
IsOutside (heartbeat m e) = Unit
IsOutside (report m e) = Unit
IsOutside (committee workers info e) = Unit
IsOutside (block workers e) = Unit

abbrev pub AllOutside :
    {F G : Type 0} {decode_hex : ℕ → Bytes} {s t : VrfStore} → VrfRun F G decode_hex s t → Type 0
AllOutside start = Unit
AllOutside (next c run step) = AllOutside run × IsOutside step

dark-online : (model : ℕ) (d : Dict VrfWorkerStatus) → IsDark d → online model d ≡ []
dark-online model [] dark = refl
dark-online model (e ∷ d) dark =
    let off = dark.0 in let rest = dark-online model d dark.1 in ground (arith, off, rest)

module _ {F G : Type 0} (decode_hex : ℕ → Bytes) where
  run-IsDark : (s t : VrfStore) → VrfRun F G decode_hex s t → IsDark s.statuses → IsDark t.statuses
  run-IsDark s t start dark = dark
  run-IsDark s t (next {t = u} c run step) dark =
      step-IsDark decode_hex c u t step (run-IsDark s u run dark)

  step-seed :
      (c : VrfContext F G) (s t : VrfStore) (step : VrfStep decode_hex c s t)
      → IsOutside step
      → t.seed ≡ s.seed
  unfolding submit_vrf_proof
  step-seed c s t (submit m e) out = ground (arith, e, out)
  step-seed c s t (heartbeat m e) out = (heartbeat-Keeps c m s t e).0
  step-seed c s t (report m e) out = (report-Keeps c m s t e).0
  step-seed c s t (committee workers info e) out =
      let got = select_committee-eq-ok c workers s t info e in rw got.3 refl
  step-seed c s t (block ws e) out = (block_lem decode_hex c ws s t e).0

  -- Whatever messages, blocks and draws follow each other, at whatever heights, the seed stays
  -- as it is unless the authority itself submits a proof.
  pub outsiders_keep_seed :
      (s t : VrfStore) (run : VrfRun F G decode_hex s t) → AllOutside run → t.seed ≡ s.seed
  outsiders_keep_seed s t start out = refl
  outsiders_keep_seed s t (next {t = u} c run step) out =
      step-seed c u t step out.1 ∙ outsiders_keep_seed s u run out.0

  -- From a store without statuses, which is what genesis leaves, the app can never select a worker
  -- or a verifier for a task from x/vrf: the statuses that it copies are of workers that are not
  -- online.
  pub nobody_serves :
      (s t : VrfStore)
      → s.statuses ≡ []
      → VrfRun F G decode_hex s t
      → (c : VrfContext F G) (task model count executor : ℕ) (result_hash : Bytes)
        (excluded : List ℕ)
      → (select_worker_for_task c task model t ≡ err no_online_workers)
        × (select_verifiers_for_task c task result_hash model executor count t
            ≡ err no_online_workers)
        × (select_second_verifiers_for_task c task model excluded count t ≡ err no_online_workers)
  unfolding select_worker_for_task select_verifiers_for_task select_second_verifiers_for_task draw
  nobody_serves s t fresh run c task model count executor result_hash excluded =
      let dark : IsDark t.statuses = run-IsDark s t run (rw fresh tt) in
      let none_online : online model t.statuses ≡ [] = dark-online model t.statuses dark in
      (
        rw (select_worker_for_task, none_online) refl,
        rw (select_verifiers_for_task, none_online) refl,
        rw (select_second_verifiers_for_task, none_online) refl,
      )
