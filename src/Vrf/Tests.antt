-- ===== src/Vrf/Tests.antt =====
-- Small runs of x/vrf, with whole numbers of thousandths for the two kinds of floats and the
-- identity for the hash, and a witness for each property.
use mathlib.Core.List.{Permᴰ}
use funai_chain.Base.{
  pos, ℕ, ◌≡◌, ◌≢◌, ◌≤◌, ◌*◌, ◌/◌, true, false, ◌==◌, ltb, none, some, List, [], ◌∷◌, All, length,
  arith, refl,
}
use funai_chain.Base.Result.{ok, err}
use funai_chain.Vrf.Types.{
  Bytes, validate_vrf_params, LeaderInfo, CommitteeInfo, VrfWorkerStatus, alpha_dispatch,
}
use funai_chain.Vrf.Rank.{
  Floats, RankedWorker, rank_workers, sort, place, before, score, rep_speed, effective_stake,
  rank_speed_multiplier, compute_score, compute_score_by_float_weight,
}
use funai_chain.Vrf.Lists.{HasDistinct}
use funai_chain.Vrf.Order.{OrderLaws, rank_workers_unordered}
use funai_chain.Vrf.Keeper.{VrfStore, VrfContext, get_leader_info, get_vrf_params}
use funai_chain.Vrf.Select.{has, candidates, draw, select_verifiers_for_task, get_online_workers}
use funai_chain.Vrf.Leader.{
  keyed, check_leader_timeouts, check_leader, select_leader, leader_ranking,
}
use funai_chain.Vrf.Committee.{select_committee, committee_ranking, member_addresses}
use funai_chain.Vrf.Online.{IsServing}
use funai_chain.Vrf.Drawn.{quota}
use funai_chain.Vrf.Selected.{select_verifiers_for_task-IsServing}
use funai_chain.Vrf.Elected.{check_leader_timeouts_unordered}
use funai_chain.Vrf.Term.{IsInTerm, check_leader_timeouts-IsInTerm}
use funai_chain.Worker.Types.{Worker, active, reputation_initial}
use funai_chain.Vrf.Types.{no_online_workers}
use funai_chain.Vrf.Select.{select_worker_for_task, select_second_verifiers_for_task}
use funai_chain.Vrf.Run.{vrf_begin_block}
use funai_chain.Vrf.Committee.{handle_committee_rotation}
use funai_chain.Vrf.Sync.{
  synced_status, app_begin_block, active_model_ids, online_workers_by_model, sync_workers,
}
use funai_chain.Vrf.Reach.{block}
use funai_chain.Vrf.Trace.{VrfRun, start, next, outsiders_keep_seed, nobody_serves}
use funai_chain.Vrf.Seated.{IsKeyed, select_committee-IsKeyed}

abbrev thousandths : Floats ℕ ℕ
thousandths = record {
  literal = λ n d. n * 1000 / d;
  of_uint32 = λ n. n * 1000;
  fdiv = λ x y. x * 1000 / y;
  fmul = λ x y. x * y / 1000;
  flt = ltb;
  feq = λ x y. x == y;
  of_int = λ n. n * 1000;
  of_float = λ x. x;
  mul = λ x y. x * y / 1000;
  quo = λ x y. x * 1000 / y;
  sqrt = λ x. x;
  to_int = λ x. x / 1000;
  to_uint64 = λ x. x / 1000;
  lt = ltb;
  sha256 = λ bs. bs;
}

thousandths-laws : OrderLaws thousandths
thousandths-laws = record {
  lt_asym = λ x y h. ground (arith, h);
  lt_split = λ x y z h k. ground (arith, h, k);
}

abbrev context : VrfContext ℕ ℕ
context = record {
  height = 20;
  header_hash = 1 ∷ [];
  authority = 9;
  bytes_of = λ n. n ∷ [];
  genesis_seed = 3 ∷ [];
  decode = λ n. some n;
  floats = thousandths;
}

abbrev status : ℕ → Bytes → VrfWorkerStatus
status a key = record {
  address = a;
  pubkey = key;
  is_online = true;
  is_busy = false;
  model_ids = 7 ∷ [];
  stake = 1;
}

abbrev old_leader : LeaderInfo
old_leader = record {
  address = 1;
  model_id = 7;
  start_block = 10;
  end_block = 16;
  last_heartbeat = 15;
}

abbrev store : VrfStore
store = record {
  params = none;
  seed = none;
  leaders = (7, old_leader) ∷ [];
  committee = none;
  statuses = (1, status 1 (8 ∷ [])) ∷ (2, status 2 (5 ∷ [])) ∷ (3, status 3 (6 ∷ [])) ∷ [];
}

abbrev ranked : ℕ → Bytes → RankedWorker ℕ
ranked a key = record { address = a; pubkey = key; stake = 1; reputation = 0; avg_latency_ms = 0 }

abbrev first_order : List (RankedWorker ℕ)
first_order = ranked 1 (8 ∷ []) ∷ ranked 2 (5 ∷ []) ∷ []

abbrev second_order : List (RankedWorker ℕ)
second_order = ranked 2 (5 ∷ []) ∷ ranked 1 (8 ∷ []) ∷ []

rank_workers_unordered_example :
    rank_workers thousandths [] alpha_dispatch first_order
    ≡ rank_workers thousandths [] alpha_dispatch second_order
rank_workers_unordered_example =
    rank_workers_unordered thousandths thousandths-laws [] alpha_dispatch
      (((λ same. ground arith), tt), (tt, tt)) (Permᴰ.swap refl refl)

selected_run : select_verifiers_for_task context 4 (2 ∷ []) 7 1 3 store ≡ ok (2 ∷ 3 ∷ [])
unfolding select_verifiers_for_task draw candidates rank_workers sort place before score rep_speed
    effective_stake rank_speed_multiplier compute_score compute_score_by_float_weight
selected_run = refl

select_verifiers_for_task-IsServing_example :
    All (λ a. IsServing 7 store.statuses a × (a ≢ 1)) (2 ∷ 3 ∷ [])
    × HasDistinct (λ (a : ℕ). a) (2 ∷ 3 ∷ [])
    × (1 ≤ length {A = ℕ} (2 ∷ 3 ∷ []))
    × (length {A = ℕ} (2 ∷ 3 ∷ [])
        ≡ quota context 3 (length (candidates context (λ a. a == 1) (get_online_workers 7 store))))
select_verifiers_for_task-IsServing_example =
    select_verifiers_for_task-IsServing context 4 (2 ∷ []) 7 1 3 store (2 ∷ 3 ∷ [])
      ((refl, (refl, (refl, tt))), (refl, (refl, (refl, tt)))) selected_run

abbrev online_now : ℕ → List ℕ
online_now model = 2 ∷ 3 ∷ []

one_distinct : HasDistinct (λ (a : ℕ). a) (7 ∷ 6 ∷ [])
one_distinct = (((λ same. ground arith), tt), (tt, tt))

valid_params : validate_vrf_params (get_vrf_params store) ≡ true
unfolding validate_vrf_params
valid_params = refl

other_distinct : HasDistinct (λ (a : ℕ). a) (6 ∷ 7 ∷ [])
other_distinct = (((λ same. ground arith), tt), (tt, tt))

pair_distinct : HasDistinct (λ (a : ℕ). a) (2 ∷ 3 ∷ [])
pair_distinct = (((λ same. ground arith), tt), (tt, tt))

same_models : (k : ℕ) → has k (7 ∷ 6 ∷ []) ≡ has k (6 ∷ 7 ∷ [])
same_models k = ground arith

keys_there : keyed context (online_now 7) store ≢ []
unfolding keyed
keys_there = λ none_there. ground (arith, none_there)

check_leader_timeouts-IsInTerm_example :
    (l : LeaderInfo) × (get_leader_info 7
        (check_leader_timeouts context (7 ∷ 6 ∷ []) online_now store)
      ≡ some l)
    × IsInTerm context store l
check_leader_timeouts-IsInTerm_example =
    check_leader_timeouts-IsInTerm context online_now (7 ∷ 6 ∷ []) store 7 old_leader valid_params
      one_distinct refl refl keys_there

check_leader_timeouts_unordered_example :
    get_leader_info 7 (check_leader_timeouts context (7 ∷ 6 ∷ []) online_now store)
    ≡ get_leader_info 7 (check_leader_timeouts context (6 ∷ 7 ∷ []) online_now store)
check_leader_timeouts_unordered_example =
    check_leader_timeouts_unordered context online_now (7 ∷ 6 ∷ []) (6 ∷ 7 ∷ []) store 7
      one_distinct other_distinct same_models

abbrev drawn_info : CommitteeInfo
drawn_info = record {
  members =
      record { address = 2; vrf_hash = 1 ∷ 5 ∷ [] }
      ∷ record { address = 3; vrf_hash = 1 ∷ 6 ∷ [] }
      ∷ [];
  rotation_block = 20;
  epoch = 0;
}

committee_run :
    select_committee context (online_now 7) store
    ≡ ok (drawn_info, record store { committee = some drawn_info })
unfolding select_committee committee_ranking keyed rank_workers sort place before score rep_speed
    effective_stake rank_speed_multiplier compute_score compute_score_by_float_weight
committee_run = refl

select_committee-IsKeyed_example :
    All (IsKeyed (online_now 7) store) (member_addresses drawn_info.members)
    × HasDistinct (λ (a : ℕ). a) (member_addresses drawn_info.members)
    × (1 ≤ length drawn_info.members)
    × (length drawn_info.members ≤ (get_vrf_params store).committee_size)
    × (record store { committee = some drawn_info } ≡ record store { committee = some drawn_info })
select_committee-IsKeyed_example =
    select_committee-IsKeyed context (online_now 7) store
      (record store { committee = some drawn_info }) drawn_info pair_distinct (omega arith)
      committee_run

abbrev miner : Worker
miner = record {
  address = 2;
  pubkey = 5;
  stake = 10;
  supported_models = 7 ∷ [];
  status = active;
  joined_at = 1;
  exit_requested_at = 0;
  endpoint = 1;
  gpu_model = 1;
  gpu_vram_gb = 1;
  gpu_count = 1;
  operator_id = 1;
  jail_count = 0;
  is_jailed = false;
  jail_until = 0;
  tombstoned = false;
  success_streak = 0;
  total_tasks = 0;
  total_fee_earned = pos 0;
  last_active_block = 0;
  max_concurrent_tasks = 1;
  max_concurrent_verify = 1;
  reputation_score = reputation_initial;
  consecutive_rejects = 0;
  avg_latency_ms = 0;
}

abbrev decode_hex : ℕ → Bytes
decode_hex n = n ∷ []

abbrev bare : VrfStore
bare = record store { statuses = [] }

-- The block replaces nobody, since no key is known, and copies the status of the worker, who is then
-- drawn for the committee.
abbrev after_block : VrfStore
after_block = record bare {
  statuses = (2, synced_status (5 ∷ []) miner) ∷ [];
  committee = some (record {
    members = record { address = 2; vrf_hash = 1 ∷ 5 ∷ [] } ∷ [];
    rotation_block = 20;
    epoch = 0;
  });
}

block_run : app_begin_block context decode_hex (miner ∷ []) bare ≡ some after_block
unfolding app_begin_block vrf_begin_block active_model_ids online_workers_by_model sync_workers
    check_leader_timeouts check_leader select_leader leader_ranking handle_committee_rotation
    select_committee committee_ranking keyed rank_workers sort place before score rep_speed
    effective_stake rank_speed_multiplier compute_score compute_score_by_float_weight
block_run = refl

abbrev one_block : VrfRun ℕ ℕ decode_hex bare after_block
one_block = next context start (block (miner ∷ []) block_run)

outsiders_keep_seed_example : after_block.seed ≡ bare.seed
outsiders_keep_seed_example = outsiders_keep_seed decode_hex bare after_block one_block (tt, tt)

nobody_serves_example :
    (select_worker_for_task context 4 7 after_block ≡ err no_online_workers)
    × (select_verifiers_for_task context 4 (2 ∷ []) 7 1 3 after_block ≡ err no_online_workers)
    × (select_second_verifiers_for_task context 4 7 (1 ∷ []) 3 after_block ≡ err no_online_workers)
nobody_serves_example =
    nobody_serves decode_hex bare after_block refl one_block context 4 7 3 1 (2 ∷ []) (1 ∷ [])
