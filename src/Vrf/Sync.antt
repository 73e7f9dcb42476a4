-- ===== src/Vrf/Sync.antt =====
-- app/app.go: the callbacks of x/vrf into x/worker, which supply the active models, the workers
-- that are online for each, and the eligible workers, whose keys and stakes they copy.
use funai_chain.Base.{
  ℕ, ◌≡◌, false, ◌==◌, if◌then◌else◌, Option, List, [], ◌∷◌, length, arith, Bool-cases, inl, inr,
}
use funai_chain.Worker.Types.{Worker, is_active}
use funai_chain.Vrf.Types.{Bytes, VrfWorkerStatus}
use funai_chain.Vrf.Lists.{Lacks, HasDistinct}
use funai_chain.Vrf.Keeper.{VrfStore, VrfContext, set_worker_status}
use funai_chain.Vrf.Select.{has}
use funai_chain.Vrf.Run.{vrf_begin_block}

abbrev pub add_models : List ℕ → List ℕ → List ℕ
add_models [] found = found
add_models (m ∷ ms) found = add_models ms (if has m found then found else m ∷ found)

-- The source ranges over a map, so that the models come in any order.
unfoldable pub active_model_ids : List Worker → List ℕ → List ℕ
active_model_ids [] found = found
active_model_ids (w ∷ ws) found =
    let skipped = active_model_ids ws found in
    let added = active_model_ids ws (add_models w.supported_models found) in
    if is_active w then added else skipped

-- Once for each time that the worker lists the model.
abbrev pub listings : ℕ → ℕ → List ℕ → List ℕ → List ℕ
listings model a [] rest = rest
listings model a (m ∷ ms) rest =
    let tail = listings model a ms rest in if m == model then a ∷ tail else tail

unfoldable pub online_workers_by_model : List Worker → ℕ → List ℕ
online_workers_by_model [] model = []
online_workers_by_model (w ∷ ws) model =
    let rest = online_workers_by_model ws model in
    if is_active w then listings model w.address w.supported_models rest else rest

abbrev pub eligible_addresses : List Worker → List ℕ
eligible_addresses [] = []
eligible_addresses (w ∷ ws) =
    let rest = eligible_addresses ws in if is_active w then w.address ∷ rest else rest

-- The fields of the literal that are not named are zero: the worker is neither online nor busy,
-- and it knows no model.
abbrev pub synced_status : Bytes → Worker → VrfWorkerStatus
synced_status key w = record {
  address = w.address;
  pubkey = key;
  is_online = false;
  is_busy = false;
  model_ids = [];
  stake = w.stake;
}

-- `decode_hex` gives the empty key where the spelling is malformed at its start.
unfoldable pub sync_workers : (ℕ → Bytes) → List Worker → VrfStore → VrfStore
sync_workers decode_hex [] s = s
sync_workers decode_hex (w ∷ ws) s =
    let key = decode_hex w.pubkey in
    let skipped = sync_workers decode_hex ws s in
    let copied = sync_workers decode_hex ws (set_worker_status (synced_status key w) s) in
    if is_active w then (if length key == 0 then skipped else copied) else skipped

unfoldable pub app_begin_block :
    {F G : Type 0} → VrfContext F G → (ℕ → Bytes) → List Worker → VrfStore → Option VrfStore
unfolding vrf_begin_block active_model_ids online_workers_by_model sync_workers
app_begin_block c decode_hex workers s =
    vrf_begin_block c (active_model_ids workers []) (online_workers_by_model workers)
      (sync_workers decode_hex workers) (eligible_addresses workers) s

not_has-Lacks : (k : ℕ) (xs : List ℕ) → has k xs ≡ false → Lacks (λ a. a) k xs
not_has-Lacks k [] h = tt
not_has-Lacks k (x ∷ xs) h =
    ((λ same. ground (arith, h, same)), not_has-Lacks k xs (ground (arith, h)))

add_models-HasDistinct :
    (ms found : List ℕ) → HasDistinct (λ a. a) found → HasDistinct (λ a. a) (add_models ms found)
add_models-HasDistinct [] found h = h
add_models-HasDistinct (m ∷ ms) found h = elim (Bool-cases (has m found)) [
  | inl known ↦ rw known (add_models-HasDistinct ms found h)
  | inr new ↦ rw new (add_models-HasDistinct ms (m ∷ found) (not_has-Lacks m found new, h))
]

-- No model is listed twice.
pub active_model_ids-HasDistinct :
    (ws : List Worker) (found : List ℕ)
    → HasDistinct (λ a. a) found
    → HasDistinct (λ a. a) (active_model_ids ws found)
unfolding active_model_ids
active_model_ids-HasDistinct [] found h = h
active_model_ids-HasDistinct (w ∷ ws) found h = elim (Bool-cases (is_active w)) [
  | inl works ↦ rw works (
      active_model_ids-HasDistinct ws (add_models w.supported_models found)
        (add_models-HasDistinct w.supported_models found h))
  | inr idle ↦ rw idle (active_model_ids-HasDistinct ws found h)
]
