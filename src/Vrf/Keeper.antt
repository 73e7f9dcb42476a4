-- ===== src/Vrf/Keeper.antt =====
-- x/vrf/keeper/keeper.go and genesis.go: what the module stores, and the seed.
use funai_chain.Base.{
  ℕ, zero, suc, ◌+◌, ◌*◌, ◌/◌, ◌%◌, ◌||◌, Bool, true, false, ◌==◌, ltb, if◌then◌else◌, Option, none,
  some, List, [], ◌∷◌, Dict, lookup, insert, erase, get_or, length,
}
use funai_chain.Vrf.Types.{
  Bytes, VrfParams, default_vrf_params, validate_vrf_params, LeaderInfo, CommitteeInfo, VrfSeed,
  VrfWorkerStatus, VrfGenesis,
}
use funai_chain.Vrf.Rank.{Floats}

pub record VrfStore : Type 0 where
  pub params : Option VrfParams
  pub seed : Option VrfSeed
  pub leaders : Dict LeaderInfo
  pub committee : Option CommitteeInfo
  pub statuses : Dict VrfWorkerStatus

-- The block, the governance address, the bytes of an identifier and of the first seed, the bech32
-- decoder, and the libraries.
pub record VrfContext (F G : Type 0) : Type 0 where
  pub height : ℕ
  pub header_hash : Bytes
  pub authority : ℕ
  pub bytes_of : ℕ → Bytes
  pub genesis_seed : Bytes
  pub decode : ℕ → Option ℕ
  pub floats : Floats F G

abbrev pub get_vrf_params : VrfStore → VrfParams
get_vrf_params s = get_or default_vrf_params s.params

unfoldable pub set_vrf_params : VrfParams → VrfStore → Option VrfStore
set_vrf_params p s = if validate_vrf_params p then some (record s { params = some p }) else none

abbrev pub get_leader_info : ℕ → VrfStore → Option LeaderInfo
get_leader_info model s = lookup model s.leaders

abbrev pub set_leader_info : LeaderInfo → VrfStore → VrfStore
set_leader_info l s = record s { leaders = insert l.model_id l s.leaders }

abbrev pub remove_leader_info : ℕ → VrfStore → VrfStore
remove_leader_info model s = record s { leaders = erase model s.leaders }

abbrev pub set_committee_info : CommitteeInfo → VrfStore → VrfStore
set_committee_info c s = record s { committee = some c }

abbrev pub get_worker_status : ℕ → VrfStore → Option VrfWorkerStatus
get_worker_status a s = lookup a s.statuses

abbrev pub set_worker_status : VrfWorkerStatus → VrfStore → VrfStore
set_worker_status w s = record s { statuses = insert w.address w s.statuses }

abbrev pub set_current_seed : VrfSeed → VrfStore → VrfStore
set_current_seed seed s = record s { seed = some seed }

abbrev pub get_all_leaders : Dict LeaderInfo → List LeaderInfo
get_all_leaders [] = []
get_all_leaders (e ∷ d) = e.1 ∷ get_all_leaders d

-- `copy` into a slice of `n` zero bytes
unfoldable pub fit : ℕ → Bytes → Bytes
fit zero bs = []
fit (suc n) [] = 0 ∷ fit n []
fit (suc n) (b ∷ bs) = b ∷ fit n bs

-- `^` on the lowest `k` bits
unfoldable pub xor_bits : ℕ → ℕ → ℕ → ℕ
xor_bits zero a b = 0
xor_bits (suc k) a b = 2 * xor_bits k (a / 2) (b / 2) + (a % 2 + b % 2) % 2

unfoldable pub xor_bytes : Bytes → Bytes → Bytes
unfolding xor_bits
xor_bytes [] hs = []
xor_bytes (a ∷ bs) [] = a ∷ bs
xor_bytes (a ∷ bs) (h ∷ hs) = xor_bits 8 a h ∷ xor_bytes bs hs

unfoldable pub mix_all : (Bytes → Bytes) → List Bytes → Bytes → Bytes
unfolding xor_bytes
mix_all sha256 [] seed = seed
mix_all sha256 (v ∷ vs) seed = mix_all sha256 vs (xor_bytes seed (sha256 v))

abbrev same_bytes : Bytes → Bytes → Bool
same_bytes [] [] = true
same_bytes [] (b ∷ bs) = false
same_bytes (a ∷ bs) [] = false
same_bytes (a ∷ bs) (c ∷ cs) = let rest = same_bytes bs cs in if a == c then rest else false

module _ {F G : Type 0} (c : VrfContext F G) where
  abbrev pub get_current_seed : VrfStore → VrfSeed
  get_current_seed s = get_or (record { value = c.genesis_seed; block_height = 0 }) s.seed

  unfoldable pub update_seed : List Bytes → VrfStore → VrfStore
  unfolding fit mix_all
  update_seed values s =
      let mixed = mix_all c.floats.sha256 values (fit 32 (get_current_seed s).value) in
      set_current_seed (record { value = c.floats.sha256 mixed; block_height = c.height }) s

  -- `none` is the panic of the slice expression on a value of fewer than 16 bytes.
  unfoldable pub validate_vrf_proof : Bytes → Bytes → Option Bool
  unfolding fit
  validate_vrf_proof proof value =
      let digest = fit 16 (c.floats.sha256 proof) in
      if length proof == 0 || length value == 0
      then some false
      else if ltb (length value) 16
      then none
      else some (same_bytes digest (fit 16 value) || ltb 0 (length value))

-- The leaders of the genesis, one after the other.
abbrev pub set_leaders : List LeaderInfo → VrfStore → VrfStore
set_leaders [] s = s
set_leaders (l ∷ ls) s = set_leaders ls (set_leader_info l s)

-- `none` is the panic on parameters that are not valid.
unfoldable pub vrf_init_genesis : VrfGenesis → VrfStore → Option VrfStore
unfolding set_vrf_params
vrf_init_genesis g s = elim (set_vrf_params g.params s) [
  | none ↦ none
  | some t ↦
      let u = set_leaders g.leaders (set_current_seed g.initial_seed t) in
      some (elim g.committee [ none ↦ u | some m ↦ set_committee_info m u ])
]

unfoldable pub vrf_export_genesis : {F G : Type 0} → VrfContext F G → VrfStore → VrfGenesis
vrf_export_genesis c s = record {
  params = get_vrf_params s;
  initial_seed = get_current_seed c s;
  leaders = get_all_leaders s.leaders;
  committee = s.committee;
}
