-- ===== src/Vrf/Rank.antt =====
-- x/vrf/types/vrf.go: the score of a worker and the ranking by score. The numbers of Go's float64
-- and math/big, and the hash, are parameters.
use funai_chain.Base.{
  ℕ, ◌+◌, ◌*◌, ◌||◌, Bool, true, false, ◌==◌, ltb, if◌then◌else◌, List, [], ◌∷◌, ◌++◌,
}
use funai_chain.Vrf.Types.{
  Bytes, VrfAlpha, alpha_dispatch, alpha_verification, alpha_second_third_verification,
}

-- `F` is float64 and `G` is `big.Float` with a precision of 256 bits. `to_int` cuts off to an
-- integer, at least 0, and `lt x y` is `x.Cmp(y) < 0`.
pub record Floats (F G : Type 0) : Type 0 where
  pub literal : ℕ → ℕ → F
  pub of_uint32 : ℕ → F
  pub fdiv : F → F → F
  pub fmul : F → F → F
  pub flt : F → F → Bool
  pub feq : F → F → Bool
  pub of_int : ℕ → G
  pub of_float : F → G
  pub mul : G → G → G
  pub quo : G → G → G
  pub sqrt : G → G
  pub to_int : G → ℕ
  pub to_uint64 : G → ℕ
  pub lt : G → G → Bool
  pub sha256 : Bytes → Bytes

pub record RankedWorker (F : Type 0) : Type 0 where
  pub address : ℕ
  pub pubkey : Bytes
  pub stake : ℕ
  pub reputation : F
  pub avg_latency_ms : ℕ

-- `big.Int.SetBytes`
abbrev pub set_bytes : ℕ → Bytes → ℕ
set_bytes n [] = n
set_bytes n (b ∷ bs) = set_bytes (n * 256 + b) bs

abbrev pub rank_latency_reference_ms : ℕ
rank_latency_reference_ms = 3000

module _ {F G : Type 0} (o : Floats F G) where
  -- A literal of the source, as tenths.
  abbrev one : F
  one = o.literal 10 10

  unfoldable pub rank_speed_multiplier : ℕ → F
  rank_speed_multiplier avg =
      let ratio = o.fdiv (o.of_uint32 rank_latency_reference_ms) (o.of_uint32 avg) in
      if avg == 0
      then one
      else if o.flt (o.literal 15 10) ratio
      then o.literal 15 10
      else if o.flt ratio (o.literal 1 10)
      then o.literal 1 10
      else ratio

  -- The hash of the seed and the key, as a number.
  abbrev pub hash_float : Bytes → Bytes → G
  hash_float seed pubkey = o.of_int (set_bytes 0 (o.sha256 (seed ++ pubkey)))

  unfoldable pub compute_score : Bytes → Bytes → ℕ → VrfAlpha → G
  compute_score seed pubkey stake alpha_second_third_verification = hash_float seed pubkey
  compute_score seed pubkey stake alpha_dispatch =
      if stake == 0 then hash_float seed pubkey else o.quo (hash_float seed pubkey) (o.of_int stake)
  compute_score seed pubkey stake alpha_verification =
      if stake == 0
      then hash_float seed pubkey
      else o.quo (hash_float seed pubkey) (o.sqrt (o.of_int stake))

  unfoldable pub compute_score_by_float_weight : Bytes → Bytes → F → G
  compute_score_by_float_weight seed pubkey weight =
      if o.flt (o.literal 0 10) weight
      then o.quo (hash_float seed pubkey) (o.of_float weight)
      else hash_float seed pubkey

  -- The reputation where there is one, times the speed.
  unfoldable pub rep_speed : RankedWorker F → F
  unfolding rank_speed_multiplier
  rep_speed w =
      o.fmul (if o.flt (o.literal 0 10) w.reputation then w.reputation else one)
        (rank_speed_multiplier w.avg_latency_ms)

  -- The stake, scaled by it and cut off to an integer of at least 1.
  unfoldable pub effective_stake : RankedWorker F → ℕ
  unfolding rep_speed
  effective_stake w =
      let scaled = o.to_int (o.mul (o.of_int w.stake) (o.of_float (rep_speed w))) in
      if o.feq (rep_speed w) one then w.stake else if scaled == 0 then 1 else scaled

  -- The body of the first loop of RankWorkers.
  unfoldable pub score : Bytes → VrfAlpha → RankedWorker F → G
  unfolding compute_score compute_score_by_float_weight rep_speed effective_stake
  score seed alpha_second_third_verification w =
      compute_score_by_float_weight seed w.pubkey (rep_speed w)
  score seed alpha w = compute_score seed w.pubkey (effective_stake w) alpha

  abbrev pub Scored : Type 0
  Scored = G × RankedWorker F

  -- The comparison that the sort is given.
  unfoldable pub before : Scored → Scored → Bool
  before x y =
      if o.lt x.0 y.0 then true else if o.lt y.0 x.0 then false else ltb x.1.address y.1.address

  -- `sort.Slice`
  unfoldable pub place : Scored → List Scored → List Scored
  place x [] = x ∷ []
  place x (y ∷ ys) = let later = y ∷ place x ys in if before y x then later else x ∷ y ∷ ys

  unfoldable pub sort : List Scored → List Scored
  sort [] = []
  sort (x ∷ xs) = place x (sort xs)

  abbrev pub scored : Bytes → VrfAlpha → List (RankedWorker F) → List Scored
  scored seed alpha [] = []
  scored seed alpha (w ∷ ws) = (score seed alpha w, w) ∷ scored seed alpha ws

  unfoldable pub rank_workers : Bytes → VrfAlpha → List (RankedWorker F) → List Scored
  unfolding sort place
  rank_workers seed alpha ws = sort (scored seed alpha ws)

  unfoldable pub latency_factor : ℕ → ℕ → F
  latency_factor avg max =
      let threshold = o.of_uint32 max in
      if max == 0 || avg == 0
      then one
      else if o.flt (o.of_uint32 avg) (o.fmul threshold (o.literal 5 10))
      then o.literal 15 10
      else if o.flt (o.of_uint32 avg) (o.fmul threshold (o.literal 8 10))
      then one
      else o.literal 1 10
