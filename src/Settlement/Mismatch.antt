-- ===== src/Settlement/Mismatch.antt =====
-- x/settlement/keeper/keeper.go, what is held against a worker: the mismatch statistics of each
-- pair of worker and verifier, and the count of dishonest token reports. uint32 arithmetic wraps.
pub mod Window
use funai_chain.Base.{
  ℕ, ◌+◌, ◌*◌, ◌/◌, Bool, true, false, not, ◌&&◌, ◌||◌, ltb, leb, ◌==◌, if◌then◌else◌, List, [],
  ◌∷◌, lookup, insert, erase, get_or, u32,
}
use funai_chain.Base.Result.{Result, ok, panic, ◌>>=◌}
use funai_chain.Settlement.Params.{Params}
use funai_chain.Settlement.Types.{TokenMismatchRecord, Error}
use funai_chain.Settlement.Store.{Context, Store}

abbrev pub is_pair : ℕ → ℕ → TokenMismatchRecord → Bool
is_pair worker verifier r = worker == r.worker_address && verifier == r.verifier_address

abbrev pub get_token_mismatch_record : ℕ → ℕ → List TokenMismatchRecord → TokenMismatchRecord
get_token_mismatch_record worker verifier [] = record {
  worker_address = worker;
  verifier_address = verifier;
  total_tasks = 0;
  mismatch_count = 0;
}
get_token_mismatch_record worker verifier (r ∷ rs) =
    if is_pair worker verifier r then r else get_token_mismatch_record worker verifier rs

abbrev pub set_token_mismatch_record :
    TokenMismatchRecord → List TokenMismatchRecord → List TokenMismatchRecord
set_token_mismatch_record new [] = new ∷ []
set_token_mismatch_record new (r ∷ rs) =
    if is_pair new.worker_address new.verifier_address r
    then new ∷ rs
    else r ∷ set_token_mismatch_record new rs

-- One more task of a pair; when the window is full, both counts are halved.
unfoldable pub count_task : Bool → Params → TokenMismatchRecord → TokenMismatchRecord
count_task is_mismatch params r =
    let total = u32 (r.total_tasks + 1) in
    let mismatch = if is_mismatch then u32 (r.mismatch_count + 1) else r.mismatch_count in
    if ltb 0 params.token_mismatch_lookback && leb params.token_mismatch_lookback total
    then record r { total_tasks = total / 2; mismatch_count = mismatch / 2 }
    else record r { total_tasks = total; mismatch_count = mismatch }

-- The largest mismatch percentage of a worker's pairs that have enough samples. A pair without
-- tasks that counts as enough is a division by zero.
unfoldable pub max_pair_ratio : ℕ → Params → ℕ → List TokenMismatchRecord → Result Error ℕ
max_pair_ratio worker params best [] = ok best
max_pair_ratio worker params best (r ∷ rs) =
    let ratio = u32 (r.mismatch_count * 100) / r.total_tasks in
    let next = if ltb best ratio then ratio else best in
    let counts =
      worker == r.worker_address && leb params.token_mismatch_pair_min_samples r.total_tasks in
    let rest = max_pair_ratio worker params (if counts then next else best) rs in
    if counts && r.total_tasks == 0 then panic else rest

abbrev pub boost_of : Params → ℕ → ℕ
boost_of params ratio =
    if ltb 50 ratio
    then params.token_mismatch_second_verification_weight
    else if ltb 30 ratio
    then params.token_mismatch_second_verification_weight / 2
    else 0

module _ {S : Type 0} where
  unfoldable pub update_token_mismatch_pair : ℕ → ℕ → Bool → Params → Store S → Store S
  unfolding count_task
  update_token_mismatch_pair worker verifier is_mismatch params s =
      let old = get_token_mismatch_record worker verifier s.mismatches in
      record s {
        mismatches = set_token_mismatch_record (count_task is_mismatch params old) s.mismatches;
      }

  unfoldable pub calculate_worker_audit_boost : ℕ → Params → Store S → Result Error ℕ
  unfolding max_pair_ratio
  calculate_worker_audit_boost worker params s = do
    ratio ← max_pair_ratio worker params 0 s.mismatches
    ok (boost_of params ratio)

  abbrev pub reset_dishonest_count : ℕ → Store S → Store S
  reset_dishonest_count worker s = record s { dishonest = erase worker s.dishonest }

  -- At the threshold the worker is jailed and the count starts again.
  unfoldable pub increment_dishonest_count : Context S → ℕ → Params → Store S → Store S
  increment_dishonest_count c worker params s =
      let count = u32 (get_or 0 (lookup worker s.dishonest) + 1) in
      if leb params.dishonest_jail_threshold count
      then reset_dishonest_count worker (record s { outer = c.jail_worker s.outer worker })
      else record s { dishonest = insert worker count s.dishonest }
