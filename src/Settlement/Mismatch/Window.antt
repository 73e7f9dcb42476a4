-- ===== src/Settlement/Mismatch/Window.antt =====
-- The sliding window of a pair's statistics.
use funai_chain.Base.{ℕ, ◌≤◌, ◌<◌, Bool, List, [], ◌∷◌, All, arith}
use funai_chain.Settlement.Params.{Params}
use funai_chain.Settlement.Types.{TokenMismatchRecord}
use funai_chain.Settlement.Store.{Store}
use funai_chain.Settlement.Mismatch.{
  get_token_mismatch_record, set_token_mismatch_record, count_task, update_token_mismatch_pair,
}

-- A pair's statistics make sense: no more mismatches than tasks, and the window is not overrun.
abbrev pub IsWindowed : Params → TokenMismatchRecord → Type 0
IsWindowed params r =
    (r.mismatch_count ≤ r.total_tasks) × (r.total_tasks < params.token_mismatch_lookback)

count_task-IsWindowed :
    (is_mismatch : Bool) (params : Params) (r : TokenMismatchRecord)
    → 0 < params.token_mismatch_lookback
    → params.token_mismatch_lookback < 4294967296
    → IsWindowed params r
    → IsWindowed params (count_task is_mismatch params r)
unfolding count_task
count_task-IsWindowed is_mismatch params r p small h = ground arith

get-IsWindowed :
    (worker verifier : ℕ) (params : Params) (rs : List TokenMismatchRecord)
    → 0 < params.token_mismatch_lookback
    → All (IsWindowed params) rs
    → IsWindowed params (get_token_mismatch_record worker verifier rs)
get-IsWindowed worker verifier params [] p h = ground arith
get-IsWindowed worker verifier params (r ∷ rs) p h =
    ground (arith, get-IsWindowed worker verifier params rs p h.1)

set-IsWindowed :
    (new : TokenMismatchRecord) (params : Params) (rs : List TokenMismatchRecord)
    → IsWindowed params new
    → All (IsWindowed params) rs
    → All (IsWindowed params) (set_token_mismatch_record new rs)
set-IsWindowed new params [] h hs = (h, tt)
set-IsWindowed new params (r ∷ rs) h hs = ground (arith, set-IsWindowed new params rs h hs.1)

-- With a lookback of at least 1, every update keeps each pair's statistics consistent, with no more
-- mismatches than tasks and fewer tasks than the lookback, so that the counters never wrap.
pub update_token_mismatch_pair-IsWindowed :
    {S : Type 0} (worker verifier : ℕ) (is_mismatch : Bool) (params : Params) (s : Store S)
    → 0 < params.token_mismatch_lookback
    → params.token_mismatch_lookback < 4294967296
    → All (IsWindowed params) s.mismatches
    → All
        (IsWindowed params)
        (update_token_mismatch_pair worker verifier is_mismatch params s).mismatches
unfolding update_token_mismatch_pair
update_token_mismatch_pair-IsWindowed worker verifier is_mismatch params s p small h =
    let old = get_token_mismatch_record worker verifier s.mismatches in
    set-IsWindowed (count_task is_mismatch params old) params s.mismatches
      (count_task-IsWindowed is_mismatch params old p small
        (get-IsWindowed worker verifier params s.mismatches p h))
      h
