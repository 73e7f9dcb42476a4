-- ===== src/Settlement/Upkeep/Terminal.antt =====
-- x/settlement/keeper/keeper.go: the timeout of a verification brings its task to an end.
use funai_chain.Base.{some, ◌⊎◌, ℕ, ◌≡◌, Bool, true, false, Dict, lookup}
use funai_chain.Base.Result.{Result}
use funai_chain.Settlement.Params.{Params}
use funai_chain.Settlement.Types.{PendingTask, SettledTask, settled, fail_settled, failed}
use funai_chain.Settlement.Store.{Context, Store}

module _ {S : Type 0} (c : Context S) where
  -- The task's record says that it was paid for, that its worker failed, or that it was given up.
  abbrev pub IsEnded : ℕ → Store S → Type 0
  IsEnded id s =
      (st : SettledTask) × (lookup id s.settled ≡ some st)
      × ((st.status ≡ settled) ⊎ ((st.status ≡ fail_settled) ⊎ (st.status ≡ failed)))

  abbrev pub pending_of_kind : Bool → Store S → Dict PendingTask
  pending_of_kind true s = s.third_pending
  pending_of_kind false s = s.second_pending
