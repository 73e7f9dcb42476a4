-- ===== src/Worker/Change.antt =====
-- What an operation of x/worker can do to the register, and what every such change preserves.
pub mod Jail
pub mod Score
pub mod Message
use funai_chain.Base.{
  ℕ, ◌+◌, ◌≤◌, ◌<◌, ◌≡◌, ◌==◌, ◌&&◌, not, Bool, true, false, if◌then◌else◌, Option, none, some,
  List, [], ◌∷◌, Dict, lookup, insert, erase, get_or, arith, refl, total, share, total-insert,
  total-erase, IsDict, insert-IsDict, erase-IsDict, Each, Each-insert, Each-erase, Each-lookup,
  lookup-insert, lookup-erase, Bool-cases, inl, inr, ◌∙◌, Each-away, Each-both, Each-current,
}
use funai_chain.Worker.Types.{Worker, WorkerStatus, jailed, is_status_exiting}
use funai_chain.Worker.Keeper.{
  Register, WorkerContext, for_workers, values, set_worker, notify, get_worker_params,
}

abbrev pub is_status_jailed : WorkerStatus → Bool
is_status_jailed jailed = true
is_status_jailed _ = false

-- A worker's record makes sense: the flag and the status of a jail term agree, a tombstone jails for
-- good, and the counters are in range.
pub record IsSound (w : Worker) : Type 0 where
  pub agrees : w.is_jailed ≡ is_status_jailed w.status
  pub buried : (w.tombstoned && not w.is_jailed) ≡ false
  pub offences : w.jail_count ≤ 2
  pub reputed : w.reputation_score ≤ 12000
  pub rejects : w.consecutive_rejects < 10

-- A change of one record: it stays sound, keeps its address, and a tombstone stays.
abbrev pub Moves : Worker → Worker → Type 0
Moves w w' =
    (w'.address ≡ w.address)
    × (IsSound w → IsSound w')
    × ((w.tombstoned && not w'.tombstoned) ≡ false)

-- What the bank promises for the module's account, which signs no message, and what x/modelreg
-- leaves alone in it.
pub record IsBacked {S : Type 0} (c : WorkerContext S) : Type 0 where
  pub takes_in : (o : S) (a n : ℕ) (o' : S) → c.stake_in o a n ≡ some o' → c.held o + n ≤ c.held o'
  pub pays_out : (o : S) (a n : ℕ) (o' : S) → c.stake_out o a n ≡ some o' → c.held o ≤ c.held o' + n
  pub burns : (o : S) (n : ℕ) (o' : S) → c.burn o n ≡ some o' → c.held o ≤ c.held o' + n
  pub told : (s : Register S) (a : ℕ) → c.held s.outer ≤ c.held (c.on_worker_state_change s a)
  pub removed : (s : Register S) (a : ℕ) → c.held s.outer ≤ c.held (c.on_worker_removed s a)

module _ {S : Type 0} (decode : ℕ → Option ℕ) (held : S → ℕ) where
  abbrev pub stakes : Register S → ℕ
  stakes s = total (λ w. w.stake) s.workers

  abbrev pub key_of : Worker → ℕ
  key_of w = get_or 0 (decode w.address)

  -- The steps that operations are made of, each with what it does to the module's account.
  pub data Change : Register S → Register S → Type 0 where
    same :
        (s t : Register S)
        → t.workers ≡ s.workers
        → t.params ≡ s.params
        → held s.outer ≤ held t.outer
        → Change s t
    update :
        (s t : Register S) (a : ℕ) (w w' : Worker)
        → lookup a s.workers ≡ some w
        → Moves w w'
        → t.workers ≡ insert (key_of w') w' s.workers
        → t.params ≡ s.params
        → held s.outer + w'.stake ≤ held t.outer + w.stake
        → Change s t
    enrol :
        (s t : Register S) (a : ℕ) (w : Worker)
        → lookup a s.workers ≡ none
        → decode w.address ≡ some a
        → IsSound w
        → t.workers ≡ insert a w s.workers
        → t.params ≡ s.params
        → held s.outer + w.stake ≤ held t.outer
        → Change s t
    leave :
        (s t : Register S) (a : ℕ) (w : Worker)
        → lookup a s.workers ≡ some w
        → is_status_exiting w.status ≡ true
        → t.workers ≡ erase a s.workers
        → t.params ≡ s.params
        → held s.outer ≤ held t.outer + w.stake
        → Change s t
    chain : (s t u : Register S) → Change s t → Change t u → Change s u

  -- Every worker is stored once, under its own address, with a sound record, and the module's account
  -- covers all stakes.
  abbrev pub IsKeyed : ℕ → Worker → Type 0
  IsKeyed a w = (decode w.address ≡ some a) × IsSound w

  pub record IsSolid (s : Register S) : Type 0 where
    pub dict : IsDict s.workers
    pub keyed : Each IsKeyed s.workers
    pub staked : stakes s ≤ held s.outer
    pub fair : (get_worker_params s).slash_fraud_percent ≤ 100

  -- A worker that is tombstoned for good.
  abbrev pub IsBuried : ℕ → Register S → Type 0
  IsBuried a s = (w : Worker) × (lookup a s.workers ≡ some w) × (w.tombstoned ≡ true)

  pub lookup-IsKeyed :
      (s : Register S) (a : ℕ) (w : Worker) → IsSolid s → lookup a s.workers ≡ some w → IsKeyed a w
  lookup-IsKeyed s a w i e = Each-lookup IsKeyed a w s.workers i.keyed e

  pub Change-IsSolid : (s t : Register S) → Change s t → IsSolid s → IsSolid t
  Change-IsSolid s t (same _ _ e p h) i = record {
    fair = rw p i.fair;
    dict = rw e i.dict;
    keyed = rw e i.keyed;
    staked = rw e (omega (arith, i.staked));
  }
  Change-IsSolid s t (update _ _ a w w' there moves e p h) i =
      let (known, sound) = lookup-IsKeyed s a w i there in
      let key : decode w'.address ≡ some a = rw moves.0 known in
      let at : key_of w' ≡ a = rw key refl in
      record {
        fair = rw p i.fair;
        dict = rw e (insert-IsDict (key_of w') w' s.workers i.dict);
        keyed = rw (e, at) (Each-insert IsKeyed a w' s.workers (key, moves.1 sound) i.keyed);
        staked =
            rw (e, at)
              (ground (arith, i.staked, total-insert (λ (x : Worker). x.stake) a w' s.workers));
      }
  Change-IsSolid s t (enrol _ _ a w fresh key sound e p h) i = record {
    fair = rw p i.fair;
    dict = rw e (insert-IsDict a w s.workers i.dict);
    keyed = rw e (Each-insert IsKeyed a w s.workers (key, sound) i.keyed);
    staked = rw e (ground (arith, i.staked, total-insert (λ (x : Worker). x.stake) a w s.workers));
  }
  Change-IsSolid s t (leave _ _ a w there status e p h) i = record {
    fair = rw p i.fair;
    dict = rw e (erase-IsDict a s.workers i.dict);
    keyed = rw e (Each-erase IsKeyed a s.workers i.keyed);
    staked = rw e (ground (arith, i.staked, total-erase (λ (x : Worker). x.stake) a s.workers));
  }
  Change-IsSolid s u (chain _ t _ first next) i =
      Change-IsSolid t u next (Change-IsSolid s t first i)

  pub Change-IsBuried :
      (b : ℕ) (s t : Register S) → Change s t → IsSolid s → IsBuried b s → IsBuried b t
  Change-IsBuried b s t (same _ _ e p h) i (v, there, dead) = (v, rw e there, dead)
  Change-IsBuried b s t (update _ _ a w w' found moves e p h) i (v, there, dead) =
      let key : key_of w' ≡ a = rw (moves.0, (lookup-IsKeyed s a w i found).0) refl in
      elim (Bool-cases (b == a)) [
        | inl here ↦
            let same_record : v ≡ w = ground arith in
            let still : w'.tombstoned ≡ true = ground (arith, moves.2) in
            (w', rw (e, key) (ground (arith, lookup-insert b a w' s.workers)), still)
        | inr away ↦ (v, rw (e, key) (ground (arith, lookup-insert b a w' s.workers)), dead)
      ]
  Change-IsBuried b s t (enrol _ _ a w fresh key sound e p h) i (v, there, dead) =
      (v, rw e (ground (arith, lookup-insert b a w s.workers)), dead)
  Change-IsBuried b s t (leave _ _ a w found status e p h) i (v, there, dead) =
      let sound : IsSound w = (lookup-IsKeyed s a w i found).1 in
      (v, rw e (ground (arith, lookup-erase b a s.workers, sound.agrees, sound.buried)), dead)
  Change-IsBuried b s u (chain _ t _ first next) i buried =
      Change-IsBuried b t u next (Change-IsSolid s t first i) (Change-IsBuried b s t first i buried)

  -- A loop over the workers is a change if each of its rounds is, and touches its own worker alone.
  abbrev pub IsLocal : (Worker → Register S → Register S) → Type 0
  IsLocal step =
      (k : ℕ) (w : Worker) (s : Register S)
      → IsKeyed k w
      → lookup k s.workers ≡ some w
      → Change s (step w s)
        × ((j : ℕ) → (j == k) ≡ false → lookup j (step w s).workers ≡ lookup j s.workers)

  abbrev pub IsPending : Register S → ℕ → Worker → Type 0
  IsPending s k w = (lookup k s.workers ≡ some w) × IsKeyed k w

  for_workers_pending :
      (step : Worker → Register S → Register S) (d : Dict Worker) (s : Register S)
      → IsLocal step
      → IsDict d
      → Each (IsPending s) d
      → Change s (for_workers step (values d) s)
  unfolding for_workers
  for_workers_pending step [] s local dict h = same s s refl refl (omega arith)
  for_workers_pending step (e ∷ d) s local dict h =
      let (first, elsewhere) = local e.0 e.1 s h.0.1 h.0.0 in
      chain s (step e.1 s) (for_workers step (values d) (step e.1 s)) first (
        for_workers_pending step d (step e.1 s) local dict.1 (
          Each-away (IsPending s) (IsPending (step e.1 s)) e.0 d
            (λ j v away there. (elsewhere j away ∙ there.0, there.1)) dict.0 h.1))

  pub for_workers-Change :
      (step : Worker → Register S → Register S) (s : Register S)
      → IsLocal step
      → IsSolid s
      → Change s (for_workers step (values s.workers) s)
  for_workers-Change step s local i = for_workers_pending step s.workers s local i.dict (
      Each-both (λ k w. lookup k s.workers ≡ some w) IsKeyed s.workers
        (Each-current s.workers i.dict) i.keyed)

-- A record that is stored again, without and with the notification of x/modelreg.
module _ {S : Type 0} (c : WorkerContext S) where
  pub set_worker-Change :
      (a : ℕ) (w w' : Worker) (o : S) (s : Register S)
      → lookup a s.workers ≡ some w
      → Moves w w'
      → c.held s.outer + w'.stake ≤ c.held o + w.stake
      → Change c.decode c.held s (set_worker c w' (record s { outer = o }))
  set_worker-Change a w w' o s there moves kept =
      update s (set_worker c w' (record s { outer = o })) a w w' there moves refl refl kept

  pub notify-Change :
      (a : ℕ) (w w' : Worker) (o : S) (s : Register S)
      → IsBacked c
      → lookup a s.workers ≡ some w
      → Moves w w'
      → c.held s.outer + w'.stake ≤ c.held o + w.stake
      → Change c.decode c.held s (notify c a (set_worker c w' (record s { outer = o })))
  notify-Change a w w' o s b there moves kept =
      let stored = set_worker c w' (record s { outer = o }) in
      update s (notify c a stored) a w w' there moves refl refl (omega (arith, b.told stored a))
