-- ===== src/Vrf/Elected.antt =====
-- x/vrf/keeper/keeper.go, CheckLeaderTimeouts: when a leader is replaced, and what does not matter.
use funai_chain.Base.{
  ℕ, ◌≡◌, ◌≢◌, ◌⊎◌, false, ◌==◌, if◌then◌else◌, Option, none, some, List, [], ◌∷◌, Dict, length,
  lookup, insert, lookup-insert, lookup-insert_self, not, ◌&&◌, arith, refl, Bool-cases,
  Option-cases, inl, inr,
}
use funai_chain.Vrf.Types.{LeaderInfo}
use funai_chain.Vrf.Lists.{Lacks, HasDistinct}
use funai_chain.Vrf.Keeper.{VrfStore, VrfContext, get_leader_info}
use funai_chain.Vrf.Rank.{Scored}
use funai_chain.Vrf.Select.{has}
use funai_chain.Vrf.Leader.{
  keyed, leader_ranking, select_leader, elected, is_overdue, check_leader, check_leader_timeouts,
}

pub List-cases : {A : Type 0} (xs : List A) → (xs ≡ []) ⊎ ((x : A) × (ys : List A) × (xs ≡ x ∷ ys))
List-cases [] = inl refl
List-cases (x ∷ xs) = inr (x, xs, refl)

Lacks-has : (k : ℕ) (xs : List ℕ) → Lacks (λ a. a) k xs → has k xs ≡ false
Lacks-has k [] h = refl
Lacks-has k (x ∷ xs) h = ground (arith, h.0, Lacks-has k xs h.1)

module _ {F G : Type 0} (c : VrfContext F G) (online_workers : ℕ → List ℕ) where
  -- The leader of a model after a pass for it: the one there is, or the one elected instead.
  abbrev pub next_leader : ℕ → VrfStore → Option LeaderInfo
  next_leader model s = get_leader_info model (check_leader c online_workers model s)

  -- A pass for one model changes the leaders only, and none but that model's.
  pub check_leader_apart :
      (model : ℕ) (s : VrfStore)
      → (d : Dict LeaderInfo) × (check_leader c online_workers model s ≡ record s { leaders = d })
        × ((m : ℕ) → m ≢ model → lookup m d ≡ lookup m s.leaders)
  unfolding check_leader select_leader
  check_leader_apart model s = elim (Option-cases (lookup model s.leaders)) [
    | inl nobody ↦ (s.leaders, rw (check_leader, nobody) refl, λ m ne. refl)
    | inr (l, there) ↦ elim (Bool-cases (is_overdue c l s)) [
      | inr holds ↦ (s.leaders, rw (check_leader, there, holds) refl, λ m ne. refl)
      | inl over ↦ elim (Bool-cases (length (online_workers model) == 0)) [
        | inl idle ↦ (s.leaders, rw (check_leader, there, over, idle) refl, λ m ne. refl)
        | inr busy ↦ elim (List-cases (leader_ranking c model (online_workers model) s)) [
          | inl none_keyed ↦
              (s.leaders, rw (check_leader, there, over, busy, none_keyed) refl, λ m ne. refl)
          | inr (e, es, best) ↦ (
            insert model (elected c e.1.address model s) s.leaders,
            rw (check_leader, there, over, busy, best) refl,
            λ m ne.
                ground (arith, lookup-insert m model (elected c e.1.address model s) s.leaders, ne),
          )
        ]
      ]
    ]
  ]

  keyed_apart :
      (d : Dict LeaderInfo) (ws : List ℕ) (s : VrfStore)
      → keyed c ws (record s { leaders = d }) ≡ keyed c ws s
  unfolding keyed
  keyed_apart d [] s = refl
  keyed_apart d (a ∷ ws) s = ground (arith, keyed_apart d ws s)

  -- The first of the ranking, or else the leader there is.
  abbrev pub successor : LeaderInfo → ℕ → VrfStore → List (Scored c.floats) → LeaderInfo
  successor l model s [] = l
  successor l model s (e ∷ es) = elected c e.1.address model s

  abbrev pub replaced : LeaderInfo → ℕ → VrfStore → List (Scored c.floats) → LeaderInfo
  replaced l model s ranking =
      if is_overdue c l s && not (length (online_workers model) == 0)
      then successor l model s ranking
      else l

  pub next_leader_lem :
      (model : ℕ) (s : VrfStore)
      → next_leader model s ≡ elim (lookup model s.leaders) [
        | none ↦ none
        | some l ↦ some (replaced l model s (leader_ranking c model (online_workers model) s))
      ]
  unfolding check_leader select_leader
  next_leader_lem model s = elim (Option-cases (lookup model s.leaders)) [
    | inl nobody ↦ rw (check_leader, nobody, nobody) refl
    | inr (l, there) ↦ elim (Bool-cases (is_overdue c l s)) [
      | inr holds ↦ rw (check_leader, there, holds, there) refl
      | inl over ↦ elim (Bool-cases (length (online_workers model) == 0)) [
        | inl idle ↦ rw (check_leader, there, over, idle, there) refl
        | inr busy ↦ elim (List-cases (leader_ranking c model (online_workers model) s)) [
          | inl none_keyed ↦ rw (check_leader, there, over, busy, none_keyed, there) refl
          | inr (e, es, best) ↦
              rw (check_leader, there, over, busy, best)
                (lookup-insert_self model (elected c e.1.address model s) s.leaders)
        ]
      ]
    ]
  ]

  -- What a pass does to the leader of its model does not depend on the other leaders.
  next_leader_apart :
      (model : ℕ) (s : VrfStore) (d : Dict LeaderInfo)
      → lookup model d ≡ lookup model s.leaders
      → next_leader model (record s { leaders = d }) ≡ next_leader model s
  unfolding leader_ranking
  next_leader_apart model s d same =
      let alike : leader_ranking c model (online_workers model) (record s { leaders = d })
          ≡ leader_ranking c model (online_workers model) s =
        rw (keyed_apart d (online_workers model) s) refl in
      elim (Option-cases (lookup model s.leaders)) [
        | inl nobody ↦
            rw
              (
                next_leader_lem model (record s { leaders = d }),
                next_leader_lem model s,
                same,
                nobody,
              )
              refl
        | inr (l, there) ↦
            rw
              (
                next_leader_lem model (record s { leaders = d }),
                next_leader_lem model s,
                same,
                there,
                alike,
              )
              refl
      ]

  -- The leaders after the loop: each model of the list has been treated as if it were alone.
  pub leaders_after :
      (models : List ℕ) (s : VrfStore) (m : ℕ)
      → HasDistinct (λ a. a) models
      → get_leader_info m (check_leader_timeouts c models online_workers s)
        ≡ (if has m models then next_leader m s else get_leader_info m s)
  unfolding check_leader_timeouts
  leaders_after [] s m h = refl
  leaders_after (x ∷ models) s m h =
      let t = check_leader c online_workers x s in
      let pass = check_leader_apart x s in
      let rest = leaders_after models t m h.1 in
      elim (Bool-cases (m == x)) [
        | inl same ↦
            let key : m ≡ x = ground (arith, same) in
            let alone : has m models ≡ false = rw key (Lacks-has x models h.0) in
            let here : get_leader_info m t ≡ next_leader m s = rw key refl in
            ground (arith, rest, alone, same, here)
        | inr other ↦
            let apart : lookup m pass.0 ≡ lookup m s.leaders = pass.2 m (ground (arith, other)) in
            let kept : get_leader_info m t ≡ get_leader_info m s = rw pass.1 apart in
            let next : next_leader m t ≡ next_leader m s =
              rw pass.1 (next_leader_apart m s pass.0 apart) in
            ground (arith, rest, other, kept, next)
      ]

  -- The loop ends with the same leaders in whatever order it meets the models.
  pub check_leader_timeouts_unordered :
      (models others : List ℕ) (s : VrfStore) (m : ℕ)
      → HasDistinct (λ a. a) models
      → HasDistinct (λ a. a) others
      → ((k : ℕ) → has k models ≡ has k others)
      → get_leader_info m (check_leader_timeouts c models online_workers s)
        ≡ get_leader_info m (check_leader_timeouts c others online_workers s)
  check_leader_timeouts_unordered models others s m h k same =
      rw (leaders_after models s m h, leaders_after others s m k, same m) refl
