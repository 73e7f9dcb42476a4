-- ===== src/Vrf/Term.antt =====
-- x/vrf/keeper/keeper.go, CheckLeaderTimeouts: what the leaders are when it is done.
use funai_chain.Base.{
  ℕ, ◌≡◌, ◌≢◌, ◌≤◌, ◌<◌, ◌+◌, true, none, some, List, [], ◌∷◌, length, arith, refl, sym, ap, ◌∙◌,
  Bool-cases, inl, inr,
}
use funai_chain.Vrf.Types.{alpha_dispatch, LeaderInfo, validate_vrf_params}
use funai_chain.Vrf.Lists.{HasDistinct, length-perm}
use funai_chain.Vrf.Order.{rank_workers-perm}
use funai_chain.Vrf.Drawn.{length-scored}
use funai_chain.Vrf.Keeper.{VrfStore, VrfContext, get_vrf_params, get_leader_info}
use funai_chain.Vrf.Select.{has}
use funai_chain.Vrf.Leader.{
  keyed, leader_ranking, leader_seed, elected, is_overdue, check_leader_timeouts,
}
use funai_chain.Vrf.Elected.{List-cases, next_leader_lem, replaced, leaders_after}

length-eq-zero : {A : Type 0} (xs : List A) → length xs ≡ 0 → xs ≡ []
length-eq-zero [] h = refl
length-eq-zero (x ∷ xs) h = absurd (omega (arith, h))

module _ {F G : Type 0} (c : VrfContext F G) where
  -- A leader that is not overdue.
  abbrev pub IsInTerm : VrfStore → LeaderInfo → Type 0
  IsInTerm s l =
      (c.height < l.end_block)
      × (c.height ≤ l.last_heartbeat + (get_vrf_params s).leader_timeout_blocks)

module _ {F G : Type 0} (c : VrfContext F G) (online_workers : ℕ → List ℕ) where
  ranking_empty :
      (m : ℕ) (workers : List ℕ) (s : VrfStore)
      → leader_ranking c m workers s ≡ []
      → length (keyed c workers s) ≡ 0
  unfolding leader_ranking
  ranking_empty m workers s empty =
      let able = keyed c workers s in
      let seed = leader_seed c m s in
      sym (length-scored c seed alpha_dispatch able)
      ∙ sym (length-perm (rank_workers-perm c.floats seed alpha_dispatch able))
      ∙ ap length empty

  -- With parameters that are valid, after the loop a model of its list that had a leader, and for
  -- which some worker is online whose key is stored, has a leader whose term is running and whose
  -- last heartbeat is recent.
  pub check_leader_timeouts-IsInTerm :
      (models : List ℕ) (s : VrfStore) (m : ℕ) (l : LeaderInfo)
      → validate_vrf_params (get_vrf_params s) ≡ true
      → HasDistinct (λ a. a) models
      → has m models ≡ true
      → get_leader_info m s ≡ some l
      → keyed c (online_workers m) s ≢ []
      → (l' : LeaderInfo) × (get_leader_info m (check_leader_timeouts c models online_workers s)
          ≡ some l')
        × IsInTerm c s l'
  unfolding validate_vrf_params keyed
  check_leader_timeouts-IsInTerm models s m l valid distinct listed there keys =
      let ranking = leader_ranking c m (online_workers m) s in
      let next : get_leader_info m (check_leader_timeouts c models online_workers s)
          ≡ some (replaced c online_workers l m s ranking) =
        ground (
          arith,
          leaders_after c online_workers models s m distinct,
          listed,
          next_leader_lem c online_workers m s,
          there,
        ) in
      elim (Bool-cases (is_overdue c l s)) [
        | inr holds ↦
            (l, ground (arith, next, holds), (ground (arith, holds), ground (arith, holds)))
        | inl over ↦ elim (List-cases (online_workers m)) [
          | inl idle ↦ absurd (keys (rw idle refl))
          | inr (a, others, busy) ↦ elim (List-cases ranking) [
            | inl empty ↦ absurd (
                keys (
                  length-eq-zero (keyed c (online_workers m) s)
                    (ranking_empty m (online_workers m) s empty)))
            | inr (e, es, best) ↦ (
              elected c e.1.address m s,
              ground (arith, next, over, busy, best),
              (ground (arith, valid), ground arith),
            )
          ]
        ]
      ]

  -- A model without a leader is left without one, whoever is online.
  pub check_leader_timeouts_leaderless :
      (models : List ℕ) (s : VrfStore) (m : ℕ)
      → HasDistinct (λ a. a) models
      → get_leader_info m s ≡ none
      → get_leader_info m (check_leader_timeouts c models online_workers s) ≡ none
  check_leader_timeouts_leaderless models s m distinct nobody = ground (
    arith,
    leaders_after c online_workers models s m distinct,
    next_leader_lem c online_workers m s,
    nobody,
  )
