-- ===== src/Vrf/Drawn.antt =====
-- x/vrf/keeper/keeper.go: whom the draws for a task can name.
use funai_chain.Base.{
  ℕ, suc, ◌≡◌, ◌≢◌, ◌≤◌, Bool, true, false, if◌then◌else◌, List, [], ◌∷◌, All, length, arith, refl,
  ap, ◌∙◌, Bool-cases, inl, inr, leb,
}
use funai_chain.Base.Result.{ok}
use funai_chain.Vrf.Lists.{HasDistinct, HasDistinct-perm, All-perm, perm_back, All-map, length-perm}
use funai_chain.Vrf.Types.{Bytes, VrfAlpha, VrfWorkerStatus}
use funai_chain.Vrf.Rank.{RankedWorker, Scored, rank_workers, scored}
use funai_chain.Vrf.Order.{rank_workers-perm, place_of, scored-HasDistinct}
use funai_chain.Vrf.Keeper.{VrfStore, VrfContext}
use funai_chain.Vrf.Select.{get_online_workers, may_serve, take, candidates, addresses, draw}
use funai_chain.Vrf.Online.{
  IsFiled, IsServing, online-HasDistinct, take-All, take-HasDistinct, length-take, online-IsServing,
}

module _ {F G : Type 0} (c : VrfContext F G) where
  length-addresses : (es : List (Scored c.floats)) → length (addresses c es) ≡ length es
  length-addresses [] = refl
  length-addresses (e ∷ es) = ap suc (length-addresses es)

  pub length-scored :
      (seed : Bytes) (alpha : VrfAlpha) (ws : List (RankedWorker F))
      → length (scored c.floats seed alpha ws) ≡ length ws
  length-scored seed alpha [] = refl
  length-scored seed alpha (w ∷ ws) = ap suc (length-scored seed alpha ws)

  candidates-All :
      (Q : ℕ → Type 0) (left_out : ℕ → Bool) (ws : List VrfWorkerStatus)
      → All (λ (w : VrfWorkerStatus). may_serve left_out w ≡ true → Q w.address) ws
      → All (λ (w : RankedWorker F). Q w.address) (candidates c left_out ws)
  unfolding candidates
  candidates-All Q left_out [] h = tt
  candidates-All Q left_out (w ∷ ws) h = elim (Bool-cases (may_serve left_out w)) [
    | inl able ↦ rw able (h.0 able, candidates-All Q left_out ws h.1)
    | inr kept ↦ rw kept (candidates-All Q left_out ws h.1)
  ]

  candidates-HasDistinct :
      (left_out : ℕ → Bool) (ws : List VrfWorkerStatus)
      → HasDistinct (λ (w : VrfWorkerStatus). w.address) ws
      → HasDistinct (λ (w : RankedWorker F). w.address) (candidates c left_out ws)
  unfolding candidates
  candidates-HasDistinct left_out [] h = tt
  candidates-HasDistinct left_out (w ∷ ws) h =
      let rest = candidates-HasDistinct left_out ws h.1 in
      elim (Bool-cases (may_serve left_out w)) [
        | inl able ↦
            let apart =
              candidates-All (λ a. w.address ≢ a) left_out ws (All-map _ _ ws (λ v ne _. ne) h.0) in
            rw able (apart, rest)
        | inr kept ↦ rw kept rest
      ]

  pub addresses-All :
      (Q : ℕ → Type 0) (es : List (Scored c.floats))
      → All (λ (e : Scored c.floats). Q e.1.address) es
      → All Q (addresses c es)
  addresses-All Q [] h = tt
  addresses-All Q (e ∷ es) h = (h.0, addresses-All Q es h.1)

  pub addresses-HasDistinct :
      (es : List (Scored c.floats))
      → HasDistinct (place_of c.floats) es
      → HasDistinct (λ a. a) (addresses c es)
  addresses-HasDistinct [] h = tt
  addresses-HasDistinct (e ∷ es) h =
      (addresses-All (λ a. e.1.address ≢ a) es h.0, addresses-HasDistinct es h.1)

  scored-All :
      (Q : ℕ → Type 0) (seed : Bytes) (alpha : VrfAlpha) (ws : List (RankedWorker F))
      → All (λ (w : RankedWorker F). Q w.address) ws
      → All (λ (e : Scored c.floats). Q e.1.address) (scored c.floats seed alpha ws)
  scored-All Q seed alpha [] h = tt
  scored-All Q seed alpha (w ∷ ws) h = (h.0, scored-All Q seed alpha ws h.1)

  -- What holds of the candidates holds of the ranking.
  pub rank_workers-All :
      (Q : ℕ → Type 0) (seed : Bytes) (alpha : VrfAlpha) (ws : List (RankedWorker F))
      → All (λ (w : RankedWorker F). Q w.address) ws
      → All (λ (e : Scored c.floats). Q e.1.address) (rank_workers c.floats seed alpha ws)
  rank_workers-All Q seed alpha ws h =
      All-perm _ (perm_back (rank_workers-perm c.floats seed alpha ws))
        (scored-All Q seed alpha ws h)

  pub rank_workers-HasDistinct :
      (seed : Bytes) (alpha : VrfAlpha) (ws : List (RankedWorker F))
      → HasDistinct (λ (w : RankedWorker F). w.address) ws
      → HasDistinct (place_of c.floats) (rank_workers c.floats seed alpha ws)
  rank_workers-HasDistinct seed alpha ws h =
      HasDistinct-perm (place_of c.floats) (perm_back (rank_workers-perm c.floats seed alpha ws))
        (scored-HasDistinct c.floats seed alpha ws h)

  pub length-ranking :
      (seed : Bytes) (alpha : VrfAlpha) (ws : List (RankedWorker F))
      → length (addresses c (rank_workers c.floats seed alpha ws)) ≡ length ws
  length-ranking seed alpha ws =
      length-addresses (rank_workers c.floats seed alpha ws)
      ∙ length-perm (rank_workers-perm c.floats seed alpha ws)
      ∙ length-scored seed alpha ws

  -- How many a draw names: as many as it was asked for, if there are as many.
  abbrev pub quota : ℕ → ℕ → ℕ
  quota count able = if leb count able then count else able

  draw-eq-ok :
      (seed : Bytes) (alpha : VrfAlpha) (left_out : ℕ → Bool) (count : ℕ)
      (ws : List VrfWorkerStatus) (r : List ℕ)
      → draw c seed alpha left_out count ws ≡ ok r
      → let able = candidates c left_out ws in
        (r ≡ take (quota count (length able)) (addresses c (rank_workers c.floats seed alpha able)))
        × (1 ≤ quota count (length able))
  unfolding draw
  draw-eq-ok seed alpha left_out count ws r e = ground (arith, e)

  -- What a draw that succeeds returns: distinct idle workers of the model, none of them left out,
  -- as many as it was asked for if there are as many.
  pub draw-IsServing :
      (seed : Bytes) (alpha : VrfAlpha) (left_out : ℕ → Bool) (count model : ℕ) (s : VrfStore)
      (r : List ℕ)
      → IsFiled s.statuses
      → draw c seed alpha left_out count (get_online_workers model s) ≡ ok r
      → All (λ a. IsServing model s.statuses a × (left_out a ≡ false)) r
        × HasDistinct (λ a. a) r
        × (1 ≤ length r)
        × (length r ≡ quota count (length (candidates c left_out (get_online_workers model s))))
  draw-IsServing seed alpha left_out count model s r filed e =
      let ws = get_online_workers model s in
      let able = candidates c left_out ws in
      let ranking = rank_workers c.floats seed alpha able in
      let got = draw-eq-ok seed alpha left_out count ws r e in
      let n = quota count (length able) in
      let fits : n ≤ length (addresses c ranking) =
        ground (arith, length-ranking seed alpha able) in
      let serving =
        candidates-All (λ a. IsServing model s.statuses a × (left_out a ≡ false)) left_out ws
          (online-IsServing model left_out s.statuses filed) in
      let apart = candidates-HasDistinct left_out ws (online-HasDistinct model s.statuses filed) in
      let many : length r ≡ n = ap length got.0 ∙ length-take n (addresses c ranking) fits in
      (
        rw got.0
            (take-All _ n _ (addresses-All _ ranking (rank_workers-All _ seed alpha able serving))),
        rw got.0 (
            take-HasDistinct n _
              (addresses-HasDistinct ranking (rank_workers-HasDistinct seed alpha able apart))),
        rw many got.1,
        many,
      )
