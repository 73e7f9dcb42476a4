-- ===== src/Vrf/Seated.antt =====
-- x/vrf/keeper/keeper.go, SelectCommittee: who sits on the committee.
use funai_chain.Base.{
  ℕ, zero, suc, ◌≡◌, ◌≢◌, ◌≤◌, ◌<◌, ◌^◌, true, false, ◌==◌, some, List, [], ◌∷◌, All, length,
  lookup, arith, refl, ap, ◌∙◌, Bool-cases, Option-cases, inl, inr,
}
use funai_chain.Base.Result.{ok}
use funai_chain.Vrf.Types.{Bytes, alpha_dispatch, CommitteeInfo, VrfWorkerStatus}
use funai_chain.Vrf.Lists.{HasDistinct, All-map}
use funai_chain.Vrf.Rank.{RankedWorker, Scored, before, rank_workers}
use funai_chain.Vrf.Order.{OrderLaws, IsRanked, place_of, rank_workers_lem}
use funai_chain.Vrf.Keeper.{VrfStore, VrfContext, get_vrf_params}
use funai_chain.Vrf.Select.{has, take, addresses}
use funai_chain.Vrf.Leader.{keyed}
use funai_chain.Vrf.Committee.{
  committee_size, committee_seed, seats, committee_ranking, select_committee, member_addresses,
  drawn,
}
use funai_chain.Vrf.Online.{take-All, take-HasDistinct}
use funai_chain.Vrf.Drawn.{
  rank_workers-All, rank_workers-HasDistinct, addresses-All, addresses-HasDistinct,
}
use funai_chain.Vrf.Elected.{List-cases}

abbrev pub drop {ℓ} : {A : Type ℓ} → ℕ → List A → List A
drop zero xs = xs
drop (suc n) [] = []
drop (suc n) (x ∷ xs) = drop n xs

-- One of the addresses, with a key stored for it.
abbrev pub IsKeyed : List ℕ → VrfStore → ℕ → Type 0
IsKeyed workers s a =
    (has a workers ≡ true)
    × ((w : VrfWorkerStatus) × (lookup a s.statuses ≡ some w) × (length w.pubkey ≢ 0))

drop-All : {A : Type 0} (P : A → Type 0) (n : ℕ) (xs : List A) → All P xs → All P (drop n xs)
drop-All P zero xs h = h
drop-All P (suc n) [] h = tt
drop-All P (suc n) (x ∷ xs) h = drop-All P n xs h.1

size_bounds :
    (size workers n : ℕ)
    → size < 2 ^ 63
    → committee_size size workers ≡ some n
    → (1 ≤ n) × (n ≤ size)
size_bounds size workers n small e = (ground (arith, e), ground (arith, e))

module _ {F G : Type 0} (c : VrfContext F G) where
  keyed-All :
      (Q : ℕ → Type 0) (workers : List ℕ) (s : VrfStore)
      → All
          (λ a. (w : VrfWorkerStatus) → lookup a s.statuses ≡ some w → length w.pubkey ≢ 0 → Q a)
          workers
      → All (λ (w : RankedWorker F). Q w.address) (keyed c workers s)
  unfolding keyed
  keyed-All Q [] s h = tt
  keyed-All Q (a ∷ workers) s h =
      let rest = keyed-All Q workers s h.1 in
      elim (Option-cases (lookup a s.statuses)) [
        | inl missing ↦ rw (keyed, missing) rest
        | inr (w, there) ↦ elim (Bool-cases (length w.pubkey == 0)) [
          | inl blank ↦ rw (keyed, there, blank) rest
          | inr key ↦ rw (keyed, there, key) (h.0 w there (ground (arith, key)), rest)
        ]
      ]

  keyed-HasDistinct :
      (workers : List ℕ) (s : VrfStore)
      → HasDistinct (λ a. a) workers
      → HasDistinct (λ (w : RankedWorker F). w.address) (keyed c workers s)
  unfolding keyed
  keyed-HasDistinct [] s h = tt
  keyed-HasDistinct (a ∷ workers) s h =
      let rest = keyed-HasDistinct workers s h.1 in
      let apart = keyed-All (λ b. a ≢ b) workers s (All-map _ _ workers (λ b ne w t k. ne) h.0) in
      elim (Option-cases (lookup a s.statuses)) [
        | inl missing ↦ rw (keyed, missing) rest
        | inr (w, there) ↦ elim (Bool-cases (length w.pubkey == 0)) [
          | inl blank ↦ rw (keyed, there, blank) rest
          | inr key ↦ rw (keyed, there, key) (apart, rest)
        ]
      ]

  All-has :
      (all workers : List ℕ)
      → ((a : ℕ) → has a workers ≡ true → has a all ≡ true)
      → All (λ a. has a all ≡ true) workers
  All-has all [] f = tt
  All-has all (a ∷ workers) f =
      (f a (ground arith), All-has all workers (λ b h. f b (ground (arith, h))))

  keyed-IsKeyed :
      (workers : List ℕ) (s : VrfStore)
      → All (λ (w : RankedWorker F). IsKeyed workers s w.address) (keyed c workers s)
  keyed-IsKeyed workers s =
      keyed-All (IsKeyed workers s) workers s
        (All-map _ _ workers (λ a h w t k. (h, (w, t, k))) (All-has workers workers (λ a h. h)))

  members_lem :
      (seed : Bytes) (n : ℕ) (es : List (Scored c.floats))
      → member_addresses (seats c seed (take n es)) ≡ take n (addresses c es)
  members_lem seed zero es = refl
  members_lem seed (suc n) [] = refl
  members_lem seed (suc n) (e ∷ es) = ap (◌∷◌ e.1.address) (members_lem seed n es)

  ranking-All :
      (workers : List ℕ) (s : VrfStore)
      → All (λ (e : Scored c.floats). IsKeyed workers s e.1.address) (committee_ranking c workers s)
  unfolding committee_ranking
  ranking-All workers s = rank_workers-All c _ _ _ _ (keyed-IsKeyed workers s)

  ranking-HasDistinct :
      (workers : List ℕ) (s : VrfStore)
      → HasDistinct (λ a. a) workers
      → HasDistinct (place_of c.floats) (committee_ranking c workers s)
  unfolding committee_ranking
  ranking-HasDistinct workers s h = rank_workers-HasDistinct c _ _ _ (keyed-HasDistinct workers s h)

  seats-at_most :
      (seed : Bytes) (n : ℕ) (es : List (Scored c.floats)) → length (seats c seed (take n es)) ≤ n
  seats-at_most seed zero es = omega arith
  seats-at_most seed (suc n) [] = omega arith
  seats-at_most seed (suc n) (e ∷ es) = let rest = seats-at_most seed n es in omega (arith, rest)

  seats-length :
      (seed : Bytes) (n : ℕ) (es : List (Scored c.floats))
      → 1 ≤ n
      → es ≢ []
      → (1 ≤ length (seats c seed (take n es))) × (length (seats c seed (take n es)) ≤ n)
  seats-length seed zero es h ne = absurd (omega (arith, h))
  seats-length seed (suc n) [] h ne = absurd (ne refl)
  seats-length seed (suc n) (e ∷ es) h ne =
      let rest = seats-at_most seed n es in (omega arith, omega (arith, rest))

  IsRanked-take :
      (n : ℕ) (es : List (Scored c.floats))
      → IsRanked c.floats es
      → All (λ x. All (λ y. before c.floats y x ≡ false) (drop n es)) (take n es)
  IsRanked-take zero es h = tt
  IsRanked-take (suc n) [] h = tt
  IsRanked-take (suc n) (e ∷ es) h = (drop-All _ n es h.0, IsRanked-take n es h.1)

  -- The committee that is drawn, where one is.
  pub select_committee-eq-ok :
      (workers : List ℕ) (s t : VrfStore) (info : CommitteeInfo)
      → select_committee c workers s ≡ ok (info, t)
      → (n : ℕ) × (committee_size (get_vrf_params s).committee_size (length workers) ≡ some n)
        × (info ≡ drawn c n (committee_ranking c workers s) s)
        × (t ≡ record s { committee = some info })
        × (committee_ranking c workers s ≢ [])
  unfolding select_committee
  select_committee-eq-ok workers s t info e =
      elim (Option-cases (committee_size (get_vrf_params s).committee_size (length workers))) [
        | inl nobody ↦ ground (arith, e, nobody)
        | inr (n, size) ↦ elim (List-cases (committee_ranking c workers s)) [
          | inl empty ↦ ground (arith, e, size, empty)
          | inr (x, xs, best) ↦ elim (Bool-cases ((get_vrf_params s).committee_rotation == 0)) [
            | inl crash ↦ ground (arith, e, size, best, crash)
            | inr fine ↦
                let got : (info ≡ drawn c n (x ∷ xs) s)
                    × (t ≡ record s { committee = some (drawn c n (x ∷ xs) s) }) =
                  (ground (arith, e, size, best, fine), ground (arith, e, size, best, fine)) in
                (
                  n,
                  size,
                  rw best got.0,
                  rw got.0 got.1,
                  λ none_there. ground (arith, best, none_there),
                )
          ]
        ]
      ]

  -- A committee that is drawn of workers who are listed once each: all of its members are listed
  -- and have a stored key, none sits twice, there is at least one and there are at most as many as the
  -- parameters say. Only the committee of the store changes.
  pub select_committee-IsKeyed :
      (workers : List ℕ) (s t : VrfStore) (info : CommitteeInfo)
      → HasDistinct (λ a. a) workers
      → (get_vrf_params s).committee_size < 2 ^ 63
      → select_committee c workers s ≡ ok (info, t)
      → All (IsKeyed workers s) (member_addresses info.members)
        × HasDistinct (λ a. a) (member_addresses info.members)
        × (1 ≤ length info.members)
        × (length info.members ≤ (get_vrf_params s).committee_size)
        × (t ≡ record s { committee = some info })
  select_committee-IsKeyed workers s t info distinct small e =
      let got = select_committee-eq-ok workers s t info e in
      let n = got.0 in
      let able = keyed c workers s in
      let ranking = committee_ranking c workers s in
      let members : info.members ≡ seats c (committee_seed c s) (take n ranking) =
        ap (λ (i : CommitteeInfo). i.members) got.2 in
      let named : member_addresses info.members ≡ take n (addresses c ranking) =
        ap member_addresses members ∙ members_lem (committee_seed c s) n ranking in
      let size = size_bounds (get_vrf_params s).committee_size (length workers) n small got.1 in
      let many = seats-length (committee_seed c s) n ranking size.0 got.4 in
      (
        rw named (take-All _ n _ (addresses-All c _ ranking (ranking-All workers s))),
        rw named (
            take-HasDistinct n _
              (addresses-HasDistinct c ranking (ranking-HasDistinct workers s distinct))),
        rw members many.0,
        (let most : length (seats c (committee_seed c s) (take n ranking)) ≤ n = many.1 in
            rw members (omega (arith, most, size.1))),
        got.3,
      )

  -- With laws for the comparison of scores, nobody who was passed over ranks before a member.
  pub select_committee_best :
      (workers : List ℕ) (s t : VrfStore) (info : CommitteeInfo)
      → OrderLaws c.floats
      → select_committee c workers s ≡ ok (info, t)
      → let ranking = committee_ranking c workers s in
        (n : ℕ) × (info.members ≡ seats c (committee_seed c s) (take n ranking))
        × All (λ x. All (λ y. before c.floats y x ≡ false) (drop n ranking)) (take n ranking)
  unfolding committee_ranking rank_workers
  select_committee_best workers s t info laws e =
      let got = select_committee-eq-ok workers s t info e in
      (
        got.0,
        ap (λ (i : CommitteeInfo). i.members) got.2,
        IsRanked-take got.0 (committee_ranking c workers s)
            (rank_workers_lem c.floats laws (committee_seed c s) alpha_dispatch
              (keyed c workers s)).0,
      )
