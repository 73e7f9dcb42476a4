-- ===== src/Vrf/Order.antt =====
-- x/vrf/types/vrf.go, RankWorkers: the order of the ranking, and what the ranking depends on.
use mathlib.Core.List.{Permᴰ}
use funai_chain.Base.{
  ℕ, ◌≡◌, ◌≢◌, true, false, List, [], ◌∷◌, All, refl, ap, ◌∙◌, arith, Bool-cases, inl, inr,
}
use funai_chain.Vrf.Lists.{Lacks, HasDistinct, HasDistinct-perm, All-map, perm_self}
use funai_chain.Vrf.Types.{Bytes, VrfAlpha}
use funai_chain.Vrf.Rank.{
  Floats, RankedWorker, Scored, before, place, sort, score, scored, rank_workers,
}

-- `big.Float.Cmp` orders the numbers, some of which it may not tell apart.
pub record OrderLaws {F G : Type 0} (o : Floats F G) : Type 0 where
  pub lt_asym : (x y : G) → o.lt x y ≡ true → o.lt y x ≡ false
  pub lt_split : (x y z : G) → o.lt x z ≡ true → o.lt x y ≡ false → o.lt y z ≡ true

module _ {F G : Type 0} (o : Floats F G) where
  abbrev pub place_of : Scored o → ℕ
  place_of e = e.1.address

  -- No later worker comes before an earlier one.
  abbrev pub IsRanked : List (Scored o) → Type 0
  IsRanked [] = Unit
  IsRanked (x ∷ xs) = All (λ y. before o y x ≡ false) xs × IsRanked xs

  All-place :
      (P : Scored o → Type 0) (x : Scored o) (s : List (Scored o))
      → P x
      → All P s
      → All P (place o x s)
  unfolding place
  All-place P x [] p h = (p, tt)
  All-place P x (y ∷ ys) p h = elim (Bool-cases (before o y x)) [
    | inl later ↦ rw later (h.0, All-place P x ys p h.1)
    | inr first ↦ rw first (p, h)
  ]

  scored-Lacks :
      (seed : Bytes) (alpha : VrfAlpha) (k : ℕ) (ws : List (RankedWorker F))
      → Lacks (λ (w : RankedWorker F). w.address) k ws
      → Lacks place_of k (scored o seed alpha ws)
  scored-Lacks seed alpha k [] h = tt
  scored-Lacks seed alpha k (w ∷ ws) h = (h.0, scored-Lacks seed alpha k ws h.1)

  pub scored-HasDistinct :
      (seed : Bytes) (alpha : VrfAlpha) (ws : List (RankedWorker F))
      → HasDistinct (λ (w : RankedWorker F). w.address) ws
      → HasDistinct place_of (scored o seed alpha ws)
  scored-HasDistinct seed alpha [] h = tt
  scored-HasDistinct seed alpha (w ∷ ws) h =
      (scored-Lacks seed alpha w.address ws h.0, scored-HasDistinct seed alpha ws h.1)

  place-perm : (x : Scored o) (s : List (Scored o)) → Permᴰ (place o x s) (x ∷ s)
  unfolding place
  place-perm x [] = Permᴰ.cons refl Permᴰ.nil
  place-perm x (y ∷ ys) = elim (Bool-cases (before o y x)) [
    | inl later ↦
        let onto = Permᴰ.trans (Permᴰ.cons refl (place-perm x ys)) (Permᴰ.swap refl refl) in
        rw later onto
    | inr first ↦ rw first (perm_self (x ∷ y ∷ ys))
  ]

  sort-perm_self : (xs : List (Scored o)) → Permᴰ (sort o xs) xs
  unfolding sort
  sort-perm_self [] = Permᴰ.nil
  sort-perm_self (x ∷ xs) =
      Permᴰ.trans (place-perm x (sort o xs)) (Permᴰ.cons refl (sort-perm_self xs))

  pub rank_workers-perm :
      (seed : Bytes) (alpha : VrfAlpha) (ws : List (RankedWorker F))
      → Permᴰ (rank_workers o seed alpha ws) (scored o seed alpha ws)
  unfolding rank_workers
  rank_workers-perm seed alpha ws = sort-perm_self (scored o seed alpha ws)

  scored-perm :
      (seed : Bytes) (alpha : VrfAlpha) {ws vs : List (RankedWorker F)}
      → Permᴰ ws vs
      → Permᴰ (scored o seed alpha ws) (scored o seed alpha vs)
  scored-perm seed alpha Permᴰ.nil = Permᴰ.nil
  scored-perm seed alpha (Permᴰ.cons e p) =
      Permᴰ.cons (ap (λ w. (score o seed alpha w, w)) e) (scored-perm seed alpha p)
  scored-perm seed alpha (Permᴰ.swap e f) =
      Permᴰ.swap (ap (λ w. (score o seed alpha w, w)) e) (ap (λ w. (score o seed alpha w, w)) f)
  scored-perm seed alpha (Permᴰ.trans p q) =
      Permᴰ.trans (scored-perm seed alpha p) (scored-perm seed alpha q)

module _ {F G : Type 0} (o : Floats F G) (laws : OrderLaws o) where
  before_asym : (x y : Scored o) → before o x y ≡ true → before o y x ≡ false
  unfolding before
  before_asym x y h = ground (arith, laws.lt_asym x.0 y.0, laws.lt_asym y.0 x.0)

  before_total :
      (x y : Scored o) → x.1.address ≢ y.1.address → before o x y ≡ false → before o y x ≡ true
  unfolding before
  before_total x y ne h = ground (arith, laws.lt_asym x.0 y.0, laws.lt_asym y.0 x.0)

  before_split :
      (x y z : Scored o) → before o x z ≡ true → before o x y ≡ false → before o y z ≡ true
  unfolding before
  before_split x y z h k = ground (
    arith,
    laws.lt_asym x.0 z.0,
    laws.lt_asym y.0 x.0,
    laws.lt_split x.0 y.0 z.0,
    laws.lt_split y.0 z.0 x.0,
    laws.lt_split z.0 x.0 y.0,
    laws.lt_split y.0 x.0 z.0,
    laws.lt_split z.0 y.0 x.0,
  )

  not_before_trans :
      (x y z : Scored o) → before o y x ≡ false → before o z y ≡ false → before o z x ≡ false
  not_before_trans x y z h k = elim (Bool-cases (before o z x)) [
    | inl ahead ↦ ground (arith, before_split z y x ahead k, h)
    | inr behind ↦ behind
  ]

  -- Placing two workers of different addresses, in either order.
  place_comm :
      (x y : Scored o) (s : List (Scored o))
      → x.1.address ≢ y.1.address
      → place o x (place o y s) ≡ place o y (place o x s)
  unfolding place
  place_comm x y [] ne = elim (Bool-cases (before o x y)) [
    | inl first ↦ rw (first, before_asym x y first) refl
    | inr later ↦ rw (later, before_total x y ne later) refl
  ]
  place_comm x y (z ∷ zs) ne = elim (Bool-cases (before o z x)) [
    | inl zx ↦ elim (Bool-cases (before o z y)) [
      | inl zy ↦ rw (zx, zy, zx) (ap (λ l. z ∷ l) (place_comm x y zs ne))
      | inr yz ↦ let yx = before_split z y x zx yz in ground (arith, zx, yz, yx)
    ]
    | inr xz ↦ elim (Bool-cases (before o z y)) [
      | inl zy ↦ let xy = before_split z x y zy xz in ground (arith, zy, xz, xy)
      | inr yz ↦ elim (Bool-cases (before o x y)) [
        | inl first ↦ ground (arith, xz, yz, first, before_asym x y first)
        | inr later ↦ ground (arith, xz, yz, later, before_total x y ne later)
      ]
    ]
  ]

  sort-perm :
      {xs ys : List (Scored o)} → Permᴰ xs ys → HasDistinct (place_of o) xs → sort o xs ≡ sort o ys
  unfolding sort
  sort-perm Permᴰ.nil h = refl
  sort-perm (Permᴰ.cons {b = b} e p) h = rw (e, sort-perm p h.1) refl
  sort-perm (Permᴰ.swap {a = a} {b = b} {l = l} e f) h =
      place_comm a b (sort o l) h.0.0 ∙ rw (e, f) refl
  sort-perm (Permᴰ.trans p q) h = sort-perm p h ∙ sort-perm q (HasDistinct-perm (place_of o) p h)

  place-IsRanked : (x : Scored o) (s : List (Scored o)) → IsRanked o s → IsRanked o (place o x s)
  unfolding place
  place-IsRanked x [] h = (tt, tt)
  place-IsRanked x (y ∷ ys) h = elim (Bool-cases (before o y x)) [
    | inl later ↦
        let rest = place-IsRanked x ys h.1 in
        let behind = All-place o (λ z. before o z y ≡ false) x ys (before_asym y x later) h.0 in
        rw later (behind, rest)
    | inr first ↦
        let behind =
          All-map (λ z. before o z y ≡ false) (λ z. before o z x ≡ false) ys
            (λ z k. not_before_trans x y z first k) h.0 in
        rw first ((first, behind), h)
  ]

  sort-IsRanked : (xs : List (Scored o)) → IsRanked o (sort o xs)
  unfolding sort
  sort-IsRanked [] = tt
  sort-IsRanked (x ∷ xs) = place-IsRanked x (sort o xs) (sort-IsRanked xs)

  -- The ranking is the workers with their scores, best first.
  pub rank_workers_lem :
      (seed : Bytes) (alpha : VrfAlpha) (ws : List (RankedWorker F))
      → IsRanked o (rank_workers o seed alpha ws)
        × Permᴰ (rank_workers o seed alpha ws) (scored o seed alpha ws)
  unfolding rank_workers
  rank_workers_lem seed alpha ws =
      (sort-IsRanked (scored o seed alpha ws), rank_workers-perm o seed alpha ws)

  -- Two nodes that rank the same workers, of different addresses, listed in any two orders, get the
  -- same ranking.
  pub rank_workers_unordered :
      (seed : Bytes) (alpha : VrfAlpha) {ws vs : List (RankedWorker F)}
      → HasDistinct (λ (w : RankedWorker F). w.address) ws
      → Permᴰ ws vs
      → rank_workers o seed alpha ws ≡ rank_workers o seed alpha vs
  unfolding rank_workers
  rank_workers_unordered seed alpha {ws} h p =
      sort-perm (scored-perm o seed alpha p) (scored-HasDistinct o seed alpha ws h)
