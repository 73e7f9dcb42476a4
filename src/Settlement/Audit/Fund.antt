-- ===== src/Settlement/Audit/Fund.antt =====
-- `DistributeMultiVerificationFund` (keeper.go): the fund of an epoch, shared among those who gave
-- second results in it.
use native.Mathlib.Nat.{mul-add, mul-div-le, mul_comm, mul-le-mul_left}
use funai_chain.Base.{
  ℕ, suc, ◌+◌, ◌-◌, ◌*◌, ◌/◌, ◌≡◌, ◌≤◌, ◌<◌, ◌==◌, ltb, if◌then◌else◌, Bool, true, false, none,
  some, List, [], ◌∷◌, ◌++◌, Dict, All, length, arith, refl, Bool-cases, Option-cases, inl, inr,
}
use funai_chain.Settlement.Types.{SecondVerificationRecord}
use funai_chain.Settlement.Store.{
  Context, Store, get_epoch_stats, get_params, increment_second_verifier_epoch_fee,
}
use funai_chain.Settlement.Account.Solvent.{BankLaws, holdings}

-- The second verifiers of the epoch, each once for every result.
abbrev pub persons_of : ℕ → Dict SecondVerificationRecord → List ℕ
persons_of epoch [] = []
persons_of epoch (e ∷ d) =
    let rest = persons_of epoch d in
    if e.1.processed_at / 100 == epoch then e.1.second_verifier_addresses ++ rest else rest

abbrev pub times : ℕ → List ℕ → ℕ
times a [] = 0
times a (p ∷ ps) = let rest = times a ps in if a == p then suc rest else rest

-- The keys of the map of counts, sorted.
abbrev pub add_address : ℕ → List ℕ → List ℕ
add_address a [] = a ∷ []
add_address a (b ∷ bs) =
    let later = b ∷ add_address a bs in
    if a == b then b ∷ bs else if ltb a b then a ∷ b ∷ bs else later

abbrev pub sorted_addresses : List ℕ → List ℕ
sorted_addresses [] = []
sorted_addresses (p ∷ ps) = add_address p (sorted_addresses ps)

module _ {S : Type 0} (c : Context S) where
  -- One payment; the flag tells whether it was made.
  unfoldable pub pay_from_fund : ℕ → ℕ → Store S → Store S × Bool
  pay_from_fund str amount s = elim (c.decode str) [
    | none ↦ (s, false)
    | some a ↦ if amount == 0 then (s, false) else elim (c.send s.outer c.module_account a amount) [
      | none ↦ (s, false)
      | some o ↦ (increment_second_verifier_epoch_fee c str amount (record s { outer = o }), true)
    ]
  ]

  -- The loop: everyone gets a share for each result, and the last one what is left.
  unfoldable pub pay_fund : ℕ → ℕ → List ℕ → ℕ → List ℕ → Store S → Store S
  unfolding pay_from_fund
  pay_fund pool share persons paid [] s = s
  pay_fund pool share persons paid (a ∷ []) s = (pay_from_fund a (pool - paid) s).0
  pay_fund pool share persons paid (a ∷ b ∷ addrs) s =
      let amount = share * times a persons in
      let r = pay_from_fund a amount s in
      let more = if r.1 then paid + amount else paid in
      pay_fund pool share persons more (b ∷ addrs) r.0

  abbrev pub fund_pool : ℕ → Store S → ℕ
  fund_pool epoch s =
      (get_epoch_stats epoch s).total_fees * (get_params s).multi_verification_fund_ratio / 1000

  unfoldable pub distribute_multi_verification_fund : ℕ → Store S → Store S
  unfolding pay_fund
  distribute_multi_verification_fund epoch s =
      let persons = persons_of epoch s.records in
      let share = fund_pool epoch s / length persons in
      let shared = pay_fund (fund_pool epoch s) share persons 0 (sorted_addresses persons) s in
      if (get_epoch_stats epoch s).second_verification_person_count == 0
      then s
      else if fund_pool epoch s == 0
      then s
      else if length persons == 0
      then s
      else if share == 0
      then s
      else shared

-- Strictly ascending.
abbrev IsAscending : List ℕ → Type 0
IsAscending [] = Unit
IsAscending (a ∷ addrs) = All (λ b. a < b) addrs × IsAscending addrs

add_address-All : (P : ℕ → Type 0) (a : ℕ) (bs : List ℕ) → P a → All P bs → All P (add_address a bs)
add_address-All P a [] p h = (p, tt)
add_address-All P a (b ∷ bs) p h = elim (Bool-cases (a == b)) [
  | inl same ↦ rw same h
  | inr other ↦ elim (Bool-cases (ltb a b)) [
    | inl first ↦ rw (other, first) (p, h)
    | inr later ↦ rw (other, later) (h.0, add_address-All P a bs p h.1)
  ]
]

All-below : (a b : ℕ) (bs : List ℕ) → a < b → All (λ x. b < x) bs → All (λ x. a < x) bs
All-below a b [] h k = tt
All-below a b (x ∷ bs) h k = let first = k.0 in (omega (arith, h, first), All-below a b bs h k.1)

add_address-IsAscending : (a : ℕ) (bs : List ℕ) → IsAscending bs → IsAscending (add_address a bs)
add_address-IsAscending a [] h = (tt, tt)
add_address-IsAscending a (b ∷ bs) h = elim (Bool-cases (a == b)) [
  | inl same ↦ rw same h
  | inr other ↦ elim (Bool-cases (ltb a b)) [
    | inl first ↦
        let below : a < b = ground (arith, first) in
        rw (other, first) ((below, All-below a b bs below h.0), h)
    | inr later ↦
        let above : b < a = ground (arith, other, later) in
        rw (other, later)
          (add_address-All (λ x. b < x) a bs above h.0, add_address-IsAscending a bs h.1)
  ]
]

sorted_addresses-IsAscending : (ps : List ℕ) → IsAscending (sorted_addresses ps)
sorted_addresses-IsAscending [] = tt
sorted_addresses-IsAscending (p ∷ ps) =
    add_address-IsAscending p (sorted_addresses ps) (sorted_addresses-IsAscending ps)

-- The counts of the addresses together.
abbrev counts : List ℕ → List ℕ → ℕ
counts persons [] = 0
counts persons (a ∷ addrs) = times a persons + counts persons addrs

counts_none : (addrs : List ℕ) → counts [] addrs ≡ 0
counts_none [] = refl
counts_none (a ∷ addrs) = let rest = counts_none addrs in omega (arith, rest)

counts_skip :
    (p : ℕ) (persons addrs : List ℕ)
    → All (λ b. p < b) addrs
    → counts (p ∷ persons) addrs ≡ counts persons addrs
counts_skip p persons [] h = refl
counts_skip p persons (a ∷ addrs) h = ground (arith, counts_skip p persons addrs h.1, h.0)

counts_cons :
    (p : ℕ) (persons addrs : List ℕ)
    → IsAscending addrs
    → counts (p ∷ persons) addrs ≤ suc (counts persons addrs)
counts_cons p persons [] h = omega arith
counts_cons p persons (a ∷ addrs) h = elim (Bool-cases (a == p)) [
  | inl here ↦
      let key : a ≡ p = ground (arith, here) in
      let rest = counts_skip p persons addrs (rw key at h.0) in ground (arith, rest, here)
  | inr away ↦ let rest = counts_cons p persons addrs h.1 in ground (arith, rest, away)
]

counts-le-length :
    (persons addrs : List ℕ) → IsAscending addrs → counts persons addrs ≤ length persons
counts-le-length [] addrs h = let rest = counts_none addrs in omega (arith, rest)
counts-le-length (p ∷ persons) addrs h =
    let rest = counts-le-length persons addrs h in
    let one = counts_cons p persons addrs h in omega (arith, rest, one)

module _ {S : Type 0} (c : Context S) where
  pay_from_fund-holdings :
      (a amount : ℕ) (s : Store S)
      → BankLaws c
      → holdings c s
        ≤ holdings c (pay_from_fund c a amount s).0
          + (if (pay_from_fund c a amount s).1 then amount else 0)
  unfolding pay_from_fund
  pay_from_fund-holdings a amount s bank = elim (Option-cases (c.decode a)) [
    | inl malformed ↦ ground (arith, malformed)
    | inr (to, decoded) ↦ elim (Bool-cases (amount == 0)) [
      | inl nothing ↦ ground (arith, decoded, nothing)
      | inr some_left ↦ elim (Option-cases (c.send s.outer c.module_account to amount)) [
        | inl refused ↦ ground (arith, decoded, some_left, refused)
        | inr (o, sent) ↦
            let cost = bank.send_debit s.outer c.module_account to amount o sent in
            ground (arith, decoded, some_left, sent, cost)
      ]
    ]
  ]

  pay_fund-holdings :
      (pool share paid : ℕ) (persons addrs : List ℕ) (s : Store S)
      → BankLaws c
      → paid + share * counts persons addrs ≤ pool
      → holdings c s ≤ holdings c (pay_fund c pool share persons paid addrs s) + (pool - paid)
  unfolding pay_fund
  pay_fund-holdings pool share paid persons [] s bank room = omega arith
  pay_fund-holdings pool share paid persons (a ∷ []) s bank room =
      let one = pay_from_fund-holdings a (pool - paid) s bank in ground (arith, one)
  pay_fund-holdings pool share paid persons (a ∷ b ∷ addrs) s bank room =
      let amount = share * times a persons in
      let r = pay_from_fund c a amount s in
      let one = pay_from_fund-holdings a amount s bank in
      let more = if r.1 then paid + amount else paid in
      let split = mul-add share (times a persons) (counts persons (b ∷ addrs)) in
      let left : more + share * counts persons (b ∷ addrs) ≤ pool = ground (arith, room, split) in
      let rest = pay_fund-holdings pool share more persons (b ∷ addrs) r.0 bank left in
      ground (arith, one, rest, room, split)

  -- With a bank that keeps its laws, the distribution of an epoch's fund costs the module at most the
  -- fund, whoever cannot be paid on the way: the last one, who takes what is left, never takes more
  -- than the fund still has.
  pub distribute_multi_verification_fund_bounded :
      (epoch : ℕ) (s : Store S)
      → BankLaws c
      → holdings c s
        ≤ holdings c (distribute_multi_verification_fund c epoch s) + fund_pool c epoch s
  unfolding distribute_multi_verification_fund
  distribute_multi_verification_fund_bounded epoch s bank =
      let persons = persons_of epoch s.records in
      let pool = fund_pool c epoch s in
      let share = pool / length persons in
      let addrs = sorted_addresses persons in
      let few = counts-le-length persons addrs (sorted_addresses-IsAscending persons) in
      let scaled = mul-le-mul_left share few in
      let whole : share * length persons ≤ pool =
        rw (mul_comm share (length persons)) (mul-div-le pool (length persons)) in
      let shared =
        pay_fund-holdings pool share 0 persons addrs s bank (omega (arith, scaled, whole)) in
      ground (arith, shared)
