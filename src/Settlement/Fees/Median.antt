-- ===== src/Settlement/Fees/Median.antt =====
-- `medianUint32` (keeper.go): an exchange sort of the values, then the middle one, or the mean of two.
use funai_chain.Base.{
  ℕ, zero, suc, ◌+◌, ◌/◌, ◌≤◌, ◌<◌, ◌≡◌, refl, ltb, ◌==◌, if◌then◌else◌, u32, arith, List, [], ◌∷◌,
  length, All,
}

-- The inner loop, at a fixed i: `vals[j]` and `vals[i]` are exchanged where `vals[j]` is less. The
-- result is the final `vals[i]` and what stands behind it.
unfoldable pub sweep : ℕ → List ℕ → ℕ × List ℕ
sweep x [] = (x, [])
sweep x (y ∷ ys) =
    let (m, r) = sweep (if ltb y x then y else x) ys in (m, (if ltb y x then x else y) ∷ r)

-- The outer loop, over the positions that are left.
unfoldable pub exchange_sort : ℕ → List ℕ → List ℕ
exchange_sort zero xs = xs
exchange_sort (suc n) [] = []
exchange_sort (suc n) (x ∷ xs) = let (m, r) = sweep x xs in m ∷ exchange_sort n r

abbrev pub element : List ℕ → ℕ → ℕ
element [] i = 0
element (x ∷ xs) zero = x
element (x ∷ xs) (suc i) = element xs i

unfoldable pub median : List ℕ → ℕ
unfolding exchange_sort sweep
median vals =
    let sorted = exchange_sort (length vals) vals in
    if length vals == 0
    then 0
    else if length vals == 2
    then u32 (element sorted 0 + element sorted 1) / 2
    else element sorted (length vals / 2)

abbrev pub IsSorted : List ℕ → Type 0
IsSorted [] = Unit
IsSorted (x ∷ xs) = All (λ y. x ≤ y) xs × IsSorted xs

abbrev pub count : ℕ → List ℕ → ℕ
count a [] = 0
count a (x ∷ xs) = (if a == x then 1 else 0) + count a xs

sweep-count : (a x : ℕ) (xs : List ℕ) → count a ((sweep x xs).0 ∷ (sweep x xs).1) ≡ count a (x ∷ xs)
unfolding sweep
sweep-count a x [] = refl
sweep-count a x (y ∷ ys) = ground (arith, sweep-count a (if ltb y x then y else x) ys)

length-sweep : (x : ℕ) (xs : List ℕ) → length (sweep x xs).1 ≡ length xs
unfolding sweep
length-sweep x [] = refl
length-sweep x (y ∷ ys) = ground (arith, length-sweep (if ltb y x then y else x) ys)

sweep-le : (x : ℕ) (xs : List ℕ) → (sweep x xs).0 ≤ x
unfolding sweep
sweep-le x [] = omega arith
sweep-le x (y ∷ ys) = ground (arith, sweep-le (if ltb y x then y else x) ys)

All-weaken : (m n : ℕ) (xs : List ℕ) → m ≤ n → All (λ y. n ≤ y) xs → All (λ y. m ≤ y) xs
All-weaken m n [] h a = tt
All-weaken m n (x ∷ xs) h a = (omega arith, All-weaken m n xs h a.1)

sweep_least : (x : ℕ) (xs : List ℕ) → All (λ y. (sweep x xs).0 ≤ y) (sweep x xs).1
unfolding sweep
sweep_least x [] = tt
sweep_least x (y ∷ ys) = (
  ground (arith, sweep-le (if ltb y x then y else x) ys),
  sweep_least (if ltb y x then y else x) ys,
)

-- A bound below all values is kept by both loops.
sweep-All : (m x : ℕ) (xs : List ℕ) → m ≤ x → All (λ y. m ≤ y) xs → All (λ y. m ≤ y) (sweep x xs).1
unfolding sweep
sweep-All m x [] h a = tt
sweep-All m x (y ∷ ys) h a =
    (ground arith, sweep-All m (if ltb y x then y else x) ys (ground arith) a.1)

sweep_first : (m x : ℕ) (xs : List ℕ) → m ≤ x → All (λ y. m ≤ y) xs → m ≤ (sweep x xs).0
unfolding sweep
sweep_first m x [] h a = h
sweep_first m x (y ∷ ys) h a = sweep_first m (if ltb y x then y else x) ys (ground arith) a.1

exchange_sort-All :
    (m n : ℕ) (xs : List ℕ) → All (λ y. m ≤ y) xs → All (λ y. m ≤ y) (exchange_sort n xs)
unfolding exchange_sort
exchange_sort-All m zero xs a = a
exchange_sort-All m (suc n) [] a = tt
exchange_sort-All m (suc n) (x ∷ xs) a =
    (sweep_first m x xs a.0 a.1, exchange_sort-All m n (sweep x xs).1 (sweep-All m x xs a.0 a.1))

exchange_sort-IsSorted_within :
    (n : ℕ) (xs : List ℕ) → length xs ≤ n → IsSorted (exchange_sort n xs)
unfolding exchange_sort
exchange_sort-IsSorted_within zero [] h = tt
exchange_sort-IsSorted_within zero (x ∷ xs) h = absurd (omega arith)
exchange_sort-IsSorted_within (suc n) [] h = tt
exchange_sort-IsSorted_within (suc n) (x ∷ xs) h = (
  exchange_sort-All (sweep x xs).0 n (sweep x xs).1 (sweep_least x xs),
  exchange_sort-IsSorted_within n (sweep x xs).1 (omega (arith, length-sweep x xs)),
)

count-exchange_sort : (a n : ℕ) (xs : List ℕ) → count a (exchange_sort n xs) ≡ count a xs
unfolding exchange_sort
count-exchange_sort a zero xs = refl
count-exchange_sort a (suc n) [] = refl
count-exchange_sort a (suc n) (x ∷ xs) =
    omega (arith, count-exchange_sort a n (sweep x xs).1, sweep-count a x xs)

-- The two loops sort: the result is in ascending order and holds every value as often as before.
pub exchange_sort-IsSorted :
    (xs : List ℕ)
    → IsSorted (exchange_sort (length xs) xs)
      × ((a : ℕ) → count a (exchange_sort (length xs) xs) ≡ count a xs)
exchange_sort-IsSorted xs = (
  exchange_sort-IsSorted_within (length xs) xs (omega arith),
  λ a. count-exchange_sort a (length xs) xs,
)

-- Of three values one can be anything: the median stays between any two of them.
pub median_of_three :
    (a b c lo hi : ℕ)
    → lo ≤ a
    → a ≤ hi
    → lo ≤ b
    → b ≤ hi
    → ((lo ≤ median (a ∷ b ∷ c ∷ [])) × (median (a ∷ b ∷ c ∷ []) ≤ hi))
      × ((lo ≤ median (a ∷ c ∷ b ∷ [])) × (median (a ∷ c ∷ b ∷ []) ≤ hi))
      × ((lo ≤ median (c ∷ a ∷ b ∷ [])) × (median (c ∷ a ∷ b ∷ []) ≤ hi))
unfolding median
median_of_three a b c lo hi la ah lb bh = ground arith

pub median_of_two :
    (a b lo hi : ℕ)
    → lo ≤ a
    → a ≤ hi
    → lo ≤ b
    → b ≤ hi
    → hi < 2147483648
    → (lo ≤ median (a ∷ b ∷ [])) × (median (a ∷ b ∷ []) ≤ hi)
unfolding median
median_of_two a b lo hi la ah lb bh small = ground arith
