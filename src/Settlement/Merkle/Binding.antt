-- ===== src/Settlement/Merkle/Binding.antt =====
-- What a Merkle root says of the leaves.
use funai_chain.Base.{ℕ, zero, suc, ◌+◌, ◌≤◌, ◌<◌, ◌≡◌, some, List, [], ◌∷◌, length, arith, refl}
use funai_chain.Settlement.Merkle.{level, collapse, merkle_root}

length-level :
    (pair : ℕ → ℕ → ℕ) (hs : List ℕ)
    → (length hs ≤ length (level pair hs) + length (level pair hs))
      × (length (level pair hs) + length (level pair hs) ≤ length hs + 1)
unfolding level
length-level pair [] = omega arith
length-level pair (a ∷ []) = omega arith
length-level pair (a ∷ b ∷ hs) = omega (arith, length-level pair hs)

collapse_total :
    (pair : ℕ → ℕ → ℕ) (n : ℕ) (hs : List ℕ)
    → 0 < length hs
    → length hs ≤ n
    → (r : ℕ) × (collapse pair n hs ≡ some r)
unfolding collapse
collapse_total pair zero hs p h = absurd (omega arith)
collapse_total pair (suc n) [] p h = absurd (omega arith)
collapse_total pair (suc n) (a ∷ []) p h = (a, refl)
collapse_total pair (suc n) (a ∷ b ∷ hs) p h =
    collapse_total pair n (level pair (a ∷ b ∷ hs)) (omega (arith, length-level pair (a ∷ b ∷ hs)))
      (omega (arith, length-level pair (a ∷ b ∷ hs)))

-- Every batch that is not empty has a root: the loop ends within as many rounds as there are leaves.
pub merkle_root_total :
    (pair : ℕ → ℕ → ℕ) (hs : List ℕ) → 0 < length hs → (r : ℕ) × (merkle_root pair hs ≡ some r)
unfolding merkle_root
merkle_root_total pair hs p = collapse_total pair (length hs) hs p (omega arith)

-- No two pairs are known that hash alike.
abbrev pub IsCollisionFree : (ℕ → ℕ → ℕ) → Type 0
IsCollisionFree pair = (a b a' b' : ℕ) → pair a b ≡ pair a' b' → (a ≡ a') × (b ≡ b')

level-injective :
    (pair : ℕ → ℕ → ℕ) (hs ks : List ℕ)
    → IsCollisionFree pair
    → length hs ≡ length ks
    → level pair hs ≡ level pair ks
    → hs ≡ ks
unfolding level
level-injective pair [] [] free len e = refl
level-injective pair [] (b ∷ ks) free len e = absurd (omega arith)
level-injective pair (a ∷ hs) [] free len e = absurd (omega arith)
level-injective pair (a ∷ []) (b ∷ []) free len e = ground (arith, free a a b b)
level-injective pair (a ∷ []) (b ∷ b' ∷ ks) free len e = absurd (omega arith)
level-injective pair (a ∷ a' ∷ hs) (b ∷ []) free len e = absurd (omega arith)
level-injective pair (a ∷ a' ∷ hs) (b ∷ b' ∷ ks) free len e =
    ground (arith, free a a' b b', level-injective pair hs ks free (omega arith))

collapse-injective :
    (pair : ℕ → ℕ → ℕ) (n : ℕ) (hs ks : List ℕ) (r : ℕ)
    → IsCollisionFree pair
    → length hs ≡ length ks
    → collapse pair n hs ≡ some r
    → collapse pair n ks ≡ some r
    → hs ≡ ks
unfolding collapse
collapse-injective pair zero hs ks r free len e f = cc
collapse-injective pair (suc n) [] ks r free len e f = cc
collapse-injective pair (suc n) (a ∷ hs) [] r free len e f = cc
collapse-injective pair (suc n) (a ∷ []) (b ∷ []) r free len e f = ground arith
collapse-injective pair (suc n) (a ∷ []) (b ∷ b' ∷ ks) r free len e f = absurd (omega arith)
collapse-injective pair (suc n) (a ∷ a' ∷ hs) (b ∷ []) r free len e f = absurd (omega arith)
collapse-injective pair (suc n) (a ∷ a' ∷ hs) (b ∷ b' ∷ ks) r free len e f =
    level-injective pair (a ∷ a' ∷ hs) (b ∷ b' ∷ ks) free len (
      collapse-injective pair n (level pair (a ∷ a' ∷ hs)) (level pair (b ∷ b' ∷ ks)) r free
        (omega (arith, length-level pair (a ∷ a' ∷ hs), length-level pair (b ∷ b' ∷ ks))) e f)

-- With a hash of pairs that has no collisions, two batches of the same size with the same root have
-- the same leaves, in the same order.
pub merkle_root-injective :
    (pair : ℕ → ℕ → ℕ) (hs ks : List ℕ) (r : ℕ)
    → IsCollisionFree pair
    → length hs ≡ length ks
    → merkle_root pair hs ≡ some r
    → merkle_root pair ks ≡ some r
    → hs ≡ ks
unfolding merkle_root
merkle_root-injective pair hs ks r free len e f =
    collapse-injective pair (length hs) hs ks r free len e (rw len f)

-- Batches of different sizes can share a root: three leaves, and the same with the last one twice.
pub merkle_root_padded :
    (pair : ℕ → ℕ → ℕ) (a b c : ℕ)
    → merkle_root pair (a ∷ b ∷ c ∷ []) ≡ merkle_root pair (a ∷ b ∷ c ∷ c ∷ [])
unfolding merkle_root
merkle_root_padded pair a b c = refl
