-- ===== src/Settlement/Merkle.antt =====
-- x/settlement/keeper/da_client.go: the Merkle root of a batch, level by level, and its check. The
-- hash of an entry (SHA-256 of its JSON) and of a pair are parameters.
pub mod Binding
use funai_chain.Base.{
  ℕ, zero, suc, Bool, false, ◌==◌, if◌then◌else◌, Option, none, some, List, [], ◌∷◌, length, map,
}

-- One level: neighbours are hashed together, the last of an odd number with itself.
unfoldable pub level : (ℕ → ℕ → ℕ) → List ℕ → List ℕ
level pair [] = []
level pair (a ∷ []) = pair a a ∷ []
level pair (a ∷ b ∷ hs) = pair a b ∷ level pair hs

-- The loop `for len(hashes) > 1`, on fuel: none means that the fuel ran out.
unfoldable pub collapse : (ℕ → ℕ → ℕ) → ℕ → List ℕ → Option ℕ
collapse pair zero hs = none
collapse pair (suc n) [] = none
collapse pair (suc n) (a ∷ []) = some a
collapse pair (suc n) (a ∷ b ∷ hs) = collapse pair n (level pair (a ∷ b ∷ hs))

-- As many rounds as there are leaves are enough. Without entries there is no root.
unfoldable pub merkle_root : (ℕ → ℕ → ℕ) → List ℕ → Option ℕ
unfolding level collapse
merkle_root pair hs = collapse pair (length hs) hs

module _ {E : Type 0} (hash : E → ℕ) (pair : ℕ → ℕ → ℕ) where
  -- `VerifyMerkleRoot` and `VerifyReserveMerkleRoot`.
  unfoldable pub verify_merkle_root : ℕ → List E → Bool
  unfolding merkle_root
  verify_merkle_root root entries = elim (merkle_root pair (map hash entries)) [
    | none ↦ false
    | some r ↦ root == r
  ]
