-- ===== src/Base/Assoc.antt =====
-- The key-value store under one prefix, as an association list. A key that is set again keeps its
-- place, and a missing key is `none`.
use Prim.Native.Nat.{ℕ, ◌+◌, ◌≤◌}
use mathlib.Core.Path.{◌≡◌, refl}
use mathlib.Core.Logic.{inl, inr}
use mathlib.Core.Bool.{true, false}
use mathlib.Core.Option.{Option, none, some}
use mathlib.Core.List.{List, [], ◌∷◌}
use native.Mathlib.Omega.{arith}
use funai_chain.Base.Tests.{◌==◌, if◌then◌else◌, Bool-cases}

abbrev pub Dict : Type 0 → Type 0
Dict V = List (ℕ × V)

module _ {V : Type 0} where
  -- Every entry under the key goes.
  abbrev pub erase : ℕ → Dict V → Dict V
  erase k [] = []
  erase k (e ∷ d) = let rest = erase k d in if k == e.0 then rest else e ∷ rest

  abbrev pub insert : ℕ → V → Dict V → Dict V
  insert key new [] = (key, new) ∷ []
  insert key new (first ∷ rest) =
      let unchanged = first ∷ insert key new rest in
      if key == first.0 then (key, new) ∷ rest else unchanged

  abbrev pub lookup : ℕ → Dict V → Option V
  lookup key [] = none
  lookup key (first ∷ rest) = if key == first.0 then some first.1 else lookup key rest

  pub lookup-insert :
      (j k : ℕ) (v : V) (d : Dict V)
      → lookup j (insert k v d) ≡ (if j == k then some v else lookup j d)
  lookup-insert j k v [] = refl
  lookup-insert j k v (e ∷ d) = ground (arith, lookup-insert j k v d)

  pub lookup-erase :
      (j k : ℕ) (d : Dict V) → lookup j (erase k d) ≡ (if j == k then none else lookup j d)
  lookup-erase j k [] = ground arith
  lookup-erase j k (e ∷ d) = ground (arith, lookup-erase j k d)

  pub lookup-insert_self :
      (key : ℕ) (new : V) (d : Dict V) → lookup key (insert key new d) ≡ some new
  lookup-insert_self key new d = ground (arith, lookup-insert key key new d)

  -- The sum of a measure over the values that a lookup can see.
  abbrev pub total : (V → ℕ) → Dict V → ℕ
  total f [] = 0
  total f (e ∷ d) = f e.1 + total f d

  -- How much of the total a key accounts for.
  abbrev pub share : (V → ℕ) → Option V → ℕ
  share f none = 0
  share f (some v) = f v

  pub total-insert :
      (f : V → ℕ) (k : ℕ) (v : V) (d : Dict V)
      → total f (insert k v d) + share f (lookup k d) ≡ total f d + f v
  total-insert f k v [] = omega arith
  total-insert f k v (e ∷ d) = ground (arith, total-insert f k v d)

  pub total-erase :
      (f : V → ℕ) (k : ℕ) (d : Dict V) → total f (erase k d) + share f (lookup k d) ≤ total f d
  total-erase f k [] = omega arith
  total-erase f k (e ∷ d) = ground (arith, total-erase f k d)

  -- No key stands twice.
  abbrev pub IsDict : Dict V → Type 0
  IsDict [] = Unit
  IsDict (e ∷ d) = (lookup e.0 d ≡ none) × IsDict d

  pub insert-IsDict : (k : ℕ) (v : V) (d : Dict V) → IsDict d → IsDict (insert k v d)
  insert-IsDict k v [] h = (refl, tt)
  insert-IsDict k v (e ∷ d) h =
      ground (arith, insert-IsDict k v d h.1, lookup-insert e.0 k v d, lookup-insert k k v d)

  pub erase-IsDict : (k : ℕ) (d : Dict V) → IsDict d → IsDict (erase k d)
  erase-IsDict k [] h = tt
  erase-IsDict k (e ∷ d) h = ground (arith, erase-IsDict k d h.1, lookup-erase e.0 k d)

  -- A property of every entry.
  abbrev pub Each : (ℕ → V → Type 0) → Dict V → Type 0
  Each P [] = Unit
  Each P (e ∷ d) = P e.0 e.1 × Each P d

  pub Each-insert :
      (P : ℕ → V → Type 0) (k : ℕ) (v : V) (d : Dict V) → P k v → Each P d → Each P (insert k v d)
  Each-insert P k v [] p h = (p, tt)
  Each-insert P k v (e ∷ d) p h = elim (Bool-cases (k == e.0)) [
    | inl here ↦ rw here (p, h.1)
    | inr there ↦ rw there (h.0, Each-insert P k v d p h.1)
  ]

  pub Each-erase : (P : ℕ → V → Type 0) (k : ℕ) (d : Dict V) → Each P d → Each P (erase k d)
  Each-erase P k [] h = tt
  Each-erase P k (e ∷ d) h = elim (Bool-cases (k == e.0)) [
    | inl here ↦ rw here (Each-erase P k d h.1)
    | inr there ↦ rw there (h.0, Each-erase P k d h.1)
  ]

  pub Each-lookup :
      (P : ℕ → V → Type 0) (k : ℕ) (v : V) (d : Dict V) → Each P d → lookup k d ≡ some v → P k v
  Each-lookup P k v [] h e = cc
  Each-lookup P k v (x ∷ d) h e = elim (Bool-cases (k == x.0)) [
    | inl here ↦
        let key : k ≡ x.0 = ground arith in let val : v ≡ x.1 = ground arith in rw (key, val) h.0
    | inr there ↦ Each-lookup P k v d h.1 (ground arith)
  ]

  -- From one property of the entries to another, away from a key that is not there.
  pub Each-away :
      (P Q : ℕ → V → Type 0) (k : ℕ) (d : Dict V)
      → ((j : ℕ) (v : V) → (j == k) ≡ false → P j v → Q j v)
      → lookup k d ≡ none
      → Each P d
      → Each Q d
  Each-away P Q k [] keep fresh h = tt
  Each-away P Q k (e ∷ d) keep fresh h = elim (Bool-cases (k == e.0)) [
    | inl here ↦ ground arith
    | inr there ↦ (keep e.0 e.1 (ground arith) h.0, Each-away P Q k d keep (ground arith) h.1)
  ]

  pub Each-both :
      (P Q : ℕ → V → Type 0) (d : Dict V) → Each P d → Each Q d → Each (λ k v. P k v × Q k v) d
  Each-both P Q [] p q = tt
  Each-both P Q (e ∷ d) p q = ((p.0, q.0), Each-both P Q d p.1 q.1)

  pub Each-current : (d : Dict V) → IsDict d → Each (λ k v. lookup k d ≡ some v) d
  Each-current [] h = tt
  Each-current (e ∷ d) h = (
    (let first : (e.0 == e.0) ≡ true = ground arith in rw first refl),
    Each-away (λ k v. lookup k d ≡ some v) (λ k v. lookup k (e ∷ d) ≡ some v) e.0 d
        (λ j v away there. ground arith) h.0 (Each-current d h.1),
  )
