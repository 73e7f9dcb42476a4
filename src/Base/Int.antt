-- ===== src/Base/Int.antt =====
-- math.Int of the Cosmos SDK: an amount with a sign. Its bound of 256 bits is left out.
use Prim.Native.Nat.{ℕ, suc, ◌+◌, ◌-◌}
use mathlib.Core.Bool.{Bool, true, false}
use mathlib.Core.Path.{◌≡◌, refl}
use mathlib.Core.Logic.{◌⊎◌, inl, inr}
use funai_chain.Base.Tests.{ltb, if◌then◌else◌}

pub data ℤ : Type 0 where
  pos negsuc : ℕ → ℤ

infixl 65 ◌+ℤ◌
abbrev pub ◌+ℤ◌ : ℤ → ℤ → ℤ
pos a +ℤ pos b = pos (a + b)
negsuc a +ℤ negsuc b = negsuc (suc (a + b))
pos a +ℤ negsuc b = if ltb b a then pos (a - suc b) else negsuc (b - a)
negsuc a +ℤ pos b = if ltb a b then pos (b - suc a) else negsuc (a - b)

-- Not `IsNegative`.
abbrev pub is_nonneg : ℤ → Bool
is_nonneg (pos a) = true
is_nonneg (negsuc a) = false

pub sign_cases : (z : ℤ) → ((a : ℕ) × (z ≡ pos a)) ⊎ ((a : ℕ) × (z ≡ negsuc a))
sign_cases (pos a) = inl (a, refl)
sign_cases (negsuc a) = inr (a, refl)
