-- ===== src/Reward/Rounding.antt =====
-- x/reward/keeper/keeper.go: shares that are rounded parts of a reward stay within it. The rounding of the
-- decimals is a law.
use funai_chain.Base.{ℕ, suc, ◌+◌, ◌*◌, ◌^◌, ◌≤◌, ◌<◌, ◌≡◌, ◌∙◌, List, [], ◌∷◌, length, arith}
use native.Mathlib.Nat.{
  le_of_mul-le-mul_left, suc-mul, add-mul, mul-add, mul_comm, mul_assoc, mul_left_comm,
}
use funai_chain.Reward.Types.{Decimals}
use funai_chain.Reward.Payment.{sum_by}

-- Twice the unit of the decimals' 18 places.
abbrev pub unit : ℕ
unit = 2 * 10 ^ 18

-- A quotient is rounded to the nearest decimal, and the rest is exact.
pub record IsRounded {D : Type 0} (dec : Decimals D) : Type 0 where
  pub int_ratio :
      (a b n : ℕ)
      → 0 < b
      → dec.truncate (dec.times_int (dec.quo (dec.of_int a) (dec.of_int b)) n) * (b * unit)
        ≤ n * (a * unit + b)
  pub count_ratio :
      (a b n : ℕ)
      → 0 < b
      → a < 2 ^ 63
      → b < 2 ^ 63
      → dec.truncate (dec.times_int (dec.quo (dec.of_uint64 a) (dec.of_uint64 b)) n) * (b * unit)
        ≤ n * (a * unit + b)

module _ {A : Type 0} (weight alloc : A → ℕ) (total reward : ℕ) where
  -- The shares are rounded up by less than one part in `unit` each.
  shares-le :
      (cap : ℕ) (xs : List A)
      → ((x : A) → weight x ≤ cap → alloc x * (total * unit) ≤ reward * (weight x * unit + total))
      → sum_by weight xs ≤ cap
      → sum_by alloc xs * (total * unit) ≤ reward * (sum_by weight xs * unit + length xs * total)
  shares-le cap [] law h = omega arith
  shares-le cap (x ∷ xs) law h =
      let scale = total * unit in
      let one = weight x * unit + total in
      let others = sum_by weight xs * unit + length xs * total in
      let split : (weight x + sum_by weight xs) * unit + suc (length xs) * total ≡ one + others =
        omega (arith, suc-mul (length xs) total) in
      rw (split, add-mul (alloc x) (sum_by alloc xs) scale, mul-add reward one others)
        (omega (arith, law x (omega arith), shares-le cap xs law (omega arith)))

  pub shares_fit :
      (xs : List A)
      → 0 < total
      → sum_by weight xs ≡ total
      → ((x : A) → weight x ≤ total → alloc x * (total * unit) ≤ reward * (weight x * unit + total))
      → length xs * reward < unit
      → sum_by alloc xs ≤ reward
  shares_fit xs pos all law few =
      let shares = sum_by alloc xs in
      let left : total * (shares * unit) ≡ shares * (total * unit) =
        mul_left_comm total shares unit in
      let cross : total * (length xs * reward) ≡ reward * (length xs * total) =
        mul_comm total (length xs * reward)
        ∙ mul_assoc (length xs) reward total
        ∙ mul_left_comm (length xs) reward total in
      let right : total * (reward * unit + length xs * reward)
          ≡ reward * (total * unit + length xs * total) =
        rw
          (
            mul-add total (reward * unit) (length xs * reward),
            mul-add reward (total * unit) (length xs * total),
          )
          (omega (arith, mul_left_comm total reward unit, cross)) in
      let scaled : total * (shares * unit) ≤ total * (reward * unit + length xs * reward) =
        rw (left, right) (rw all at (shares-le total xs law (omega (arith, all)))) in
      let bound : shares * unit ≤ reward * unit + length xs * reward =
        le_of_mul-le-mul_left scaled pos in
      omega arith
