-- ===== src/Settlement/Payout/Dedup.antt =====
-- `dedupVerifierResults`: no address twice, none empty, none lost.
use funai_chain.Base.{ℕ, ◌≡◌, false, ◌==◌, not, ◌&&◌, List, [], ◌∷◌, arith, refl}
use funai_chain.Settlement.Types.{VerifierResult}
use funai_chain.Settlement.Payout.{mem, dedup_from, dedup_verifier_results}

abbrev pub addresses : List VerifierResult → List ℕ
addresses [] = []
addresses (v ∷ vs) = v.address ∷ addresses vs

abbrev pub IsDistinct : List ℕ → Type 0
IsDistinct [] = Unit
IsDistinct (x ∷ xs) = (mem x xs ≡ false) × IsDistinct xs

-- An address is kept when it stood in the list, is not empty and was not seen.
mem-dedup_from :
    (a : ℕ) (seen : List ℕ) (vs : List VerifierResult)
    → mem a (addresses (dedup_from seen vs))
      ≡ (mem a (addresses vs) && not (a == 0) && not (mem a seen))
unfolding dedup_from
mem-dedup_from a seen [] = refl
mem-dedup_from a seen (v ∷ vs) =
    ground (arith, mem-dedup_from a seen vs, mem-dedup_from a (v.address ∷ seen) vs)

dedup_from-IsDistinct :
    (seen : List ℕ) (vs : List VerifierResult) → IsDistinct (addresses (dedup_from seen vs))
unfolding dedup_from
dedup_from-IsDistinct seen [] = tt
dedup_from-IsDistinct seen (v ∷ vs) = ground (
  arith,
  dedup_from-IsDistinct seen vs,
  dedup_from-IsDistinct (v.address ∷ seen) vs,
  mem-dedup_from v.address (v.address ∷ seen) vs,
)

-- After the removal of duplicates no spelling of an address stands twice, and what stands there is
-- exactly what was in the list and is not empty.
pub dedup_verifier_results-IsDistinct :
    (vs : List VerifierResult)
    → IsDistinct (addresses (dedup_verifier_results vs))
      × ((a : ℕ)
          → mem a (addresses (dedup_verifier_results vs)) ≡ (mem a (addresses vs) && not (a == 0)))
unfolding dedup_verifier_results
dedup_verifier_results-IsDistinct vs =
    (dedup_from-IsDistinct [] vs, λ a. ground (arith, mem-dedup_from a [] vs))
