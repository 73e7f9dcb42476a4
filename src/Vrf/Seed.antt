-- ===== src/Vrf/Seed.antt =====
-- x/vrf/keeper/keeper.go, UpdateSeed, and msg_server.go: what the next seed depends on, and who
-- can change it.
use mathlib.Core.List.{Permᴰ}
use funai_chain.Base.{ℕ, zero, suc, ◌≡◌, ◌+◌, ◌*◌, ◌/◌, ◌%◌, List, [], ◌∷◌, arith, refl, ap, ◌∙◌}
use funai_chain.Vrf.Types.{Bytes}
use funai_chain.Vrf.Keeper.{
  VrfStore, VrfContext, xor_bits, xor_bytes, mix_all, fit, update_seed, get_current_seed,
}

xor_bits_swap : (k a b d : ℕ) → xor_bits k (xor_bits k a b) d ≡ xor_bits k (xor_bits k a d) b
unfolding xor_bits
xor_bits_swap zero a b d = refl
xor_bits_swap (suc k) a b d =
    let rest = xor_bits_swap k (a / 2) (b / 2) (d / 2) in
    let first : (2 * xor_bits k (a / 2) (b / 2) + (a % 2 + b % 2) % 2) / 2
        ≡ xor_bits k (a / 2) (b / 2) =
      omega arith in
    let second : (2 * xor_bits k (a / 2) (d / 2) + (a % 2 + d % 2) % 2) / 2
        ≡ xor_bits k (a / 2) (d / 2) =
      omega arith in
    rw (first, second) (omega (arith, rest))

xor_bytes_swap : (s g h : Bytes) → xor_bytes (xor_bytes s g) h ≡ xor_bytes (xor_bytes s h) g
unfolding xor_bytes
xor_bytes_swap [] g h = refl
xor_bytes_swap (a ∷ s) [] [] = refl
xor_bytes_swap (a ∷ s) [] (y ∷ h) = refl
xor_bytes_swap (a ∷ s) (x ∷ g) [] = refl
xor_bytes_swap (a ∷ s) (x ∷ g) (y ∷ h) = rw (xor_bits_swap 8 a x y, xor_bytes_swap s g h) refl

mix_all-perm :
    (sha256 : Bytes → Bytes) {vs ws : List Bytes} (s : Bytes)
    → Permᴰ vs ws
    → mix_all sha256 vs s ≡ mix_all sha256 ws s
unfolding mix_all
mix_all-perm sha256 s Permᴰ.nil = refl
mix_all-perm sha256 s (Permᴰ.cons {a = a} e p) =
    rw e (mix_all-perm sha256 (xor_bytes s (sha256 _)) p)
mix_all-perm sha256 s (Permᴰ.swap {a = a} {b = b} {l = l} e f) =
    ap (mix_all sha256 l) (xor_bytes_swap s (sha256 a) (sha256 b)) ∙ rw (e, f) refl
mix_all-perm sha256 s (Permᴰ.trans p q) = mix_all-perm sha256 s p ∙ mix_all-perm sha256 s q

-- The next seed does not depend on the order of the contributions.
pub update_seed_unordered :
    {F G : Type 0} (c : VrfContext F G) {vs ws : List Bytes} (s : VrfStore)
    → Permᴰ vs ws
    → update_seed c vs s ≡ update_seed c ws s
unfolding update_seed
update_seed_unordered c s p =
    rw (mix_all-perm c.floats.sha256 (fit 32 (get_current_seed c s).value) p) refl
