-- ===== src/Vrf/Lists.antt =====
-- Lists of workers with keys: distinct keys, and permutations.
use mathlib.Core.List.{Permᴰ}
use mathlib.Core.Path.{subst}
use funai_chain.Base.{ℕ, suc, length, ◌≢◌, ◌≡◌, List, [], ◌∷◌, All, refl, ap, sym, ◌∙◌}

-- No key of the list is `k`, and no key stands twice.
abbrev pub Lacks : {A : Type 0} → (A → ℕ) → ℕ → List A → Type 0
Lacks key k xs = All (λ x. k ≢ key x) xs

abbrev pub HasDistinct : {A : Type 0} → (A → ℕ) → List A → Type 0
HasDistinct key [] = Unit
HasDistinct key (x ∷ xs) = Lacks key (key x) xs × HasDistinct key xs

module _ {A : Type 0} (key : A → ℕ) where
  pub Lacks-perm : (k : ℕ) {xs ys : List A} → Permᴰ xs ys → Lacks key k xs → Lacks key k ys
  Lacks-perm k Permᴰ.nil h = tt
  Lacks-perm k (Permᴰ.cons e p) h = (rw (ap key e) at h.0, Lacks-perm k p h.1)
  Lacks-perm k (Permᴰ.swap e f) h = (rw (ap key f) at h.1.0, (rw (ap key e) at h.0, h.1.1))
  Lacks-perm k (Permᴰ.trans p q) h = Lacks-perm k q (Lacks-perm k p h)

  pub HasDistinct-perm : {xs ys : List A} → Permᴰ xs ys → HasDistinct key xs → HasDistinct key ys
  HasDistinct-perm Permᴰ.nil h = tt
  HasDistinct-perm (Permᴰ.cons {l₂ = l} e p) h =
      (subst (λ k. Lacks key k l) (ap key e) (Lacks-perm _ p h.0), HasDistinct-perm p h.1)
  HasDistinct-perm (Permᴰ.swap {l = l} e f) h = (
    (
      (λ same. h.0.0 (ap key e ∙ sym same ∙ sym (ap key f))),
      subst (λ k. Lacks key k l) (ap key f) h.1.0,
    ),
    (subst (λ k. Lacks key k l) (ap key e) h.0.1, h.1.1),
  )
  HasDistinct-perm (Permᴰ.trans p q) h = HasDistinct-perm q (HasDistinct-perm p h)

module _ {A : Type 0} where
  pub All-map : (P Q : A → Type 0) (xs : List A) → ((x : A) → P x → Q x) → All P xs → All Q xs
  All-map P Q [] f h = tt
  All-map P Q (x ∷ xs) f h = (f x h.0, All-map P Q xs f h.1)

  pub perm_self : (xs : List A) → Permᴰ xs xs
  perm_self [] = Permᴰ.nil
  perm_self (x ∷ xs) = Permᴰ.cons refl (perm_self xs)

module _ {A : Type 0} where
  pub All-perm : (P : A → Type 0) {xs ys : List A} → Permᴰ xs ys → All P xs → All P ys
  All-perm P Permᴰ.nil h = tt
  All-perm P (Permᴰ.cons e p) h = (subst P e h.0, All-perm P p h.1)
  All-perm P (Permᴰ.swap e f) h = (subst P f h.1.0, (subst P e h.0, h.1.1))
  All-perm P (Permᴰ.trans p q) h = All-perm P q (All-perm P p h)

  pub perm_back : {xs ys : List A} → Permᴰ xs ys → Permᴰ ys xs
  perm_back Permᴰ.nil = Permᴰ.nil
  perm_back (Permᴰ.cons e p) = Permᴰ.cons (sym e) (perm_back p)
  perm_back (Permᴰ.swap e f) = Permᴰ.swap (sym f) (sym e)
  perm_back (Permᴰ.trans p q) = Permᴰ.trans (perm_back q) (perm_back p)

  pub length-perm : {xs ys : List A} → Permᴰ xs ys → length xs ≡ length ys
  length-perm Permᴰ.nil = refl
  length-perm (Permᴰ.cons e p) = ap suc (length-perm p)
  length-perm (Permᴰ.swap e f) = refl
  length-perm (Permᴰ.trans p q) = length-perm p ∙ length-perm q
