-- ===== src/ModelReg/Keys.antt =====
-- x/modelreg/keeper/keeper.go, GetInstalledWorkersByModel: what parsing the keys of the index finds.
use mathlib.Core.List.{append_assoc}
use funai_chain.Base.{
  ◌≡◌, ◌≢◌, ◌||◌, Bool, true, false, ◌==◌, if◌then◌else◌, none, some, List, [], ◌∷◌, ◌++◌, All,
  arith, refl, ap, ◌∙◌, Bool-cases, Option-cases, inl, inr,
}
use funai_chain.ModelReg.Index.{
  Bytes, same_bytes, installed_key, has_key, split_key, addresses_under,
}

abbrev pub HasNoZero : Bytes → Type 0
HasNoZero bs = All (λ b. b ≢ 0) bs

abbrev pub has_bytes : Bytes → List Bytes → Bool
has_bytes a [] = false
has_bytes a (b ∷ bs) = same_bytes b a || has_bytes a bs

same_bytes-eq : (xs ys : Bytes) → same_bytes xs ys ≡ true → xs ≡ ys
same_bytes-eq [] [] h = refl
same_bytes-eq [] (y ∷ ys) h = cc
same_bytes-eq (x ∷ xs) [] h = cc
same_bytes-eq (x ∷ xs) (y ∷ ys) h = elim (Bool-cases (x == y)) [
  | inl same ↦
      let head : x ≡ y = ground (arith, same) in
      let tail : xs ≡ ys = same_bytes-eq xs ys (ground (arith, h, same)) in rw (head, tail) refl
  | inr other ↦ ground (arith, h, other)
]

same_bytes_self : (xs : Bytes) → same_bytes xs xs ≡ true
same_bytes_self [] = refl
same_bytes_self (x ∷ xs) = ground (arith, same_bytes_self xs)

split_key-installed_key :
    (a model : Bytes) → HasNoZero a → split_key (installed_key a model) ≡ some (a, model)
unfolding split_key
split_key-installed_key [] model h = refl
split_key-installed_key (b ∷ a) model h =
    let rest = split_key-installed_key a model h.1 in
    let other : (b == 0) ≡ false = ground (arith, h.0) in rw (other, rest) refl

split_key-eq :
    (key : Bytes) (p : Bytes × Bytes) → split_key key ≡ some p → key ≡ installed_key p.0 p.1
unfolding split_key
split_key-eq [] p h = cc
split_key-eq (b ∷ key) p h = elim (Bool-cases (b == 0)) [
  | inl sep ↦
      let found : p ≡ ([], key) = ground (arith, h, sep) in
      let zero_byte : b ≡ 0 = ground (arith, sep) in rw (found, zero_byte) refl
  | inr other ↦ elim (Option-cases (split_key key)) [
    | inl missing ↦ ground (arith, h, other, missing)
    | inr (q, there) ↦
        let found : p ≡ (b ∷ q.0, q.1) = ground (arith, h, other, there) in
        rw found (ap (◌∷◌ b) (split_key-eq key q there))
  ]
]

module _ (a model : Bytes) (no_zero : HasNoZero a) where
  -- A key is counted for a model, under an address, if it is the key of the two.
  one_key :
      (key : Bytes) (p : Bytes × Bytes)
      → split_key key ≡ some p
      → (if same_bytes p.1 model then same_bytes p.0 a else false)
        ≡ same_bytes key (installed_key a model)
  one_key key p split = elim (Bool-cases (same_bytes key (installed_key a model))) [
    | inl same ↦
        let read : split_key key ≡ some (a, model) =
          rw (same_bytes-eq key (installed_key a model) same)
            (split_key-installed_key a model no_zero) in
        let found : p ≡ (a, model) = ground (arith, split, read) in
        rw (found, same_bytes_self model, same_bytes_self a, same) refl
    | inr other ↦ elim (Bool-cases (same_bytes p.1 model)) [
      | inr apart ↦ rw (apart, other) refl
      | inl alike ↦ elim (Bool-cases (same_bytes p.0 a)) [
        | inr apart ↦ rw (alike, apart, other) refl
        | inl also ↦
            let address : p.0 ≡ a = same_bytes-eq p.0 a also in
            let id : p.1 ≡ model = same_bytes-eq p.1 model alike in
            let whole : key ≡ installed_key a model =
              split_key-eq key p split ∙ rw (address, id) refl in
            let clash : same_bytes key (installed_key a model) ≡ true =
              rw whole (same_bytes_self (installed_key a model)) in
            ground (arith, clash, other)
      ]
    ]
  ]

  no_split : (key : Bytes) → split_key key ≡ none → same_bytes key (installed_key a model) ≡ false
  no_split key missing = elim (Bool-cases (same_bytes key (installed_key a model))) [
    | inr other ↦ other
    | inl same ↦
        let read : split_key key ≡ some (a, model) =
          rw (same_bytes-eq key (installed_key a model) same)
            (split_key-installed_key a model no_zero) in
        ground (arith, read, missing)
  ]

  -- For an address without a zero byte, the search for the workers of a model finds the address
  -- if and only if the index has the key of the two.
  pub has_bytes-addresses_under :
      (keys : List Bytes)
      → has_bytes a (addresses_under model keys) ≡ has_key (installed_key a model) keys
  unfolding addresses_under
  has_bytes-addresses_under [] = refl
  has_bytes-addresses_under (key ∷ keys) =
      let rest = has_bytes-addresses_under keys in
      elim (Option-cases (split_key key)) [
        | inl missing ↦
            let none_there : same_bytes key (installed_key a model) ≡ false =
              no_split key missing in
            rw (addresses_under, missing, none_there) rest
        | inr (p, split) ↦
            let here = one_key key p split in
            elim (Bool-cases (same_bytes p.1 model)) [
              | inl alike ↦
                  let same : same_bytes p.0 a ≡ same_bytes key (installed_key a model) =
                    ground (arith, here, alike) in
                  rw (addresses_under, split, alike, same, rest) refl
              | inr apart ↦
                  let other : same_bytes key (installed_key a model) ≡ false =
                    ground (arith, here, apart) in
                  rw (addresses_under, split, apart, other) rest
            ]
      ]

no_zero_behind : (q rest model : Bytes) → HasNoZero model → same_bytes (q ++ 0 ∷ rest) model ≡ false
no_zero_behind [] rest [] h = refl
no_zero_behind [] rest (m ∷ model) h = ground (arith, h.0)
no_zero_behind (b ∷ q) rest [] h = refl
no_zero_behind (b ∷ q) rest (m ∷ model) h = ground (arith, no_zero_behind q rest model h.1)

-- An address with a zero byte in it is never found: its key adds nobody to the workers of any model
-- whose identifier has no zero byte, not even to those of its own.
pub addresses_under_zero_byte :
    (before behind own model : Bytes) (keys : List Bytes)
    → HasNoZero before
    → HasNoZero model
    → addresses_under model (installed_key (before ++ 0 ∷ behind) own ∷ keys)
      ≡ addresses_under model keys
unfolding addresses_under
addresses_under_zero_byte before behind own model keys h k =
    let read : split_key ((before ++ 0 ∷ behind) ++ 0 ∷ own) ≡ some (before, behind ++ 0 ∷ own) =
      rw (append_assoc before (0 ∷ behind) (0 ∷ own))
        (split_key-installed_key before (behind ++ 0 ∷ own) h) in
    let other = no_zero_behind behind own model k in rw (addresses_under, read, other) refl
