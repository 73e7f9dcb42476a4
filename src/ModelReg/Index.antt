-- ===== src/ModelReg/Index.antt =====
-- x/modelreg/types/keys.go and keeper/keeper.go: the index of the workers that have installed a
-- model. A key is, after its prefix, the bytes of the address, a zero byte, and those of the model.
use funai_chain.Base.{
  ℕ, zero, suc, ◌/◌, ◌%◌, ◌||◌, Bool, true, false, ◌==◌, if◌then◌else◌, Option, none, some, List,
  [], ◌∷◌, ◌++◌, length,
}

abbrev pub Bytes : Type 0
Bytes = List ℕ

abbrev pub same_bytes : Bytes → Bytes → Bool
same_bytes [] [] = true
same_bytes [] (b ∷ bs) = false
same_bytes (a ∷ bs) [] = false
same_bytes (a ∷ bs) (c ∷ cs) = let rest = same_bytes bs cs in if a == c then rest else false

abbrev pub installed_key : Bytes → Bytes → Bytes
installed_key addr model = addr ++ 0 ∷ model

abbrev pub has_key : Bytes → List Bytes → Bool
has_key k [] = false
has_key k (key ∷ keys) = same_bytes key k || has_key k keys

unfoldable pub set_key : Bytes → List Bytes → List Bytes
set_key k keys = if has_key k keys then keys else k ∷ keys

unfoldable pub remove_key : Bytes → List Bytes → List Bytes
remove_key k [] = []
remove_key k (key ∷ keys) =
    let rest = remove_key k keys in if same_bytes key k then rest else key ∷ rest

-- The part of a key behind a prefix.
unfoldable pub strip : Bytes → Bytes → Option Bytes
strip [] key = some key
strip (p ∷ prefix) [] = none
strip (p ∷ prefix) (b ∷ key) = let rest = strip prefix key in if p == b then rest else none

-- The models under a worker's prefix.
unfoldable pub models_under : Bytes → List Bytes → List Bytes
unfolding strip
models_under addr [] = []
models_under addr (key ∷ keys) =
    let rest = models_under addr keys in
    elim (strip (addr ++ 0 ∷ []) key) [ none ↦ rest | some model ↦ model ∷ rest ]

abbrev pub cons_first : ℕ → Option (Bytes × Bytes) → Option (Bytes × Bytes)
cons_first b none = none
cons_first b (some p) = some (b ∷ p.0, p.1)

-- What is before the first zero byte of a key, and what is behind it.
unfoldable pub split_key : Bytes → Option (Bytes × Bytes)
split_key [] = none
split_key (b ∷ key) =
    let rest = cons_first b (split_key key) in if b == 0 then some ([], key) else rest

-- The addresses of the keys of a model.
unfoldable pub addresses_under : Bytes → List Bytes → List Bytes
unfolding split_key
addresses_under model [] = []
addresses_under model (key ∷ keys) =
    let rest = addresses_under model keys in
    elim (split_key key) [
      | none ↦ rest
      | some p ↦ if same_bytes p.1 model then p.0 ∷ rest else rest
    ]

-- The loop of writeLenPrefixed, which fills the buffer from its end.
unfoldable pub len_bytes : ℕ → ℕ → Bytes → Bytes
len_bytes zero n buffer = buffer
len_bytes (suc k) n buffer = len_bytes k (n / 256) (n % 256 ∷ buffer)

unfoldable pub write_len_prefixed : Bytes → Bytes
unfolding len_bytes
write_len_prefixed s = len_bytes 8 (length s) [] ++ s

-- What ComputeModelId hashes.
unfoldable pub model_preimage : Bytes → Bytes → Bytes → Bytes
unfolding write_len_prefixed
model_preimage weight quant runtime =
    write_len_prefixed weight ++ write_len_prefixed quant ++ write_len_prefixed runtime
