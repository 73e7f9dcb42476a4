-- ===== src/ModelReg/Preimage.antt =====
-- x/modelreg/keeper/keeper.go, ComputeModelId: the bytes that are hashed say what the parts were.
use mathlib.Core.List.{append_assoc, append-nil}
use funai_chain.Base.{
  ℕ, zero, suc, ◌≡◌, ◌<◌, ◌*◌, ◌/◌, ◌%◌, ◌^◌, [], ◌∷◌, ◌++◌, length, arith, refl, sym, ◌∙◌,
}
use funai_chain.ModelReg.Index.{Bytes, len_bytes, write_len_prefixed, model_preimage}

-- What the lengths of a buffer can be.
abbrev capacity : ℕ → ℕ
capacity zero = 1
capacity (suc k) = 256 * capacity k

len_bytes-injective :
    (k n m : ℕ) (buffer other x y : Bytes)
    → n < capacity k
    → m < capacity k
    → len_bytes k n buffer ++ x ≡ len_bytes k m other ++ y
    → (n ≡ m) × (buffer ++ x ≡ other ++ y)
unfolding len_bytes
len_bytes-injective zero n m buffer other x y hn hm e = (omega (arith, hn, hm), e)
len_bytes-injective (suc k) n m buffer other x y hn hm e =
    let up =
      len_bytes-injective k (n / 256) (m / 256) (n % 256 ∷ buffer) (m % 256 ∷ other) x y
        (omega (arith, hn)) (omega (arith, hm)) e in
    let low : n % 256 ≡ m % 256 = cc in let high = up.0 in (omega (arith, low, high), cc)

-- Two strings of one length, at the front of the same bytes.
append-injective : (a b x y : Bytes) → length a ≡ length b → a ++ x ≡ b ++ y → (a ≡ b) × (x ≡ y)
append-injective [] [] x y h e = (refl, e)
append-injective [] (b ∷ bs) x y h e = absurd (omega (arith, h))
append-injective (a ∷ bs_) [] x y h e = absurd (omega (arith, h))
append-injective (a ∷ bs_) (b ∷ bs) x y h e =
    let head : a ≡ b = cc in
    let rest = append-injective bs_ bs x y (omega (arith, h)) cc in (rw (head, rest.0) refl, rest.1)

-- A length that the prefix can hold.
abbrev pub IsShort : Bytes → Type 0
IsShort s = length s < 2 ^ 64

prefixed-injective :
    (a b x y : Bytes)
    → IsShort a
    → IsShort b
    → write_len_prefixed a ++ x ≡ write_len_prefixed b ++ y
    → (a ≡ b) × (x ≡ y)
unfolding write_len_prefixed
prefixed-injective a b x y ha hb e =
    let spread =
      sym (append_assoc (len_bytes 8 (length a) []) a x)
      ∙ e
      ∙ append_assoc (len_bytes 8 (length b) []) b y in
    let lengths =
      len_bytes-injective 8 (length a) (length b) [] [] (a ++ x) (b ++ y) (omega (arith, ha))
        (omega (arith, hb)) spread in
    append-injective a b x y lengths.0 lengths.1

-- Parts that are shorter than 2^64 bytes are told apart by the bytes that are hashed for them: no
-- shift of a boundary between two parts gives the same bytes.
pub model_preimage-injective :
    (w q r w' q' r' : Bytes)
    → IsShort w
    → IsShort q
    → IsShort r
    → IsShort w'
    → IsShort q'
    → IsShort r'
    → model_preimage w q r ≡ model_preimage w' q' r'
    → (w ≡ w') × (q ≡ q') × (r ≡ r')
unfolding model_preimage
model_preimage-injective w q r w' q' r' hw hq hr hw' hq' hr' e =
    let first =
      prefixed-injective w w' (write_len_prefixed q ++ write_len_prefixed r)
        (write_len_prefixed q' ++ write_len_prefixed r') hw hw'
        (sym (append_assoc (write_len_prefixed w) (write_len_prefixed q) (write_len_prefixed r))
          ∙ e
          ∙ append_assoc (write_len_prefixed w') (write_len_prefixed q') (write_len_prefixed r')) in
    let second =
      prefixed-injective q q' (write_len_prefixed r) (write_len_prefixed r') hq hq' first.1 in
    let third =
      prefixed-injective r r' [] [] hr hr'
        (append-nil (write_len_prefixed r) ∙ second.1 ∙ sym (append-nil (write_len_prefixed r'))) in
    (first.0, second.0, third.0)
