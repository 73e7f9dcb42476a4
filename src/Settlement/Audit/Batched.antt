-- ===== src/Settlement/Audit/Batched.antt =====
-- `ProcessSecondVerificationResultBatch` (keeper.go): results of several second verifiers in one
-- message, each with its verifier's signature.
use funai_chain.Base.{
  ℕ, ◌+◌, ◌≡◌, Bool, true, false, if◌then◌else◌, Option, none, some, List, [], ◌∷◌, u32,
}
use funai_chain.Base.Result.{ok, err, panic}
use funai_chain.Settlement.Types.{MsgSecondVerificationResult, Error}
use funai_chain.Settlement.Store.{Context, Store}
use funai_chain.Settlement.Audit.Results.{process_second_verification_result}

pub record SecondVerificationBatchEntry : Type 0 where
  pub task_id : ℕ
  pub second_verifier : ℕ
  pub epoch : ℕ
  pub pass : Bool
  pub logits_hash : ℕ
  pub verified_input_tokens : ℕ
  pub verified_output_tokens : ℕ
  pub signature : ℕ

-- The byte strings that the source writes one after another, as one number, and four bytes of a uint32
-- and the byte of a flag as numbers.
pub record Bytewise : Type 0 where
  pub join : List ℕ → ℕ
  pub put_uint32 : ℕ → ℕ
  pub flag : Bool → ℕ

-- How many entries were taken and how many were not, as uint32.
pub record BatchCounts : Type 0 where
  pub accepted : ℕ
  pub rejected : ℕ

module _ {S : Type 0} (c : Context S) (b : Bytewise) where
  abbrev pub second_verification_entry_sig_bytes : SecondVerificationBatchEntry → ℕ → ℕ
  second_verification_entry_sig_bytes e key = c.sha256 (
      b.join (
        e.task_id
        ∷ b.flag e.pass
        ∷ key
        ∷ e.logits_hash
        ∷ b.put_uint32 e.verified_input_tokens
        ∷ b.put_uint32 e.verified_output_tokens
        ∷ []))

  -- The entry's verifier has a valid key, and has signed the entry with it.
  unfoldable pub is_signed : SecondVerificationBatchEntry → Store S → Bool
  is_signed e s = elim (c.decode e.second_verifier) [
    | none ↦ false
    | some a ↦ elim (c.worker_pubkey s.outer a) [
      | none ↦ false
      | some str ↦ elim (c.decode_pubkey str) [
        | none ↦ false
        | some key ↦
            c.verify_signature key (c.sha256 (second_verification_entry_sig_bytes e key))
              e.signature
      ]
    ]
  ]

  abbrev pub single_result : SecondVerificationBatchEntry → MsgSecondVerificationResult
  single_result e = record {
    second_verifier = e.second_verifier;
    task_id = e.task_id;
    epoch = e.epoch;
    pass = e.pass;
    logits_hash = e.logits_hash;
    verified_input_tokens = e.verified_input_tokens;
    verified_output_tokens = e.verified_output_tokens;
  }

  -- One entry; `none` is a panic. An error is returned before anything is written.
  unfoldable pub process_batch_entry :
      SecondVerificationBatchEntry → Store S → Option (Store S × Bool)
  unfolding is_signed
  process_batch_entry e s =
      let single : Option (Store S × Bool) =
        elim (process_second_verification_result c (single_result e) s) [
          | ok t ↦ some (t, true)
          | err x ↦ some (s, false)
          | panic ↦ none
        ] in
      if is_signed e s then single else some (s, false)

  abbrev pub count_entry : Bool → BatchCounts → BatchCounts
  count_entry true n = record n { accepted = u32 (n.accepted + 1) }
  count_entry false n = record n { rejected = u32 (n.rejected + 1) }

  unfoldable pub process_second_verification_result_batch :
      List SecondVerificationBatchEntry → BatchCounts → Store S → Option (BatchCounts × Store S)
  unfolding process_batch_entry
  process_second_verification_result_batch [] n s = some (n, s)
  process_second_verification_result_batch (e ∷ es) n s = elim (process_batch_entry e s) [
    | none ↦ none
    | some r ↦ process_second_verification_result_batch es (count_entry r.1 n) r.0
  ]

  -- The entry's verifier is registered with a key, and the key verifies the entry's signature over
  -- the hash of the task, the vote, the key, the logits and the token counts.
  pub record IsSigned (e : SecondVerificationBatchEntry) (s : Store S) : Type 0 where
    pub account : ℕ
    pub spelled : ℕ
    pub key : ℕ
    pub decoded : c.decode e.second_verifier ≡ some account
    pub registered : c.worker_pubkey s.outer account ≡ some spelled
    pub sound : c.decode_pubkey spelled ≡ some key
    pub verified :
        c.verify_signature key
          (c.sha256 (
            c.sha256 (
              b.join (
                e.task_id
                ∷ b.flag e.pass
                ∷ key
                ∷ e.logits_hash
                ∷ b.put_uint32 e.verified_input_tokens
                ∷ b.put_uint32 e.verified_output_tokens
                ∷ []))))
          e.signature
        ≡ true

  -- The single results that a list of entries amounts to, and how many there are: an entry that is
  -- signed and whose result goes through is taken; one that is not signed, or whose result is refused
  -- with an error, changes nothing.
  pub data IsReplay : List SecondVerificationBatchEntry → ℕ → Store S → Store S → Type 0 where
    nothing : (s : Store S) → IsReplay [] 0 s s
    taken :
        {e : SecondVerificationBatchEntry} {es : List SecondVerificationBatchEntry} {n : ℕ}
        {s u t : Store S}
        → IsSigned e s
        → process_second_verification_result c (single_result e) s ≡ ok u
        → IsReplay es n u t
        → IsReplay (e ∷ es) (n + 1) s t
    unsigned :
        {e : SecondVerificationBatchEntry} {es : List SecondVerificationBatchEntry} {n : ℕ}
        {s t : Store S}
        → ¬ IsSigned e s
        → IsReplay es n s t
        → IsReplay (e ∷ es) n s t
    refused :
        {e : SecondVerificationBatchEntry} {es : List SecondVerificationBatchEntry} {n : ℕ}
        {x : Error} {s t : Store S}
        → process_second_verification_result c (single_result e) s ≡ err x
        → IsReplay es n s t
        → IsReplay (e ∷ es) n s t
