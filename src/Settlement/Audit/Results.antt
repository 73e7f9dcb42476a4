-- ===== src/Settlement/Audit/Results.antt =====
-- `ProcessSecondVerificationResult` (keeper.go): one second verifier's result is recorded, and the
-- last one that is needed leads to the judgment.
use funai_chain.Base.{
  ℕ, List, ◌<◌, ◌≤◌, ◌+◌, ◌/◌, Bool, true, false, ◌&&◌, ltb, leb, if◌then◌else◌, Option, none, some,
  [], ◌∷◌, ◌++◌, length, u32, u64, lookup, ◌≡◌, ◌⊎◌, inl, inr, arith, Option-cases, Bool-cases,
}
use funai_chain.Base.Result.{Result, ok, err}
use funai_chain.Settlement.Types.{
  PendingTask, SecondVerificationRecord, MsgSecondVerificationResult, Error, no_pending, expired,
  original_verifier, duplicate,
}
use funai_chain.Settlement.Store.{
  Context, Store, get_second_verification_pending, set_second_verification_record, get_epoch_stats,
  set_epoch_stats, get_params, increment_second_verifier_epoch_count,
}
use funai_chain.Settlement.Payout.{mem}
use funai_chain.Settlement.Audit.Third.{process_audit_judgment}

module _ {S : Type 0} (c : Context S) where
  abbrev pub first_record : MsgSecondVerificationResult → SecondVerificationRecord
  first_record msg = record {
    task_id = msg.task_id;
    epoch = msg.epoch;
    second_verifier_addresses = msg.second_verifier ∷ [];
    results = msg.pass ∷ [];
    processed_at = c.height;
    second_verifier_input_tokens = msg.verified_input_tokens ∷ [];
    second_verifier_output_tokens = msg.verified_output_tokens ∷ [];
  }

  abbrev pub extended_record :
      MsgSecondVerificationResult → SecondVerificationRecord → SecondVerificationRecord
  extended_record msg ar = record ar {
    second_verifier_addresses = ar.second_verifier_addresses ++ (msg.second_verifier ∷ []);
    results = ar.results ++ (msg.pass ∷ []);
    processed_at = c.height;
    second_verifier_input_tokens =
        ar.second_verifier_input_tokens ++ (msg.verified_input_tokens ∷ []);
    second_verifier_output_tokens =
        ar.second_verifier_output_tokens ++ (msg.verified_output_tokens ∷ []);
  }

  -- The record is written, the verifier counted, and the task judged if the results suffice.
  unfoldable pub note_result :
      MsgSecondVerificationResult → SecondVerificationRecord → Store S → Result Error (Store S)
  note_result msg ar s =
      let counted =
        increment_second_verifier_epoch_count c msg.second_verifier
          (set_second_verification_record ar s) in
      let stats = get_epoch_stats (c.height / 100) counted in
      let noted =
        set_epoch_stats
          (record stats {
            second_verification_person_count = u64 (stats.second_verification_person_count + 1);
          })
          counted in
      let judged = process_audit_judgment c ar (get_params s) noted in
      if leb (get_params s).second_verifier_count (u32 (length ar.results))
      then judged
      else ok noted

  -- Whether the record has as many results as are needed.
  abbrev pub is_complete : SecondVerificationRecord → Store S → Bool
  is_complete ar s =
      leb (get_params s).second_verifier_count (u32 (length ar.second_verifier_addresses))

  unfoldable pub take_result :
      MsgSecondVerificationResult
      → PendingTask
      → Option SecondVerificationRecord
      → Store S
      → Result Error (Store S)
  unfolding note_result
  take_result msg apt known s =
      let added : Result Error (Store S) = elim known [
        | none ↦ note_result msg (first_record msg) s
        | some ar ↦
            if mem msg.second_verifier ar.second_verifier_addresses
            then err duplicate
            else note_result msg (extended_record msg ar) s
      ] in
      if ltb 0 apt.expire_block && ltb apt.expire_block c.height
      then err expired
      else if mem msg.second_verifier apt.verifier_addresses
      then err original_verifier
      else added

  unfoldable pub process_second_verification_result :
      MsgSecondVerificationResult → Store S → Result Error (Store S)
  unfolding take_result
  process_second_verification_result msg s =
      let known = lookup msg.task_id s.records in
      let complete : Bool = elim known [ none ↦ false | some ar ↦ is_complete ar s ] in
      let taken : Result Error (Store S) = elim (get_second_verification_pending msg.task_id s) [
        | none ↦ err no_pending
        | some apt ↦ take_result msg apt known s
      ] in
      if complete then ok s else taken

  -- The branches of a result that is taken.
  pub process_second_verification_result_parts :
      (msg : MsgSecondVerificationResult) (s t : Store S)
      → process_second_verification_result msg s ≡ ok t
      → ((t ≡ s)
          × ((ar : SecondVerificationRecord) × (lookup msg.task_id s.records ≡ some ar)
              × (is_complete ar s ≡ true)))
        ⊎ ((apt : PendingTask) × (lookup msg.task_id s.second_pending ≡ some apt)
            × ((ltb 0 apt.expire_block && ltb apt.expire_block c.height) ≡ false)
            × (mem msg.second_verifier apt.verifier_addresses ≡ false)
            × (((lookup msg.task_id s.records ≡ none)
                  × (note_result msg (first_record msg) s ≡ ok t))
                ⊎ ((ar : SecondVerificationRecord) × (lookup msg.task_id s.records ≡ some ar)
                    × (mem msg.second_verifier ar.second_verifier_addresses ≡ false)
                    × (note_result msg (extended_record msg ar) s ≡ ok t))))
  unfolding process_second_verification_result take_result
  process_second_verification_result_parts msg s t e =
      elim (Option-cases (lookup msg.task_id s.second_pending)) [
        | inl nothing ↦ elim (Option-cases (lookup msg.task_id s.records)) [
          | inl new ↦ ground arith
          | inr (ar, known) ↦ inl (ground arith, (ar, known, ground arith))
        ]
        | inr (apt, waits) ↦ elim (Option-cases (lookup msg.task_id s.records)) [
          | inl new ↦ inr (apt, waits, ground arith, ground arith, inl (new, ground arith))
          | inr (ar, known) ↦ elim (Bool-cases (is_complete ar s)) [
            | inl full ↦ inl (ground arith, (ar, known, full))
            | inr open' ↦ inr (
              apt,
              waits,
              ground arith,
              ground arith,
              inr (ar, known, ground arith, ground arith),
            )
          ]
        ]
      ]

  -- What stands in a store after a result was added: the record, with the tasks, the accounts and
  -- what is settled as before. Either the results are too few and this is the end, or the task is
  -- judged on this record.
  abbrev pub IsNoted : SecondVerificationRecord → Store S → Store S → Type 0
  IsNoted ar s t =
      (u : Store S) × (lookup ar.task_id u.records ≡ some ar)
      × (u.second_pending ≡ s.second_pending)
      × (u.accounts ≡ s.accounts)
      × (u.settled ≡ s.settled)
      × (u.outer ≡ s.outer)
      × (((u32 (length ar.results) < (get_params s).second_verifier_count) × (t ≡ u))
          ⊎ (((get_params s).second_verifier_count ≤ u32 (length ar.results))
              × (process_audit_judgment c ar (get_params s) u ≡ ok t)))

  -- The record in which a result is the last one, after those of the record before.
  abbrev pub IsLast :
      MsgSecondVerificationResult → List ℕ → List Bool → List ℕ → SecondVerificationRecord → Type 0
  IsLast msg addresses results tokens ar =
      (ar.second_verifier_addresses ≡ addresses ++ (msg.second_verifier ∷ []))
      × (ar.results ≡ results ++ (msg.pass ∷ []))
      × (ar.second_verifier_output_tokens ≡ tokens ++ (msg.verified_output_tokens ∷ []))
