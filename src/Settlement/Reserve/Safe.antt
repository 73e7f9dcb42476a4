-- ===== src/Settlement/Reserve/Safe.antt =====
-- A batch of reservations moves no money, overwrites no reservation, and accounts for every entry.
use funai_chain.Base.{
  ℕ, ◌+◌, ◌≡◌, ◌<◌, ◌⊎◌, inl, inr, none, some, lookup, arith, refl, Option-cases, Bool-cases,
  lookup-insert, ap, ◌∙◌, length, List, [], ◌∷◌, u32,
}
use funai_chain.Base.Result.{ok, Result-cases}
use funai_chain.Settlement.Types.{ReserveEntry, MsgBatchReserve, InferenceAccount}
use funai_chain.Settlement.Store.{Context, Store}
use funai_chain.Settlement.Account.{freeze_balance}
use funai_chain.Settlement.Account.Reservation.{freeze_balance_writes}
use funai_chain.Settlement.Account.Solvent.{
  IsSolvent, balances, holdings, balances-set, set_inference_account_keyed,
}
use funai_chain.Settlement.Reserve.{
  Reserved, is_reservable, reject, reserve_for, reserve_entry, reserve_entries,
  process_batch_reserve, batch_reserve,
}

module _ {S : Type 0} (c : Context S) where
  -- What a run of reservations keeps: the solvency, the sum of the balances, the other modules, and
  -- every reservation that is there.
  abbrev pub Reserves : Store S → Store S → Type 0
  Reserves s t =
      IsSolvent c t
      × (balances c t ≡ balances c s)
      × (t.outer ≡ s.outer)
      × ((id amount : ℕ) → lookup id s.frozen ≡ some amount → lookup id t.frozen ≡ some amount)

  Reserves-trans : (s t u : Store S) → Reserves s t → Reserves t u → Reserves s u
  Reserves-trans s t u (i, b, o, k) (i', b', o', k') =
      (i', b' ∙ b, o' ∙ o, λ id amount e. k' id amount (k id amount e))

  freeze_balance-Reserves :
      (user id amount : ℕ) (s t : Store S) (ia : InferenceAccount)
      → IsSolvent c s
      → lookup user s.accounts ≡ some ia
      → lookup id s.frozen ≡ none
      → freeze_balance c user id amount s ≡ ok t
      → Reserves s t
  freeze_balance-Reserves user id amount s t ia inv there fresh e =
      let new : InferenceAccount = record ia { frozen_balance = ia.frozen_balance + amount } in
      let (written, enough) = freeze_balance_writes c user id amount s t ia there e in
      let same = balances-set c s user ia new inv there refl in
      let keyed = set_inference_account_keyed c s new inv.keyed in
      (
        record {
          keyed = λ a i f. keyed a i (ground arith);
          covered = omega (arith, inv.covered, ap (balances c) written, ap (holdings c) written);
        },
        omega (arith, ap (balances c) written),
        ap (λ x. x.outer) written,
        λ other n f. ground (arith, lookup-insert other id amount s.frozen),
      )

  -- An entry is rejected, or its fee is frozen where nothing was.
  reserve_entry_cases :
      (e : ReserveEntry) (y z : Reserved S)
      → reserve_entry c e y ≡ ok z
      → (z ≡ reject c y)
        ⊎ ((user : ℕ) × (ia : InferenceAccount) × (t : Store S) × (lookup user y.store.accounts
              ≡ some ia)
            × (lookup e.task_id y.store.frozen ≡ none)
            × (freeze_balance c user e.task_id e.max_fee.amount y.store ≡ ok t)
            × (z ≡ record y { store = t; accepted = u32 (y.accepted + 1) }))
  unfolding reserve_entry reserve_for is_reservable
  reserve_entry_cases e y z done = elim (Bool-cases (is_reservable c e y.store)) [
    | inr barred ↦ inl (ground arith)
    | inl free ↦ elim (Option-cases (c.decode e.user_address)) [
      | inl malformed ↦ inl (ground arith)
      | inr (user, known) ↦ elim (Option-cases (lookup user y.store.accounts)) [
        | inl nobody ↦ inl (ground arith)
        | inr (ia, there) ↦ elim (Option-cases (lookup e.task_id y.store.frozen)) [
          | inr (n, taken) ↦ inl (ground arith)
          | inl fresh ↦
              elim (Result-cases (freeze_balance c user e.task_id e.max_fee.amount y.store)) [
                | inl (t, frozen) ↦ inr (user, ia, t, there, fresh, frozen, ground arith)
                | inr (inl (x, refused)) ↦ inl (ground arith)
                | inr (inr panics) ↦ ground arith
              ]
        ]
      ]
    ]
  ]

  reserve_entry-Reserves :
      (e : ReserveEntry) (y z : Reserved S)
      → IsSolvent c y.store
      → reserve_entry c e y ≡ ok z
      → Reserves y.store z.store
        × (y.accepted + y.rejected + 1 < 4294967296
            → z.accepted + z.rejected ≡ y.accepted + y.rejected + 1)
  reserve_entry-Reserves e y z inv done = elim (reserve_entry_cases e y z done) [
    | inl same ↦ rw same ((inv, refl, refl, λ id amount f. f), λ small. ground arith)
    | inr (user, ia, t, there, fresh, frozen, same) ↦ rw same (
      freeze_balance-Reserves user e.task_id e.max_fee.amount y.store t ia inv there fresh frozen,
      λ small. ground arith,
    )
  ]

  reserve_entries-Reserves :
      (es : List ReserveEntry) (y z : Reserved S)
      → IsSolvent c y.store
      → reserve_entries c es y ≡ ok z
      → Reserves y.store z.store
        × (y.accepted + y.rejected + length es < 4294967296
            → z.accepted + z.rejected ≡ y.accepted + y.rejected + length es)
  unfolding reserve_entries
  reserve_entries-Reserves [] y z inv done =
      let same : z ≡ y = ground arith in
      rw same ((inv, refl, refl, λ id amount f. f), λ small. omega arith)
  reserve_entries-Reserves (e ∷ es) y z inv done = elim (Result-cases (reserve_entry c e y)) [
    | inl (x, first) ↦
        let (kept, counted) = reserve_entry-Reserves e y x inv first in
        let (more, total') = reserve_entries-Reserves es x z kept.0 (ground arith) in
        (
          Reserves-trans y.store x.store z.store kept more,
          λ small.
              omega (arith, counted (omega arith), total' (omega (arith, counted (omega arith)))),
        )
    | inr (inl (x, refused)) ↦ ground arith
    | inr (inr panics) ↦ ground arith
  ]

  -- From a solvent store, a batch of reservations that goes through leaves the module solvent, moves no money, changes no
  -- reservation that was there, and counts each of its entries, fewer than 2^32, once, as accepted or
  -- rejected.
  pub process_batch_reserve_ok :
      (msg : MsgBatchReserve) (s t : Store S) (accepted rejected : ℕ)
      → IsSolvent c s
      → process_batch_reserve c msg s ≡ (t, ok (accepted, rejected))
      → length msg.entries < 4294967296
      → Reserves s t × (batch_reserve c msg s ≡ t) × (accepted + rejected ≡ length msg.entries)
  unfolding process_batch_reserve batch_reserve
  process_batch_reserve_ok msg s t accepted rejected inv e small =
      let start : Reserved S = record { store = s; accepted = 0; rejected = 0 } in
      elim (Result-cases (reserve_entries c msg.entries start)) [
        | inl (y, done) ↦
            let (kept, counted) = reserve_entries-Reserves msg.entries start y inv done in
            let same : t ≡ y.store = ground arith in
            let all : (accepted ≡ y.accepted) × (rejected ≡ y.rejected) = ground arith in
            (rw same kept, ground arith, omega (arith, all, counted (omega arith)))
        | inr (inl (x, refused)) ↦ ground arith
        | inr (inr panics) ↦ ground arith
      ]
