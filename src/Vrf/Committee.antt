-- ===== src/Vrf/Committee.antt =====
-- x/vrf/keeper/keeper.go: the committee of a period, and the share of it that must sign.
use funai_chain.Base.{
  ℕ, ◌+◌, ◌*◌, ◌/◌, ◌^◌, Bool, false, ◌==◌, leb, if◌then◌else◌, Option, none, some, List, [], ◌∷◌,
  ◌++◌, length,
}
use funai_chain.Base.Result.{Result, ok, err, panic}
use funai_chain.Vrf.Types.{
  Bytes, alpha_dispatch, VrfError, no_eligible_workers, CommitteeInfo, CommitteeMember,
}
use funai_chain.Vrf.Rank.{Scored, rank_workers}
use funai_chain.Vrf.Keeper.{VrfStore, VrfContext, get_vrf_params, set_committee_info}
use funai_chain.Vrf.Select.{block_hash, take, has}
use funai_chain.Vrf.Leader.{keyed}

-- The size to draw, at most the workers; a size that `int` reads as negative draws nobody.
abbrev pub committee_size : ℕ → ℕ → Option ℕ
committee_size size workers =
    let n = if leb size workers then size else workers in
    if leb (2 ^ 63) size then some 0 else if n == 0 then none else some n

-- What is left of a rotation; `none` is a panic.
abbrev pub rotated : VrfStore → Result VrfError (CommitteeInfo × VrfStore) → Option VrfStore
rotated s (ok r) = some r.1
rotated s (err e) = some s
rotated s panic = none

module _ {F G : Type 0} (c : VrfContext F G) where
  abbrev pub committee_seed : VrfStore → Bytes
  committee_seed s = c.floats.sha256 (block_hash c s)

  abbrev pub seats : Bytes → List (Scored c.floats) → List CommitteeMember
  seats seed [] = []
  seats seed (e ∷ es) =
      record { address = e.1.address; vrf_hash = c.floats.sha256 (seed ++ e.1.pubkey) }
      ∷ seats seed es

  unfoldable pub committee_ranking : List ℕ → VrfStore → List (Scored c.floats)
  unfolding keyed rank_workers
  committee_ranking workers s =
      rank_workers c.floats (committee_seed s) alpha_dispatch (keyed c workers s)

  abbrev pub drawn : ℕ → List (Scored c.floats) → VrfStore → CommitteeInfo
  drawn n ranking s = record {
    members = seats (committee_seed s) (take n ranking);
    rotation_block = c.height;
    epoch = c.height / (get_vrf_params s).committee_rotation;
  }

  -- The panic is the division by a period of 0.
  unfoldable pub select_committee : List ℕ → VrfStore → Result VrfError (CommitteeInfo × VrfStore)
  unfolding committee_ranking
  select_committee workers s =
      let p = get_vrf_params s in
      elim (committee_size p.committee_size (length workers)) [
        | none ↦ err no_eligible_workers
        | some n ↦ elim (committee_ranking workers s) [
          | [] ↦ err no_eligible_workers
          | e ∷ es ↦
              if p.committee_rotation == 0
              then panic
              else ok (drawn n (e ∷ es) s, set_committee_info (drawn n (e ∷ es) s) s)
        ]
      ]

  -- An error is logged only.
  unfoldable pub handle_committee_rotation : List ℕ → VrfStore → Option VrfStore
  unfolding select_committee
  handle_committee_rotation workers s = elim s.committee [
    | none ↦ rotated s (select_committee workers s)
    | some old ↦
        if leb (old.rotation_block + (get_vrf_params s).committee_rotation) c.height
        then rotated s (select_committee workers s)
        else some s
  ]

abbrev pub member_addresses : List CommitteeMember → List ℕ
member_addresses [] = []
member_addresses (m ∷ ms) = m.address ∷ member_addresses ms

abbrev pub count_valid : List ℕ → List ℕ → ℕ
count_valid members [] = 0
count_valid members (a ∷ signers) =
    let rest = count_valid members signers in if has a members then rest + 1 else rest

-- The thresholds that parameters allow are at most 100, so the product fits an `int`.
unfoldable pub verify_consensus_threshold : List ℕ → VrfStore → Bool
verify_consensus_threshold signers s = elim s.committee [
  | none ↦ false
  | some info ↦
      let threshold = (get_vrf_params s).consensus_threshold * length info.members / 100 in
      leb threshold (count_valid (member_addresses info.members) signers)
]
