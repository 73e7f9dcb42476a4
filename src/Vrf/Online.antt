-- ===== src/Vrf/Online.antt =====
-- x/vrf/keeper/keeper.go, getOnlineWorkers: the statuses that a draw reads.
use funai_chain.Base.{
  ℕ, zero, suc, ◌≡◌, ◌≢◌, ◌≤◌, ◌&&◌, Bool, true, false, List, [], ◌∷◌, none, some, Dict, All,
  length, lookup, arith, refl, ap, Bool-cases, inl, inr, IsDict, Each, Each-current, Each-both,
}
use funai_chain.Vrf.Lists.{Lacks, HasDistinct, All-map}
use funai_chain.Vrf.Types.{VrfWorkerStatus}
use funai_chain.Vrf.Select.{has, online, may_serve, take}

-- Every status is stored once, under its own address.
abbrev pub IsFiled : Dict VrfWorkerStatus → Type 0
IsFiled d = IsDict d × Each (λ k (w : VrfWorkerStatus). k ≡ w.address) d

-- An address whose status is that of an idle worker with a key that is online for the model.
pub record IsServing (model : ℕ) (d : Dict VrfWorkerStatus) (a : ℕ) : Type 0 where
  pub status : VrfWorkerStatus
  pub stored : lookup a d ≡ some status
  pub is_there : status.is_online ≡ true
  pub knows_model : has model status.model_ids ≡ true
  pub is_idle : status.is_busy ≡ false
  pub has_key : length status.pubkey ≢ 0

abbrev OnlineAt : ℕ → Dict VrfWorkerStatus → VrfWorkerStatus → Type 0
OnlineAt model d w =
    (lookup w.address d ≡ some w) × (w.is_online ≡ true) × (has model w.model_ids ≡ true)

online-OnlineAt :
    (model : ℕ) (all d : Dict VrfWorkerStatus)
    → Each (λ k (w : VrfWorkerStatus). (lookup k all ≡ some w) × (k ≡ w.address)) d
    → All (OnlineAt model all) (online model d)
online-OnlineAt model all [] h = tt
online-OnlineAt model all (e ∷ d) h =
    let rest = online-OnlineAt model all d h.1 in
    elim (Bool-cases (e.1.is_online && has model e.1.model_ids)) [
      | inr away ↦ rw away rest
      | inl here ↦
          let known : lookup e.1.address all ≡ some e.1 = rw h.0.1 at h.0.0 in
          rw here ((known, ground (arith, here), ground (arith, here)), rest)
    ]

online-Lacks :
    (model k : ℕ) (d : Dict VrfWorkerStatus)
    → lookup k d ≡ none
    → Each (λ j (w : VrfWorkerStatus). j ≡ w.address) d
    → Lacks (λ (w : VrfWorkerStatus). w.address) k (online model d)
online-Lacks model k [] fresh filed = tt
online-Lacks model k (e ∷ d) fresh filed =
    let other : k ≢ e.1.address = λ same. ground (arith, filed.0, same, fresh) in
    let rest = online-Lacks model k d (ground arith) filed.1 in
    elim (Bool-cases (e.1.is_online && has model e.1.model_ids)) [
      | inl here ↦ rw here (other, rest)
      | inr away ↦ rw away rest
    ]

pub online-HasDistinct :
    (model : ℕ) (d : Dict VrfWorkerStatus)
    → IsFiled d
    → HasDistinct (λ (w : VrfWorkerStatus). w.address) (online model d)
online-HasDistinct model [] h = tt
online-HasDistinct model (e ∷ d) h =
    let rest = online-HasDistinct model d (h.0.1, h.1.1) in
    let alone = online-Lacks model e.1.address d (rw h.1.0 at h.0.0) h.1.1 in
    elim (Bool-cases (e.1.is_online && has model e.1.model_ids)) [
      | inl here ↦ rw here (alone, rest)
      | inr away ↦ rw away rest
    ]

pub take-All : (Q : ℕ → Type 0) (n : ℕ) (xs : List ℕ) → All Q xs → All Q (take n xs)
take-All Q zero xs h = tt
take-All Q (suc n) [] h = tt
take-All Q (suc n) (x ∷ xs) h = (h.0, take-All Q n xs h.1)

pub take-HasDistinct :
    (n : ℕ) (xs : List ℕ) → HasDistinct (λ a. a) xs → HasDistinct (λ a. a) (take n xs)
take-HasDistinct zero xs h = tt
take-HasDistinct (suc n) [] h = tt
take-HasDistinct (suc n) (x ∷ xs) h = (take-All (λ a. x ≢ a) n xs h.0, take-HasDistinct n xs h.1)

pub length-take : {A : Type 0} (n : ℕ) (xs : List A) → n ≤ length xs → length (take n xs) ≡ n
length-take zero xs h = refl
length-take (suc n) [] h = absurd (omega arith)
length-take (suc n) (x ∷ xs) h = ap suc (length-take n xs (omega arith))

pub online-IsServing :
    (model : ℕ) (left_out : ℕ → Bool) (d : Dict VrfWorkerStatus)
    → IsFiled d
    → All
        (λ (w : VrfWorkerStatus).
          may_serve left_out w ≡ true → IsServing model d w.address × (left_out w.address ≡ false))
        (online model d)
online-IsServing model left_out d filed =
    All-map (OnlineAt model d) _ (online model d)
      (λ w at able. (
        record {
          status = w;
          stored = at.0;
          is_there = at.1;
          knows_model = at.2;
          is_idle = ground (arith, able);
          has_key = ground (arith, able);
        },
        ground (arith, able),
      ))
      (online-OnlineAt model d d (Each-both _ _ d (Each-current d filed.0) filed.1))
