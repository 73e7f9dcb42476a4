-- ===== src/Reward/Payment.antt =====
-- x/reward/keeper/keeper.go: the parameters, the records, and the payment of shares. The bank is a
-- parameter, with `S` for its state.
use funai_chain.Base.{
  ℕ, ◌+◌, ◌-◌, ◌==◌, ◌&&◌, if◌then◌else◌, Option, none, some, List, [], ◌∷◌, get_or, u64,
}
use funai_chain.Base.Result.{Result, ok, err, ◌>>=◌}
use funai_chain.Reward.Types.{
  Decimals, RewardParams, RewardRecord, default_reward_params, validate_reward_params,
}

pub data RewardError : Type 0 where
  mint_refused transfer_refused invalid_address unauthorized invalid_params : RewardError

pub record RewardState (D S : Type 0) : Type 0 where
  pub outer : S
  pub records : List RewardRecord
  pub params : Option (RewardParams D)

-- `mint` is `MintCoins` on the module, `send` pays from the module to an account, and `to_fund` pays
-- from the module to the settlement module.
pub record RewardContext (D S : Type 0) : Type 0 where
  pub height : ℕ
  pub dec : Decimals D
  pub authority : ℕ
  pub decode : ℕ → Option ℕ
  pub mint : S → ℕ → Option S
  pub send : S → ℕ → ℕ → Option S
  pub to_fund : S → ℕ → Option S

-- One record for each epoch and address: a later one takes the place of an earlier one.
abbrev pub put_record : RewardRecord → List RewardRecord → List RewardRecord
put_record r [] = r ∷ []
put_record r (old ∷ olds) =
    let kept = old ∷ put_record r olds in
    if old.epoch == r.epoch && old.worker_address == r.worker_address then r ∷ olds else kept

-- What a loop computes for one recipient; the last one gets the rest instead.
pub record Share : Type 0 where
  pub address : ℕ
  pub alloc : ℕ

abbrev pub sum_by : {A : Type 0} → (A → ℕ) → List A → ℕ
sum_by f [] = 0
sum_by f (x ∷ xs) = f x + sum_by f xs

-- A sum of uint64 counts, which wraps.
abbrev pub sum_u64 : {A : Type 0} → (A → ℕ) → List A → ℕ
sum_u64 f xs = u64 (sum_by f xs)

module _ {D S : Type 0} (c : RewardContext D S) where
  abbrev pub get_reward_params : RewardState D S → RewardParams D
  get_reward_params s = get_or (default_reward_params c.dec) s.params

  unfoldable pub set_reward_params :
      RewardParams D → RewardState D S → Result RewardError (RewardState D S)
  set_reward_params params s =
      if validate_reward_params c.dec params
      then ok (record s { params = some params })
      else err invalid_params

  unfoldable pub update_reward_params :
      ℕ → RewardParams D → RewardState D S → Result RewardError (RewardState D S)
  unfolding set_reward_params
  update_reward_params authority params s =
      if c.authority == authority then set_reward_params params s else err unauthorized

  unfoldable pub mint_and_send : ℕ → ℕ → RewardState D S → Result RewardError (RewardState D S)
  mint_and_send address amount s = elim (c.mint s.outer amount) [
    | none ↦ err mint_refused
    | some minted ↦ elim (c.decode address) [
      | none ↦ err invalid_address
      | some a ↦ elim (c.send minted a amount) [
        | none ↦ err transfer_refused
        | some o ↦ ok (record s { outer = o })
      ]
    ]
  ]

  unfoldable pub pay_share : ℕ → ℕ → ℕ → RewardState D S → Result RewardError (RewardState D S)
  unfolding mint_and_send
  pay_share epoch address alloc s =
      let new : RewardRecord = record { epoch = epoch; worker_address = address; amount = alloc } in
      let paid = mint_and_send address alloc s >>= λ t.
      ok (record t { records = put_record new t.records }) in
      if alloc == 0 then ok s else paid

  -- The four loops: everyone gets the share, and the last one what is left of the reward.
  unfoldable pub pay_shares :
      ℕ → ℕ → ℕ → List Share → RewardState D S → Result RewardError (RewardState D S)
  unfolding pay_share
  pay_shares epoch reward distributed [] s = ok s
  pay_shares epoch reward distributed (x ∷ []) s =
      pay_share epoch x.address (reward - distributed) s
  pay_shares epoch reward distributed (x ∷ y ∷ rest) s = do
    t ← pay_share epoch x.address x.alloc s
    pay_shares epoch reward (distributed + x.alloc) (y ∷ rest) t

  -- The fund of the second and third verifiers gets what the two pools leave of the reward.
  unfoldable pub fill_fund : ℕ → RewardState D S → Result RewardError (RewardState D S)
  fill_fund amount s =
      let filled : Result RewardError (RewardState D S) = elim (c.mint s.outer amount) [
        | none ↦ err mint_refused
        | some minted ↦ elim (c.to_fund minted amount) [
          | none ↦ err transfer_refused
          | some o ↦ ok (record s { outer = o })
        ]
      ] in
      if amount == 0 then ok s else filled
