-- ===== src/ModelReg/Basic.antt =====
-- x/modelreg/types/msgs.go and model.go: what a message must be before it is handled.
use funai_chain.Base.{
  ℕ, ◌&&◌, ◌||◌, not, Bool, false, ◌==◌, leb, ltb, if◌then◌else◌, Option, none, some, [], ◌∷◌,
  length, is_some,
}
use funai_chain.ModelReg.Types.{
  ModelError, bad_creator, empty_name, bad_alias, empty_hash, bad_epsilon, bad_ratio,
  empty_model_id, MsgModelProposal, MsgUpdateModelStats, MsgDeclareInstalled,
}
use funai_chain.ModelReg.Index.{Bytes}
use funai_chain.ModelReg.Keeper.{ModelContext}

-- `[a-z0-9]`
abbrev pub is_alphanumeric : ℕ → Bool
is_alphanumeric b = leb 48 b && leb b 57 || leb 97 b && leb b 122

-- `[a-z0-9\-]*[a-z0-9]`, to the end
abbrev pub is_alias_tail : Bytes → Bool
is_alias_tail [] = false
is_alias_tail (b ∷ []) = is_alphanumeric b
is_alias_tail (b ∷ x ∷ bs) = (is_alphanumeric b || b == 45) && is_alias_tail (x ∷ bs)

abbrev pub matches_alias : Bytes → Bool
matches_alias [] = false
matches_alias (b ∷ bs) = is_alphanumeric b && is_alias_tail bs

-- `ValidateAlias`: true when it returns no error.
unfoldable pub validate_alias : Bytes → Bool
validate_alias alias = not (ltb (length alias) 3 || ltb 64 (length alias)) && matches_alias alias

module _ {F : Type 0} (c : ModelContext F) where
  unfoldable pub validate_proposal : MsgModelProposal → Option ModelError
  unfolding validate_alias
  validate_proposal m =
      if not (is_some (c.decode m.creator))
      then some bad_creator
      else if m.name == 0
      then some empty_name
      else if m.alias == 0
      then some bad_alias
      else if not (validate_alias (c.spell m.alias))
      then some bad_alias
      else if m.weight_hash == 0
      then some empty_hash
      else if m.quant_config_hash == 0
      then some empty_hash
      else if m.runtime_image_hash == 0
      then some empty_hash
      else if ltb m.epsilon 1
      then some bad_epsilon
      else if ltb 1000 m.epsilon
      then some bad_epsilon
      else none

  unfoldable pub validate_stats : MsgUpdateModelStats F → Option ModelError
  validate_stats m =
      if not (is_some (c.decode m.authority))
      then some bad_creator
      else if m.model_id == 0
      then some empty_model_id
      else if not (c.ratios.at_least m.installed_stake_ratio c.ratios.none_at_all)
      then some bad_ratio
      else if not (c.ratios.at_least (c.ratios.ratio 1 1) m.installed_stake_ratio)
      then some bad_ratio
      else none

  unfoldable pub validate_declare : MsgDeclareInstalled → Option ModelError
  validate_declare m =
      if not (is_some (c.decode m.creator))
      then some bad_creator
      else if m.model_id == 0
      then some empty_model_id
      else none
