-- ===== src/Vrf/Types.antt =====
-- x/vrf/types: the parameters, the records that the module stores and the messages. A worker's
-- address, a model's and a task's identifier are numbers; keys, hashes and seeds are lists of
-- bytes. Heights and periods (int64) are taken as not negative.
use funai_chain.Base.{ℕ, ◌&&◌, ◌||◌, not, Bool, ltb, ◌==◌, List, Option}

abbrev pub Bytes : Type 0
Bytes = List ℕ

pub record VrfParams : Type 0 where
  pub leader_epoch_duration : ℕ
  pub heartbeat_interval : ℕ
  pub leader_timeout_blocks : ℕ
  pub committee_size : ℕ
  pub committee_rotation : ℕ
  pub consensus_threshold : ℕ
  pub timeout_proof_percent : ℕ

abbrev pub default_vrf_params : VrfParams
default_vrf_params = record {
  leader_epoch_duration = 6;
  heartbeat_interval = 1;
  leader_timeout_blocks = 1;
  committee_size = 100;
  committee_rotation = 120;
  consensus_threshold = 70;
  timeout_proof_percent = 70;
}

-- `Params.Validate`: true when it returns no error.
unfoldable pub validate_vrf_params : VrfParams → Bool
validate_vrf_params p =
    not (p.leader_epoch_duration == 0)
    && not (p.heartbeat_interval == 0)
    && not (p.leader_timeout_blocks == 0)
    && not (p.committee_size == 0)
    && not (p.committee_rotation == 0)
    && not (p.consensus_threshold == 0 || ltb 100 p.consensus_threshold)
    && not (p.timeout_proof_percent == 0 || ltb 100 p.timeout_proof_percent)

-- The exponent of the stake: 1, 1/2 or 0.
pub data VrfAlpha : Type 0 where
  alpha_dispatch alpha_verification alpha_second_third_verification : VrfAlpha

pub data VrfError : Type 0 where
  invalid_params no_eligible_workers no_pubkey no_online_workers not_enough : VrfError
  leader_not_found not_leader unauthorized insufficient_proofs leader_in_time : VrfError
  bad_creator empty_proof empty_value empty_model : VrfError

pub record LeaderInfo : Type 0 where
  pub address : ℕ
  pub model_id : ℕ
  pub start_block : ℕ
  pub end_block : ℕ
  pub last_heartbeat : ℕ

pub record CommitteeMember : Type 0 where
  pub address : ℕ
  pub vrf_hash : Bytes

pub record CommitteeInfo : Type 0 where
  pub members : List CommitteeMember
  pub rotation_block : ℕ
  pub epoch : ℕ

pub record VrfSeed : Type 0 where
  pub value : Bytes
  pub block_height : ℕ

-- A stake that is nil is 0 here: the two are read alike.
pub record VrfWorkerStatus : Type 0 where
  pub address : ℕ
  pub pubkey : Bytes
  pub is_online : Bool
  pub is_busy : Bool
  pub model_ids : List ℕ
  pub stake : ℕ

pub record WorkerRank : Type 0 where
  pub address : ℕ
  pub rank : ℕ
  pub stake : ℕ
  pub vrf_proof : Bytes

pub record MsgSubmitVrfProof : Type 0 where
  pub creator : ℕ
  pub proof : Bytes
  pub value : Bytes

pub record MsgLeaderHeartbeat : Type 0 where
  pub creator : ℕ
  pub model_id : ℕ

pub record MsgReportLeaderTimeout : Type 0 where
  pub creator : ℕ
  pub model_id : ℕ
  pub timeout_proofs : List Bytes

pub record VrfGenesis : Type 0 where
  pub params : VrfParams
  pub initial_seed : VrfSeed
  pub leaders : List LeaderInfo
  pub committee : Option CommitteeInfo
