-- ===== src/Sync/Types.antt =====
-- internal/modules/sync/push_types.go and entity_types.go: the wire types of the push protocol.
use cv_agent.Base.{String, Option, ℤ}

-- Entity types are open on the wire: an operation may name any text.
abbrev pub EntityType : Type 0
EntityType = String

pub data Action : Type 0 where
  create update delete transition : Action
  unknown : String → Action

pub data ResultStatus : Type 0 where
  applied already_applied conflict validation_failed forbidden retryable_error : ResultStatus

-- The payload is the raw JSON text.
pub record PushOperation : Type 0 where
  pub operation_id : String
  pub entity_type : EntityType
  pub entity_id : String
  pub action : Action
  pub expected_version : Option ℤ
  pub payload : String

pub record Command : Type 0 where
  pub user_id : String
  pub device_id : String
  pub operation : PushOperation

-- `Entity` stands for the JSON form of `ServerEntity any`; nil is `none`.
pub record OperationResult (Entity : Type 0) : Type 0 where
  pub operation_id : String
  pub status : ResultStatus
  pub entity_id : String
  pub applied_version : Option ℤ
  pub error_code : Option String
  pub server_entity : Option Entity

pub record ApplyResult (Entity : Type 0) : Type 0 where
  pub status : ResultStatus
  pub applied_version : Option ℤ
  pub error_code : String
  pub server_entity : Option Entity

pub record StoredOperation (Entity : Type 0) : Type 0 where
  pub request_hash : String
  pub status : ResultStatus
  pub entity_id : String
  pub applied_version : Option ℤ
  pub error_code : String
  pub server_entity : Option Entity
