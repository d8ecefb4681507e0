-- ===== src/Sync/Operations.antt =====
-- internal/modules/sync/postgres/operation_repository.go, with the primary key of
-- `sync_operations` in migrations/00005_sync_and_reliability.sql, and the request hash of
-- internal/modules/sync/push.go.
use cv_agent.Base.{
  ℕ, ◌+◌, ◌*◌, ◌^◌, String, ◌≡◌, Bool, ◌&&◌, Option, none, some, List, [], ◌∷◌, ℤ, str_eq,
  if◌then◌else◌, arith,
}
use cv_agent.Sync.Types.{EntityType, Action, PushOperation, Command, ApplyResult, StoredOperation}

-- The document that is hashed; `Json` is a decoded payload.
pub record HashDocument (Json : Type 0) : Type 0 where
  pub operation_id : String
  pub entity_type : EntityType
  pub entity_id : String
  pub action : Action
  pub expected_version : Option ℤ
  pub payload : Json

-- encoding/json and crypto/sha256 with hex: what `hashOperation` calls.
pub record Codec : Type 1 where
  pub Json : Type 0
  pub decode : String → Option Json
  pub marshal : HashDocument Json → Option String
  pub sha256_hex : String → String

abbrev sum_of : Codec → Option String → Option String
sum_of c none = none
sum_of c (some canonical) = some (c.sha256_hex canonical)

abbrev marshal_of : (c : Codec) → PushOperation → Option (c.Json) → Option String
marshal_of c o none = none
marshal_of c o (some payload) = sum_of c (
    c.marshal (record {
      operation_id = o.operation_id;
      entity_type = o.entity_type;
      entity_id = o.entity_id;
      action = o.action;
      expected_version = o.expected_version;
      payload = payload;
    }))

unfoldable pub hash_operation : Codec → PushOperation → Option String
hash_operation c o = marshal_of c o (c.decode o.payload)

-- A row of `sync_operations`.
pub record OperationRow (Entity : Type 0) : Type 0 where
  pub user_id : String
  pub operation_id : String
  pub device_id : String
  pub entity_type : EntityType
  pub action : Action
  pub stored : StoredOperation Entity
  pub created_at : ℕ
  pub expires_at : ℕ

-- `*time.Duration`s are in nanoseconds.
abbrev pub second : ℕ
second = 10 ^ 9

abbrev pub operation_retention : ℕ
operation_retention = 180 * 24 * 3600 * second

module _ {Entity : Type 0} where
  abbrev pub is_row : String → String → OperationRow Entity → Bool
  is_row user op r = str_eq r.user_id user && str_eq r.operation_id op

  -- `OperationRepository.Find`.
  unfoldable pub find :
      String → String → List (OperationRow Entity) → Option (StoredOperation Entity)
  find user op [] = none
  find user op (r ∷ rs) = if is_row user op r then some r.stored else find user op rs

  -- The INSERT of `OperationRepository.Save`: the primary key is (user_id, operation_id).
  unfoldable pub save :
      OperationRow Entity → List (OperationRow Entity) → Option (List (OperationRow Entity))
  unfolding find
  save r rows = elim (find r.user_id r.operation_id rows) [ none ↦ some (r ∷ rows) | some _ ↦ none ]

  abbrev pub row_of : Command → String → ApplyResult Entity → ℕ → OperationRow Entity
  row_of c hash a now = record {
    user_id = c.user_id;
    operation_id = c.operation.operation_id;
    device_id = c.device_id;
    entity_type = c.operation.entity_type;
    action = c.operation.action;
    stored = record {
      request_hash = hash;
      status = a.status;
      entity_id = c.operation.entity_id;
      applied_version = a.applied_version;
      error_code = a.error_code;
      server_entity = a.server_entity;
    };
    created_at = now;
    expires_at = now + operation_retention;
  }

  -- A row that was saved is found by its key, and every other key finds what it found before.
  pub find-save :
      (r : OperationRow Entity) (rows : List (OperationRow Entity))
      {rows' : List (OperationRow Entity)} (user op : String)
      → save r rows ≡ some rows'
      → find user op rows' ≡ (if is_row user op r then some r.stored else find user op rows)
  unfolding save find
  find-save r rows user op h = ground arith

  pub save_new :
      (r : OperationRow Entity) (rows : List (OperationRow Entity))
      → find r.user_id r.operation_id rows ≡ none
      → save r rows ≡ some (r ∷ rows)
  unfolding save
  save_new r rows h = ground arith
