-- ===== src/Tracker/SyncAdapter.antt =====
-- internal/modules/tracker/syncadapter: application_command_handler.go, application_commands.go,
-- command_shared.go and the application payload of payloads.go.
pub mod Payloads
pub mod Results
pub mod Duplicates
pub mod ChildPayloads
pub mod Children
pub mod ChildResults
pub mod Taken
use cv_agent.Base.{
  ℕ, String, Bool, true, false, Option, none, some, List, [], ◌∷◌, ℤ, pos, if◌then◌else◌,
}
use cv_agent.Db.{Result, ok, err, Tx, M}
use cv_agent.Sync.Types.{
  EntityType, Action, create, update, delete, transition, ResultStatus, applied, conflict,
  validation_failed, Command, ApplyResult, PushOperation,
}
use cv_agent.Sync.Handlers.{Fault, fault, CommandHandler}
use cv_agent.Sync.Changes.{type_application}
use cv_agent.Tracker.Domain.{
  Error, not_found, version_conflict, invalid_input, illegal_transition, duplicate, Application,
}
use cv_agent.Tracker.Store.{Store}
use cv_agent.Tracker.Application.{Env, create_in_tx, update_in_tx, delete_in_tx, transition_in_tx}
use Payloads.{Formats, ApplicationPayload, payload_of, create_of, update_of, transition_of}

abbrev pub failure : ResultStatus → String → ApplyResult ApplicationPayload
failure status code = record {
  status = status;
  applied_version = none;
  error_code = code;
  server_entity = none;
}

abbrev pub applied_at_version : ℤ → ApplicationPayload → ApplyResult ApplicationPayload
applied_at_version version entity = record {
  status = applied;
  applied_version = some version;
  error_code = "";
  server_entity = some entity;
}

-- `applicationResult`. An error that it does not name stays an error.
unfoldable pub application_result :
    Formats → Result Error Application → Result Fault (ApplyResult ApplicationPayload)
application_result f (ok app) = ok (applied_at_version app.entity_version (payload_of f app))
application_result f (err version_conflict) = ok (failure conflict "entity_version_conflict")
application_result f (err illegal_transition) = ok (failure validation_failed "illegal_transition")
application_result f (err duplicate) = ok (failure conflict "duplicate_application")
application_result f (err not_found) = ok (failure validation_failed "application_not_found")
application_result f (err invalid_input) = ok (failure validation_failed "invalid_application")
application_result f (err _) = err fault

abbrev pub answered :
    Formats → M Store Error Application → M Store Fault (ApplyResult ApplicationPayload)
answered f m t = (application_result f (m t).0, (m t).1)

abbrev pub refuse : ResultStatus → String → M Store Fault (ApplyResult ApplicationPayload)
refuse status code t = (ok (failure status code), t)

-- A command without its version, or with a payload that does not decode.
abbrev pub no_version : M Store Fault (ApplyResult ApplicationPayload)
no_version = refuse validation_failed "invalid_sync_operation"

abbrev pub no_payload : M Store Fault (ApplyResult ApplicationPayload)
no_payload = refuse validation_failed "invalid_application"

module _ (f : Formats) (env : Env) where
  abbrev pub apply_create : Command → M Store Fault (ApplyResult ApplicationPayload)
  apply_create c = elim (f.decode_create c.operation.payload) [
    | none ↦ no_payload
    | some request ↦
        answered f
          (create_in_tx env c.user_id c.device_id (create_of request c.operation.entity_id))
  ]

  abbrev pub apply_update : Command → M Store Fault (ApplyResult ApplicationPayload)
  apply_update c = elim c.operation.expected_version [
    | none ↦ no_version
    | some version ↦ elim (f.decode_update c.operation.payload) [
      | none ↦ no_payload
      | some request ↦
          answered f (
            update_in_tx env c.user_id c.device_id c.operation.entity_id
              (update_of request version))
    ]
  ]

  abbrev pub apply_transition : Command → M Store Fault (ApplyResult ApplicationPayload)
  apply_transition c = elim c.operation.expected_version [
    | none ↦ no_version
    | some version ↦ elim (f.decode_transition c.operation.payload) [
      | none ↦ no_payload
      | some request ↦ answered f (
          transition_in_tx env c.user_id c.device_id c.operation.entity_id
            (transition_of request version c.operation.operation_id))
    ]
  ]

  abbrev pub apply_delete : Command → M Store Fault (ApplyResult ApplicationPayload)
  apply_delete c = elim c.operation.expected_version [
    | none ↦ no_version
    | some version ↦
        answered f (delete_in_tx env c.user_id c.device_id c.operation.entity_id version)
  ]

  -- The switch of `Apply`.
  abbrev pub apply_action : Action → Command → M Store Fault (ApplyResult ApplicationPayload)
  apply_action create c = apply_create c
  apply_action update c = apply_update c
  apply_action transition c = apply_transition c
  apply_action delete c = apply_delete c
  apply_action (Action.unknown _) c = refuse validation_failed "invalid_sync_operation"

  unfoldable pub apply : Command → M Store Fault (ApplyResult ApplicationPayload)
  apply c = apply_action c.operation.action c

  abbrev pub application_handler : CommandHandler ApplicationPayload Store
  application_handler = record { entity_type = type_application; apply = apply }
