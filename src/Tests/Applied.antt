-- ===== src/Tests/Applied.antt =====
-- Commands on an application that come through a push.
use cv_agent.Base.{String, ◌≢◌, refl, true, false, none, some, List, [], ◌∷◌, pos}
use cv_agent.Sync.Types.{Action, create, Command}
use cv_agent.Sync.Operations.{Codec, find}
use cv_agent.Sync.Handlers.{CommandHandler, handler_of}
use cv_agent.Sync.Push.{PushDb, Attempt, acknowledged, apply_one}
use cv_agent.Tracker.Store.{Store}
use cv_agent.Tracker.SyncAdapter.{application_handler}
use cv_agent.Tracker.SyncAdapter.Payloads.{Formats, ApplicationPayload, CreateCommand}
use cv_agent.Tracker.SyncAdapter.Duplicates.{apply_one-not_duplicate}
use cv_agent.Tests.Applications.{env, one_row}

abbrev pub codec : Codec
codec = record {
  Json = String;
  decode = λ s. some s;
  marshal = λ d. some d.payload;
  sha256_hex = λ s. s;
}

abbrev request : CreateCommand
request = record {
  jd_id = none;
  resume_id = none;
  company_name = "Acme";
  role_name = "Engineer";
  jd_title_snapshot = none;
  resume_title_snapshot = none;
  resume_content_hash_snapshot = none;
  delivery_method = "manual";
  target_url = none;
  applied_at = some 2;
  pending_confirmation = false;
  source = "manual";
  dedupe_key = none;
  company_business = none;
  role_summary = none;
  company_culture = none;
}

abbrev pub formats : Formats
formats = record {
  decode_create = λ s. some request;
  decode_update = λ s. none;
  decode_transition = λ s. none;
  rfc3339 = λ t. "1970-01-01T00:00:00Z";
}

abbrev handlers : List (CommandHandler ApplicationPayload Store)
handlers = application_handler formats env ∷ []

abbrev pub attempt : Attempt
attempt = record { begins = true; budget = 20; commit = acknowledged; now = 100 }

abbrev db : PushDb ApplicationPayload Store
db = record { business = one_row; operations = [] }

abbrev command : Action → Command
command action = record {
  user_id = "u";
  device_id = "d";
  operation = record {
    operation_id = "op";
    entity_type = "application";
    entity_id = "a";
    action = action;
    expected_version = some (pos 1);
    payload = "{}";
  };
}

-- The identifier is that of the row.
apply_one-not_duplicate_example :
    (apply_one handlers codec attempt (command create) db).0.error_code
    ≢ some "duplicate_application"
unfolding handler_of find
apply_one-not_duplicate_example =
    apply_one-not_duplicate formats env codec handlers attempt (command create) db refl refl refl
