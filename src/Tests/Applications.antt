-- ===== src/Tests/Applications.antt =====
-- Commands on one application.
use cv_agent.Base.{
  ◌≡◌, refl, false, none, some, [], ◌∷◌, pos, bytes, encode_rune, flatten_runes, inc64,
}
use cv_agent.Db.{ok, Tx}
use cv_agent.Tracker.Domain.{applied, screening, DeliveryMethod, Source, Application, Transition}
use cv_agent.Tracker.StateMachine.{can_transition, valid_status}
use cv_agent.Tracker.Validate.{validate_transition, check_optional}
use cv_agent.Tracker.Store.{Store, find_live, find_event, has_event, rewrite}
use cv_agent.Sync.Changes.{append_change, is_recorded}
use cv_agent.Platform.Id.{is_uuid, is_uuid_bytes, hex_decode, from_hex_digit}
use cv_agent.Tracker.Application.{
  Env, missing, transition_in_tx, move_application, moved_application,
}
use cv_agent.Tracker.Application.Moves.{Moved, transition_in_tx-Moved}
use cv_agent.Tracker.Application.Retry.{transition_once}

abbrev pub env : Env
env = record {
  now = 500;
  fresh_id = some "0190a0b0-0000-7000-8000-000000000001";
  jd_title = λ u i. missing;
  resume_title = λ u i. missing;
  uuid_text = λ s. s;
}

abbrev pub row : Application
row = record {
  id = "a";
  user_id = "u";
  entity_version = pos 1;
  created_at = 1;
  updated_at = 1;
  deleted_at = none;
  last_modified_device_id = none;
  jd_id = none;
  resume_id = none;
  company_name = "Acme";
  role_name = "Engineer";
  jd_title_snapshot = none;
  resume_title_snapshot = none;
  resume_content_hash_snapshot = none;
  delivery_method = DeliveryMethod.manual;
  target_url = none;
  applied_at = some 1;
  status = applied;
  pending_confirmation = false;
  source = Source.manual;
  dedupe_key = none;
  company_business = none;
  role_summary = none;
  company_culture = none;
  rejection_reason = none;
}

abbrev pub one_row : Store
one_row = record {
  applications = row ∷ [];
  events = [];
  interviews = [];
  notes = [];
  reminders = [];
  changes = record { rows = []; next_sequence = 1 };
}

abbrev start : Tx Store
start = record { store = one_row; budget = 20 }

abbrev pub step : Transition
step = record {
  to_status = screening;
  expected_version = pos 1;
  occurred_at = 0;
  reason = none;
  operation_id = "0190a0b0-0000-7000-8000-000000000002";
}

abbrev moved : Application
moved = moved_application env "u" "d" row step

step_returns : (transition_in_tx env "u" "d" "a" step start).0 ≡ ok moved
unfolding transition_in_tx move_application validate_transition is_uuid is_uuid_bytes hex_decode
    from_hex_digit bytes encode_rune flatten_runes valid_status check_optional find_event find_live
    can_transition rewrite has_event append_change is_recorded inc64
step_returns = refl

transition_in_tx-Moved_example :
    Moved env "u" "d" "a" step one_row moved (transition_in_tx env "u" "d" "a" step start).1.store
unfolding find_event
transition_in_tx-Moved_example =
    transition_in_tx-Moved env "u" "d" "a" step start moved refl step_returns

transition_once_example :
    let after = (transition_in_tx env "u" "d" "a" step start).1.store in
    ((transition_in_tx env "u" "e" "a" step (record { store = after; budget = 1 })).1.store ≡ after)
    × ((r : Application) × (find_live "u" "a" after.applications ≡ some r)
        × (transition_in_tx env "u" "e" "a" step (record { store = after; budget = 7 })
            ≡ (ok (record r { user_id = "" }), record { store = after; budget = 4 })))
unfolding find_event
transition_once_example =
    transition_once env env "u" "d" "e" "a" step start 4 1 moved refl refl step_returns
