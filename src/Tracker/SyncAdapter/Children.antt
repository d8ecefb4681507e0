-- ===== src/Tracker/SyncAdapter/Children.antt =====
-- internal/modules/tracker/syncadapter: interview_command_handler.go, note_command_handler.go and
-- reminder_command_handler.go, and the list `Commands` of internal/modules/tracker/module.go.
use mathlib.Core.Option
use cv_agent.Base.{String, Option, none, some, List, [], ◌∷◌, ℤ}
use cv_agent.Db.{Result, ok, err, M}
use cv_agent.Sync.Types.{
  Action, create, update, delete, transition, ResultStatus, applied, conflict, validation_failed,
  Command, ApplyResult,
}
use cv_agent.Sync.Handlers.{Fault, fault, CommandHandler}
use cv_agent.Sync.Changes.{type_interview_round, type_application_note, type_reminder}
use cv_agent.Tracker.Domain.{
  Error, not_found, version_conflict, invalid_input, round_conflict, InterviewRound, Note, Reminder,
}
use cv_agent.Tracker.Store.{Store, Act}
use cv_agent.Tracker.Application.{Env}
use cv_agent.Tracker.Children.Kinds.{
  add_interview, replace_interview, remove_interview, add_note, replace_note, remove_note,
  add_reminder, replace_reminder, remove_reminder,
}
use cv_agent.Tracker.SyncAdapter.{application_handler}
use cv_agent.Tracker.SyncAdapter.ChildPayloads.{
  ChildFormats, InterviewCommand, NoteCommand, ReminderCommand, interview_write_of, note_write_of,
  reminder_write_of, interview_payload_of, note_payload_of, reminder_payload_of, TrackerPayload,
  application, interview, note, reminder,
}

abbrev pub child_failure : ResultStatus → String → ApplyResult TrackerPayload
child_failure status code = record {
  status = status;
  applied_version = none;
  error_code = code;
  server_entity = none;
}

abbrev pub child_applied : ℤ → TrackerPayload → ApplyResult TrackerPayload
child_applied version entity = record {
  status = applied;
  applied_version = some version;
  error_code = "";
  server_entity = some entity;
}

abbrev pub invalid_operation : ApplyResult TrackerPayload
invalid_operation = child_failure validation_failed "invalid_sync_operation"

-- `interviewResult`.
unfoldable pub interview_result :
    ChildFormats → Result Error InterviewRound → Result Fault (ApplyResult TrackerPayload)
interview_result f (ok i) =
    ok (child_applied i.entity_version (interview (interview_payload_of f i)))
interview_result f (err version_conflict) = ok (child_failure conflict "entity_version_conflict")
interview_result f (err round_conflict) = ok (child_failure conflict "interview_round_conflict")
interview_result f (err not_found) = ok (child_failure validation_failed "interview_not_found")
interview_result f (err invalid_input) = ok (child_failure validation_failed "invalid_interview")
interview_result f (err _) = err fault

-- `noteResult`.
unfoldable pub note_result :
    ChildFormats → Result Error Note → Result Fault (ApplyResult TrackerPayload)
note_result f (ok n) = ok (child_applied n.entity_version (note (note_payload_of f n)))
note_result f (err version_conflict) = ok (child_failure conflict "entity_version_conflict")
note_result f (err not_found) = ok (child_failure validation_failed "note_not_found")
note_result f (err invalid_input) = ok (child_failure validation_failed "invalid_note")
note_result f (err _) = err fault

-- `reminderResult`.
unfoldable pub reminder_result :
    ChildFormats → Result Error Reminder → Result Fault (ApplyResult TrackerPayload)
reminder_result f (ok m) = ok (child_applied m.entity_version (reminder (reminder_payload_of f m)))
reminder_result f (err version_conflict) = ok (child_failure conflict "entity_version_conflict")
reminder_result f (err not_found) = ok (child_failure validation_failed "reminder_not_found")
reminder_result f (err invalid_input) = ok (child_failure validation_failed "invalid_reminder")
reminder_result f (err _) = err fault

-- What the three switches have in common: the commands of one kind with their codes.
pub record Switch (A C : Type 0) : Type 0 where
  pub decode : String → Option C
  pub invalid_code : String
  pub result : Result Error A → Result Fault (ApplyResult TrackerPayload)
  pub on_create : Command → C → Act A
  pub on_update : Command → C → ℤ → Act A
  pub on_delete : Command → ℤ → Act A

abbrev pub Answer : Type 0
Answer = M Store Fault (ApplyResult TrackerPayload)

abbrev pub answer : ApplyResult TrackerPayload → Answer
answer a t = (ok a, t)

module _ {A C : Type 0} (w : Switch A C) where
  abbrev pub child_answered : Act A → Answer
  child_answered m t = (w.result (m t).0, (m t).1)

  abbrev pub with_version : Command → (ℤ → Answer) → Answer
  with_version c k = elim c.operation.expected_version [
    | none ↦ answer invalid_operation
    | some version ↦ k version
  ]

  abbrev pub with_request : Command → (C → Answer) → Answer
  with_request c k = elim (w.decode c.operation.payload) [
    | none ↦ answer (child_failure validation_failed w.invalid_code)
    | some request ↦ k request
  ]

  -- The switch of `Apply`.
  abbrev pub switch : Action → Command → Answer
  switch create c = with_request c (λ request. child_answered (w.on_create c request))
  switch update c =
      with_version c
        λ version. with_request c λ request. child_answered (w.on_update c request version)
  switch delete c = with_version c (λ version. child_answered (w.on_delete c version))
  switch transition c = answer invalid_operation
  switch (Action.unknown _) c = answer invalid_operation

module _ (f : ChildFormats) (env : Env) where
  abbrev pub interview_switch : Switch InterviewRound InterviewCommand
  interview_switch = record {
    decode = f.decode_interview;
    invalid_code = "invalid_interview";
    result = interview_result f;
    on_create = λ c r.
        add_interview env c.user_id c.device_id r.application_id
          (interview_write_of r none c.operation.entity_id);
    on_update = λ c r version.
        replace_interview env c.user_id c.device_id c.operation.entity_id
          (interview_write_of r (some version) "");
    on_delete =
        λ c version. remove_interview env c.user_id c.device_id c.operation.entity_id version;
  }

  abbrev pub note_switch : Switch Note NoteCommand
  note_switch = record {
    decode = f.decode_note;
    invalid_code = "invalid_note";
    result = note_result f;
    on_create = λ c r.
        add_note env c.user_id c.device_id r.application_id
          (note_write_of r none c.operation.entity_id);
    on_update = λ c r version.
        replace_note env c.user_id c.device_id c.operation.entity_id
          (note_write_of r (some version) "");
    on_delete = λ c version. remove_note env c.user_id c.device_id c.operation.entity_id version;
  }

  abbrev pub reminder_switch : Switch Reminder ReminderCommand
  reminder_switch = record {
    decode = f.decode_reminder;
    invalid_code = "invalid_reminder";
    result = reminder_result f;
    on_create = λ c r.
        add_reminder env c.user_id c.device_id (reminder_write_of r none c.operation.entity_id);
    on_update = λ c r version.
        replace_reminder env c.user_id c.device_id c.operation.entity_id
          (reminder_write_of r (some version) "");
    on_delete =
        λ c version. remove_reminder env c.user_id c.device_id c.operation.entity_id version;
  }

  -- `InterviewCommandHandler.Apply`, `NoteCommandHandler.Apply` and `ReminderCommandHandler.Apply`.
  unfoldable pub apply_interview : Command → Answer
  apply_interview c = switch interview_switch c.operation.action c

  unfoldable pub apply_note : Command → Answer
  apply_note c = switch note_switch c.operation.action c

  unfoldable pub apply_reminder : Command → Answer
  apply_reminder c = switch reminder_switch c.operation.action c

  abbrev pub interview_handler : CommandHandler TrackerPayload Store
  interview_handler = record { entity_type = type_interview_round; apply = apply_interview }

  abbrev pub note_handler : CommandHandler TrackerPayload Store
  note_handler = record { entity_type = type_application_note; apply = apply_note }

  abbrev pub reminder_handler : CommandHandler TrackerPayload Store
  reminder_handler = record { entity_type = type_reminder; apply = apply_reminder }

-- A handler's answers among those of all handlers.
abbrev pub widened_result :
    {P : Type 0} → (P → TrackerPayload) → ApplyResult P → ApplyResult TrackerPayload
widened_result g a = record {
  status = a.status;
  applied_version = a.applied_version;
  error_code = a.error_code;
  server_entity = Option.map g a.server_entity;
}

abbrev pub widened :
    {P : Type 0}
    → (P → TrackerPayload)
    → Result Fault (ApplyResult P)
    → Result Fault (ApplyResult TrackerPayload)
widened g (ok a) = ok (widened_result g a)
widened g (err e) = err e

abbrev pub widen :
    {P : Type 0}
    → (P → TrackerPayload)
    → CommandHandler P Store
    → CommandHandler TrackerPayload Store
widen g h = record {
  entity_type = h.entity_type;
  apply = λ c t. (widened g (h.apply c t).0, (h.apply c t).1);
}

-- `Commands`.
unfoldable pub commands : ChildFormats → Env → List (CommandHandler TrackerPayload Store)
commands f env =
    widen application (application_handler f.formats env)
    ∷ interview_handler f env
    ∷ note_handler f env
    ∷ reminder_handler f env
    ∷ []
