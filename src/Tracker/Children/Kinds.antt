-- ===== src/Tracker/Children/Kinds.antt =====
-- The three kinds of children: internal/modules/tracker/application/interview_service.go,
-- interview_write.go, note_service.go, note_write.go, reminder_service.go and reminder_write.go over
-- internal/modules/tracker/postgres/interview_repo.go, note_repo.go and reminder_repo.go.
use cv_agent.Base.{
  String, refl, Bool, true, false, not, ◌&&◌, none, ℤ, above, eqb_ℤ, is_empty, str_eq,
}
use cv_agent.Db.{◌>>=◌, ◌>>◌}
use cv_agent.Sync.Changes.{type_interview_round, type_application_note, type_reminder}
use cv_agent.Tracker.Domain.{
  invalid_input, InterviewRound, InterviewWrite, Note, NoteWrite, Reminder, ReminderWrite,
  ChildMeta,
}
use cv_agent.Tracker.Validate.{is_some}
use cv_agent.Tracker.Store.{Act}
use cv_agent.Tracker.Cascade.{with_interview, with_note, with_reminder}
use cv_agent.Tracker.Application.{Env, require}
use cv_agent.Tracker.Children.{
  Kind, IsKind, validated, add_valid, add_child, replace_child, remove_child,
}
use cv_agent.Tracker.Children.Validate.{validate_interview, validate_note, validate_reminder}

abbrev pub new_interview : ChildMeta → InterviewWrite → InterviewRound
new_interview m w = record {
  base = m;
  round_number = w.round_number;
  interview_type = w.interview_type;
  scheduled_at = w.scheduled_at;
  timezone = w.timezone;
  duration_minutes = w.duration_minutes;
  location_or_link = w.location_or_link;
  interviewer = w.interviewer;
  status = w.status;
}

abbrev pub replaced_interview : InterviewWrite → InterviewRound → InterviewRound
replaced_interview w i = record i {
  round_number = w.round_number;
  interview_type = w.interview_type;
  scheduled_at = w.scheduled_at;
  timezone = w.timezone;
  duration_minutes = w.duration_minutes;
  location_or_link = w.location_or_link;
  interviewer = w.interviewer;
  status = w.status;
}

-- The columns of `updateInterview`.
abbrev pub interview_columns : InterviewRound → InterviewRound → InterviewRound
interview_columns i row = record row {
  round_number = i.round_number;
  interview_type = i.interview_type;
  scheduled_at = i.scheduled_at;
  timezone = i.timezone;
  duration_minutes = i.duration_minutes;
  location_or_link = i.location_or_link;
  interviewer = i.interviewer;
  status = i.status;
}

-- The index on (application_id, round_number) over live rows.
abbrev pub same_round : InterviewRound → InterviewRound → Bool
same_round i row =
    str_eq row.application_id i.application_id
    && eqb_ℤ row.round_number i.round_number
    && not (is_some row.deleted_at)
    && not (is_some i.deleted_at)

-- `round_number` is a smallint; a validated duration fits its column.
abbrev pub fits_smallint : ℤ → Bool
fits_smallint n = not (above 32767 n)

abbrev pub interviews : Kind InterviewRound InterviewWrite
interviews = record {
  entity_type = type_interview_round;
  base = λ i. i.base;
  with_base = with_interview;
  rows = λ s. s.interviews;
  with_rows = λ l s. record s { interviews = l };
  validate = validate_interview;
  given_id = λ w. w.id;
  expected = λ w. w.expected_version;
  link = λ w. none;
  make = new_interview;
  replace = replaced_interview;
  columns = interview_columns;
  encodes = λ i. fits_smallint i.round_number;
  clashes = same_round;
}

abbrev pub interviews-IsKind : IsKind interviews
interviews-IsKind = record {
  base-with_base = λ x m. refl;
  base-make = λ m w. refl;
  base-replace = λ w x. refl;
  base-columns = λ a x. refl;
  columns-replace = λ w x m. refl;
  rows-with_rows = λ l s. refl;
  rows-changes = λ s c. refl;
  changes-with_rows = λ l s. refl;
}

abbrev pub new_note : ChildMeta → NoteWrite → Note
new_note m w = record {
  base = m;
  interview_round_id = w.interview_round_id;
  note_type = w.note_type;
  content = w.content;
}

abbrev pub replaced_note : NoteWrite → Note → Note
replaced_note w n = record n {
  interview_round_id = w.interview_round_id;
  note_type = w.note_type;
  content = w.content;
}

-- The columns of `updateNote`.
abbrev pub note_columns : Note → Note → Note
note_columns n row = record row {
  interview_round_id = n.interview_round_id;
  note_type = n.note_type;
  content = n.content;
}

abbrev pub notes : Kind Note NoteWrite
notes = record {
  entity_type = type_application_note;
  base = λ n. n.base;
  with_base = with_note;
  rows = λ s. s.notes;
  with_rows = λ l s. record s { notes = l };
  validate = validate_note;
  given_id = λ w. w.id;
  expected = λ w. w.expected_version;
  link = λ w. w.interview_round_id;
  make = new_note;
  replace = replaced_note;
  columns = note_columns;
  encodes = λ n. true;
  clashes = λ n row. false;
}

abbrev pub notes-IsKind : IsKind notes
notes-IsKind = record {
  base-with_base = λ x m. refl;
  base-make = λ m w. refl;
  base-replace = λ w x. refl;
  base-columns = λ a x. refl;
  columns-replace = λ w x m. refl;
  rows-with_rows = λ l s. refl;
  rows-changes = λ s c. refl;
  changes-with_rows = λ l s. refl;
}

abbrev pub new_reminder : ChildMeta → ReminderWrite → Reminder
new_reminder m w = record {
  base = m;
  interview_round_id = w.interview_round_id;
  title = w.title;
  remind_at = w.remind_at;
  status = w.status;
  delivered_at = w.delivered_at;
}

abbrev pub replaced_reminder : ReminderWrite → Reminder → Reminder
replaced_reminder w r = record r {
  interview_round_id = w.interview_round_id;
  title = w.title;
  remind_at = w.remind_at;
  status = w.status;
  delivered_at = w.delivered_at;
}

-- The columns of `updateReminder`.
abbrev pub reminder_columns : Reminder → Reminder → Reminder
reminder_columns m row = record row {
  interview_round_id = m.interview_round_id;
  title = m.title;
  remind_at = m.remind_at;
  status = m.status;
  delivered_at = m.delivered_at;
}

abbrev pub reminders : Kind Reminder ReminderWrite
reminders = record {
  entity_type = type_reminder;
  base = λ m. m.base;
  with_base = with_reminder;
  rows = λ s. s.reminders;
  with_rows = λ l s. record s { reminders = l };
  validate = validate_reminder;
  given_id = λ w. w.id;
  expected = λ w. w.expected_version;
  link = λ w. w.interview_round_id;
  make = new_reminder;
  replace = replaced_reminder;
  columns = reminder_columns;
  encodes = λ m. true;
  clashes = λ m row. false;
}

abbrev pub reminders-IsKind : IsKind reminders
reminders-IsKind = record {
  base-with_base = λ x m. refl;
  base-make = λ m w. refl;
  base-replace = λ w x. refl;
  base-columns = λ a x. refl;
  columns-replace = λ w x m. refl;
  rows-with_rows = λ l s. refl;
  rows-changes = λ s c. refl;
  changes-with_rows = λ l s. refl;
}

module _ (env : Env) (user device : String) where
  -- `InterviewService.CreateInTx`, `ReplaceInTx` and `DeleteInTx`.
  abbrev pub add_interview : String → InterviewWrite → Act InterviewRound
  add_interview = add_child interviews env user device

  abbrev pub replace_interview : String → InterviewWrite → Act InterviewRound
  replace_interview = replace_child interviews env user device

  abbrev pub remove_interview : String → ℤ → Act InterviewRound
  remove_interview = remove_child interviews env user device

  -- The same of `NoteService`.
  abbrev pub add_note : String → NoteWrite → Act Note
  add_note = add_child notes env user device

  abbrev pub replace_note : String → NoteWrite → Act Note
  replace_note = replace_child notes env user device

  abbrev pub remove_note : String → ℤ → Act Note
  remove_note = remove_child notes env user device

  -- The same of `ReminderService`, whose writes name the application.
  unfoldable pub add_reminder : ReminderWrite → Act Reminder
  add_reminder w = do
    w' ← validated (validate_reminder w)
    require (not (is_empty w'.application_id)) invalid_input
    add_valid reminders env user device w'.application_id w'

  abbrev pub replace_reminder : String → ReminderWrite → Act Reminder
  replace_reminder = replace_child reminders env user device

  abbrev pub remove_reminder : String → ℤ → Act Reminder
  remove_reminder = remove_child reminders env user device
