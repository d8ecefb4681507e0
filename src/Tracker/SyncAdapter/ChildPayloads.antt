-- ===== src/Tracker/SyncAdapter/ChildPayloads.antt =====
-- internal/modules/tracker/syncadapter: what comes in a push command on an interview round, a note or
-- a reminder, and what goes back (interview_command_handler.go, note_command_handler.go,
-- reminder_command_handler.go, payloads.go).
use cv_agent.Base.{ℕ, String, Option, none, some, ℤ, str_eq, if◌then◌else◌}
use cv_agent.Tracker.Domain.{
  InterviewType, InterviewStatus, InterviewRound, InterviewWrite, NoteType, Note, NoteWrite,
  ReminderStatus, Reminder, ReminderWrite,
}
use cv_agent.Tracker.SyncAdapter.Payloads.{Formats, ApplicationPayload}

-- The conversions of a text to a named string type, and back.
unfoldable pub interview_type_of : String → InterviewType
interview_type_of s =
    if str_eq s "phone"
    then InterviewType.phone
    else if str_eq s "video"
    then InterviewType.video
    else if str_eq s "onsite"
    then InterviewType.onsite
    else if str_eq s "hr"
    then InterviewType.hr
    else if str_eq s "technical"
    then InterviewType.technical
    else if str_eq s "case"
    then InterviewType.case_study
    else if str_eq s "other"
    then InterviewType.other
    else InterviewType.unknown s

unfoldable pub interview_type_text : InterviewType → String
interview_type_text InterviewType.phone = "phone"
interview_type_text InterviewType.video = "video"
interview_type_text InterviewType.onsite = "onsite"
interview_type_text InterviewType.hr = "hr"
interview_type_text InterviewType.technical = "technical"
interview_type_text InterviewType.case_study = "case"
interview_type_text InterviewType.other = "other"
interview_type_text (InterviewType.unknown s) = s

unfoldable pub interview_status_of : String → InterviewStatus
interview_status_of s =
    if str_eq s "scheduled"
    then InterviewStatus.scheduled
    else if str_eq s "completed"
    then InterviewStatus.completed
    else if str_eq s "canceled"
    then InterviewStatus.canceled
    else InterviewStatus.unknown s

unfoldable pub interview_status_text : InterviewStatus → String
interview_status_text InterviewStatus.scheduled = "scheduled"
interview_status_text InterviewStatus.completed = "completed"
interview_status_text InterviewStatus.canceled = "canceled"
interview_status_text (InterviewStatus.unknown s) = s

unfoldable pub note_type_of : String → NoteType
note_type_of s =
    if str_eq s "general"
    then NoteType.general
    else if str_eq s "interview"
    then NoteType.interview
    else if str_eq s "follow_up"
    then NoteType.follow_up
    else if str_eq s "company"
    then NoteType.company
    else NoteType.unknown s

unfoldable pub note_type_text : NoteType → String
note_type_text NoteType.general = "general"
note_type_text NoteType.interview = "interview"
note_type_text NoteType.follow_up = "follow_up"
note_type_text NoteType.company = "company"
note_type_text (NoteType.unknown s) = s

unfoldable pub reminder_status_of : String → ReminderStatus
reminder_status_of s =
    if str_eq s "scheduled"
    then ReminderStatus.scheduled
    else if str_eq s "delivered"
    then ReminderStatus.delivered
    else if str_eq s "dismissed"
    then ReminderStatus.dismissed
    else if str_eq s "canceled"
    then ReminderStatus.canceled
    else ReminderStatus.unknown s

unfoldable pub reminder_status_text : ReminderStatus → String
reminder_status_text ReminderStatus.scheduled = "scheduled"
reminder_status_text ReminderStatus.delivered = "delivered"
reminder_status_text ReminderStatus.dismissed = "dismissed"
reminder_status_text ReminderStatus.canceled = "canceled"
reminder_status_text (ReminderStatus.unknown s) = s

pub record InterviewCommand : Type 0 where
  pub application_id : String
  pub round_number : ℤ
  pub interview_type : String
  pub scheduled_at : Option ℕ
  pub timezone : String
  pub duration_minutes : Option ℤ
  pub location_or_link : Option String
  pub interviewer : Option String
  pub status : String

-- `toDomain`, with the identifier that the caller sets.
unfoldable pub interview_write_of : InterviewCommand → Option ℤ → String → InterviewWrite
unfolding interview_type_of interview_status_of
interview_write_of c expected id = record {
  id = id;
  expected_version = expected;
  round_number = c.round_number;
  interview_type = interview_type_of c.interview_type;
  scheduled_at = c.scheduled_at;
  timezone = c.timezone;
  duration_minutes = c.duration_minutes;
  location_or_link = c.location_or_link;
  interviewer = c.interviewer;
  status = interview_status_of c.status;
}

pub record NoteCommand : Type 0 where
  pub application_id : String
  pub interview_round_id : Option String
  pub note_type : String
  pub content : String

unfoldable pub note_write_of : NoteCommand → Option ℤ → String → NoteWrite
unfolding note_type_of
note_write_of c expected id = record {
  id = id;
  expected_version = expected;
  interview_round_id = c.interview_round_id;
  note_type = note_type_of c.note_type;
  content = c.content;
}

pub record ReminderCommand : Type 0 where
  pub application_id : String
  pub interview_round_id : Option String
  pub title : String
  pub remind_at : Option ℕ
  pub status : String
  pub delivered_at : Option ℕ

unfoldable pub reminder_write_of : ReminderCommand → Option ℤ → String → ReminderWrite
unfolding reminder_status_of
reminder_write_of c expected id = record {
  id = id;
  expected_version = expected;
  application_id = c.application_id;
  interview_round_id = c.interview_round_id;
  title = c.title;
  remind_at = elim c.remind_at [ none ↦ 0 | some t ↦ t ];
  status = reminder_status_of c.status;
  delivered_at = c.delivered_at;
}

-- The strict JSON decoding of `decodePayload` for these commands.
pub record ChildFormats : Type 0 where
  pub formats : Formats
  pub open formats use {rfc3339}
  pub decode_interview : String → Option InterviewCommand
  pub decode_note : String → Option NoteCommand
  pub decode_reminder : String → Option ReminderCommand

-- `rfc3339Ptr`.
abbrev pub rfc3339_option : ChildFormats → Option ℕ → Option String
rfc3339_option f none = none
rfc3339_option f (some t) = some (f.rfc3339 t)

pub record InterviewPayload : Type 0 where
  pub id : String
  pub application_id : String
  pub round_number : ℤ
  pub interview_type : String
  pub scheduled_at : Option String
  pub timezone : String
  pub duration_minutes : Option ℤ
  pub location_or_link : Option String
  pub interviewer : Option String
  pub status : String
  pub entity_version : ℤ
  pub created_at : String
  pub updated_at : String

-- `interviewPayloadOf`.
unfoldable pub interview_payload_of : ChildFormats → InterviewRound → InterviewPayload
unfolding interview_type_text interview_status_text
interview_payload_of f i = record {
  id = i.id;
  application_id = i.application_id;
  round_number = i.round_number;
  interview_type = interview_type_text i.interview_type;
  scheduled_at = rfc3339_option f i.scheduled_at;
  timezone = i.timezone;
  duration_minutes = i.duration_minutes;
  location_or_link = i.location_or_link;
  interviewer = i.interviewer;
  status = interview_status_text i.status;
  entity_version = i.entity_version;
  created_at = f.rfc3339 i.created_at;
  updated_at = f.rfc3339 i.updated_at;
}

pub record NotePayload : Type 0 where
  pub id : String
  pub application_id : String
  pub interview_round_id : Option String
  pub note_type : String
  pub content : String
  pub entity_version : ℤ
  pub created_at : String
  pub updated_at : String

-- `notePayloadOf`.
unfoldable pub note_payload_of : ChildFormats → Note → NotePayload
unfolding note_type_text
note_payload_of f n = record {
  id = n.id;
  application_id = n.application_id;
  interview_round_id = n.interview_round_id;
  note_type = note_type_text n.note_type;
  content = n.content;
  entity_version = n.entity_version;
  created_at = f.rfc3339 n.created_at;
  updated_at = f.rfc3339 n.updated_at;
}

pub record ReminderPayload : Type 0 where
  pub id : String
  pub application_id : String
  pub interview_round_id : Option String
  pub title : String
  pub remind_at : String
  pub status : String
  pub delivered_at : Option String
  pub entity_version : ℤ
  pub created_at : String
  pub updated_at : String

-- `reminderPayloadOf`.
unfoldable pub reminder_payload_of : ChildFormats → Reminder → ReminderPayload
unfolding reminder_status_text
reminder_payload_of f m = record {
  id = m.id;
  application_id = m.application_id;
  interview_round_id = m.interview_round_id;
  title = m.title;
  remind_at = f.rfc3339 m.remind_at;
  status = reminder_status_text m.status;
  delivered_at = rfc3339_option f m.delivered_at;
  entity_version = m.entity_version;
  created_at = f.rfc3339 m.created_at;
  updated_at = f.rfc3339 m.updated_at;
}

-- What an answer can hold: `ServerEntity any`.
pub data TrackerPayload : Type 0 where
  application : ApplicationPayload → TrackerPayload
  interview : InterviewPayload → TrackerPayload
  note : NotePayload → TrackerPayload
  reminder : ReminderPayload → TrackerPayload
