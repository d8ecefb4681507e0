-- ===== src/Tracker/Children/Validate.antt =====
-- internal/modules/tracker/domain/interview.go, note.go and reminder.go: the validation of the
-- children. `Validate` of an interview round sets a default in its receiver, so a validation
-- returns the write that the command goes on with.
use cv_agent.Base.{
  ℕ, String, Bool, true, false, not, ◌||◌, Option, none, some, ℤ, below_one, above, is_empty,
  rune_count, ltb, ◌==◌, if◌then◌else◌,
}
use cv_agent.Db.{Result, ok, err}
use cv_agent.Tracker.Domain.{
  Error, invalid_input, InterviewType, InterviewStatus, InterviewWrite, NoteType, NoteWrite,
  ReminderStatus, ReminderWrite,
}
use cv_agent.Tracker.Validate.{check_optional}

abbrev pub max_timezone : ℕ
max_timezone = 64

abbrev pub max_location : ℕ
max_location = 4096

abbrev pub max_interviewer : ℕ
max_interviewer = 240

abbrev pub max_duration : ℕ
max_duration = 1440

abbrev pub default_timezone : String
default_timezone = "Asia/Shanghai"

abbrev pub max_note_content : ℕ
max_note_content = 50000

abbrev pub max_reminder_title : ℕ
max_reminder_title = 240

unfoldable pub valid_interview_type : InterviewType → Bool
valid_interview_type (InterviewType.unknown _) = false
valid_interview_type _ = true

unfoldable pub valid_interview_status : InterviewStatus → Bool
valid_interview_status (InterviewStatus.unknown _) = false
valid_interview_status _ = true

unfoldable pub valid_note_type : NoteType → Bool
valid_note_type (NoteType.unknown _) = false
valid_note_type _ = true

unfoldable pub valid_reminder_status : ReminderStatus → Bool
valid_reminder_status (ReminderStatus.unknown _) = false
valid_reminder_status _ = true

-- `ExpectedVersion != nil && *ExpectedVersion < 1`.
abbrev pub bad_version : Option ℤ → Bool
bad_version none = false
bad_version (some v) = below_one v

abbrev pub bad_duration : Option ℤ → Bool
bad_duration none = false
bad_duration (some d) = below_one d || above max_duration d

-- `length < 1 || length > limit`.
abbrev pub bad_length : ℕ → String → Bool
bad_length limit s = ltb (rune_count s) 1 || ltb limit (rune_count s)

-- `if w.Timezone == "" { w.Timezone = defaultTimezone }`.
abbrev pub with_timezone : InterviewWrite → InterviewWrite
with_timezone w = record w {
  timezone = if is_empty w.timezone then default_timezone else w.timezone;
}

unfoldable pub validate_interview : InterviewWrite → Result Error InterviewWrite
validate_interview w =
    if bad_version w.expected_version
    then err invalid_input
    else if below_one w.round_number
    then err invalid_input
    else if not (valid_interview_type w.interview_type) || not (valid_interview_status w.status)
    then err invalid_input
    else if ltb max_timezone (rune_count (with_timezone w).timezone)
    then err invalid_input
    else if bad_duration w.duration_minutes
    then err invalid_input
    else if not (check_optional w.location_or_link max_location)
        || not (check_optional w.interviewer max_interviewer)
    then err invalid_input
    else ok (with_timezone w)

unfoldable pub validate_note : NoteWrite → Result Error NoteWrite
validate_note w =
    if bad_version w.expected_version
    then err invalid_input
    else if not (valid_note_type w.note_type)
    then err invalid_input
    else if bad_length max_note_content w.content
    then err invalid_input
    else ok w

unfoldable pub validate_reminder : ReminderWrite → Result Error ReminderWrite
validate_reminder w =
    if bad_version w.expected_version
    then err invalid_input
    else if bad_length max_reminder_title w.title
    then err invalid_input
    else if w.remind_at == 0
    then err invalid_input
    else if not (valid_reminder_status w.status)
    then err invalid_input
    else ok w
