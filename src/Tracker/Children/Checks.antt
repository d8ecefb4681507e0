-- ===== src/Tracker/Children/Checks.antt =====
-- The CHECK constraints on the columns of the children
-- (migrations/00004_application_tracker.sql), which a validated write meets
-- (internal/modules/tracker/domain/interview.go, note.go, reminder.go), but for the one on the version,
-- which the writes do not hold. A text is as the program writes it to the column.
use cv_agent.Base.{
  ℕ, String, ◌≡◌, refl, Bool, true, false, ◌&&◌, ◌||◌, Option, none, some, List, [], ◌∷◌, ℤ, pos,
  negsuc, arith, str_eq, leb, rune_count, below_one,
}
use cv_agent.Db.{ok}
use cv_agent.Tracker.Domain.{
  InterviewType, InterviewStatus, InterviewRound, InterviewWrite, NoteType, Note, NoteWrite,
  ReminderStatus, Reminder, ReminderWrite, ChildMeta,
}
use cv_agent.Tracker.Validate.{check_optional}
use cv_agent.Tracker.Children.Validate.{
  valid_interview_type, valid_interview_status, valid_note_type, valid_reminder_status,
  validate_interview, validate_note, validate_reminder, bad_duration,
}
use cv_agent.Tracker.Children.Kinds.{new_interview, new_note, new_reminder}
use cv_agent.Tracker.SyncAdapter.ChildPayloads.{
  interview_type_text, interview_status_text, note_type_text, reminder_status_text,
}

-- `IN (…)`.
unfoldable pub is_in : List String → String → Bool
is_in [] s = false
is_in (x ∷ xs) s = str_eq s x || is_in xs s

-- `v BETWEEN low AND high`, and the range of a smallint.
unfoldable pub between : ℕ → ℕ → ℤ → Bool
between low high (pos n) = leb low n && leb n high
between low high (negsuc n) = false

unfoldable pub between_option : ℕ → ℕ → Option ℤ → Bool
unfolding between
between_option low high none = true
between_option low high (some v) = between low high v

-- `char_length(v) <= limit`, which a null passes.
unfoldable pub short_option : ℕ → Option String → Bool
short_option limit none = true
short_option limit (some s) = leb (rune_count s) limit

unfoldable pub at_least_one : ℤ → Bool
at_least_one (pos n) = leb 1 n
at_least_one (negsuc n) = false

-- `CHECK (entity_version >= 1)`, which each of the three tables has.
abbrev pub version_check : ChildMeta → Bool
version_check m = at_least_one m.entity_version

-- The other constraints of `interview_rounds`.
unfoldable pub interview_checks : InterviewRound → Bool
interview_checks i =
    at_least_one i.round_number
    && is_in ("phone" ∷ "video" ∷ "onsite" ∷ "hr" ∷ "technical" ∷ "case" ∷ "other" ∷ [])
        (interview_type_text i.interview_type)
    && between_option 1 1440 i.duration_minutes
    && short_option 4096 i.location_or_link
    && short_option 240 i.interviewer
    && is_in ("scheduled" ∷ "completed" ∷ "canceled" ∷ []) (interview_status_text i.status)

-- The other constraint of `application_notes`.
unfoldable pub note_checks : Note → Bool
note_checks n =
    is_in ("general" ∷ "interview" ∷ "follow_up" ∷ "company" ∷ []) (note_type_text n.note_type)

-- The other constraints of `reminders`.
unfoldable pub reminder_checks : Reminder → Bool
reminder_checks m =
    leb 1 (rune_count m.title)
    && leb (rune_count m.title) 240
    && is_in ("scheduled" ∷ "delivered" ∷ "dismissed" ∷ "canceled" ∷ [])
        (reminder_status_text m.status)

interview_type_checks :
    (t : InterviewType)
    → valid_interview_type t ≡ true
    → is_in
        ("phone" ∷ "video" ∷ "onsite" ∷ "hr" ∷ "technical" ∷ "case" ∷ "other" ∷ [])
        (interview_type_text t)
      ≡ true
unfolding valid_interview_type interview_type_text is_in
interview_type_checks (InterviewType.unknown s) h = cc
interview_type_checks InterviewType.phone h = refl
interview_type_checks _ h = refl

interview_status_checks :
    (s : InterviewStatus)
    → valid_interview_status s ≡ true
    → is_in ("scheduled" ∷ "completed" ∷ "canceled" ∷ []) (interview_status_text s) ≡ true
unfolding valid_interview_status interview_status_text is_in
interview_status_checks (InterviewStatus.unknown s) h = cc
interview_status_checks InterviewStatus.scheduled h = refl
interview_status_checks _ h = refl

note_type_checks :
    (t : NoteType)
    → valid_note_type t ≡ true
    → is_in ("general" ∷ "interview" ∷ "follow_up" ∷ "company" ∷ []) (note_type_text t) ≡ true
unfolding valid_note_type note_type_text is_in
note_type_checks (NoteType.unknown s) h = cc
note_type_checks NoteType.general h = refl
note_type_checks _ h = refl

reminder_status_checks :
    (s : ReminderStatus)
    → valid_reminder_status s ≡ true
    → is_in ("scheduled" ∷ "delivered" ∷ "dismissed" ∷ "canceled" ∷ []) (reminder_status_text s)
      ≡ true
unfolding valid_reminder_status reminder_status_text is_in
reminder_status_checks (ReminderStatus.unknown s) h = cc
reminder_status_checks ReminderStatus.scheduled h = refl
reminder_status_checks _ h = refl

duration_checks : (d : Option ℤ) → bad_duration d ≡ false → between_option 1 1440 d ≡ true
unfolding between_option
duration_checks none h = refl
duration_checks (some d) h = ground arith

optional_checks :
    (limit : ℕ) (v : Option String) → check_optional v limit ≡ true → short_option limit v ≡ true
unfolding check_optional short_option
optional_checks limit none h = refl
optional_checks limit (some s) h = h

pub at_least_one-below_one : (n : ℤ) → below_one n ≡ false → at_least_one n ≡ true
unfolding at_least_one
at_least_one-below_one (pos n) h = ground arith
at_least_one-below_one (negsuc n) h = cc

-- A validated write makes a row that meets the constraints of its own columns.
pub validate_interview-checks :
    (w : InterviewWrite) {w' : InterviewWrite}
    → validate_interview w ≡ ok w'
    → (m : ChildMeta) → interview_checks (new_interview m w') ≡ true
unfolding validate_interview interview_checks
validate_interview-checks w {w'} h m = ground (
  arith,
  at_least_one-below_one w.round_number,
  interview_type_checks w.interview_type,
  interview_status_checks w.status,
  duration_checks w.duration_minutes,
  optional_checks 4096 w.location_or_link,
  optional_checks 240 w.interviewer,
)

pub validate_note-checks :
    (w : NoteWrite) {w' : NoteWrite}
    → validate_note w ≡ ok w'
    → (m : ChildMeta) → note_checks (new_note m w') ≡ true
unfolding validate_note note_checks
validate_note-checks w {w'} h m = ground (arith, note_type_checks w.note_type)

pub validate_reminder-checks :
    (w : ReminderWrite) {w' : ReminderWrite}
    → validate_reminder w ≡ ok w'
    → (m : ChildMeta) → reminder_checks (new_reminder m w') ≡ true
unfolding validate_reminder reminder_checks
validate_reminder-checks w {w'} h m = ground (arith, reminder_status_checks w.status)
