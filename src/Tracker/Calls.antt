-- ===== src/Tracker/Calls.antt =====
-- The commands of internal/modules/tracker/application, as one type: what a caller can run in a
-- transaction of its own, and what the sync handlers run in theirs.
pub mod Applications
pub mod Links
pub mod Numbers
pub mod Kept
pub mod Settled
pub mod Rounds
pub mod Columns
pub mod Failures
use cv_agent.Base.{String, ℤ, Option, none, some}
use cv_agent.Db.{Result, ok, err, Tx}
use cv_agent.Tracker.Domain.{
  Error, Create, Update, Transition, InterviewWrite, NoteWrite, ReminderWrite,
}
use cv_agent.Tracker.Store.{Store}
use cv_agent.Tracker.Application.{Env, create_in_tx, update_in_tx, delete_in_tx, transition_in_tx}
use cv_agent.Tracker.Children.Kinds.{
  add_interview, replace_interview, remove_interview, add_note, replace_note, remove_note,
  add_reminder, replace_reminder, remove_reminder,
}

pub data Call : Type 0 where
  create_application : Create → Call
  update_application : String → Update → Call
  delete_application : String → ℤ → Call
  transition_application : String → Transition → Call
  create_interview : String → InterviewWrite → Call
  update_interview : String → InterviewWrite → Call
  delete_interview : String → ℤ → Call
  create_note : String → NoteWrite → Call
  update_note : String → NoteWrite → Call
  delete_note : String → ℤ → Call
  create_reminder : ReminderWrite → Call
  update_reminder : String → ReminderWrite → Call
  delete_reminder : String → ℤ → Call

-- What a command answers: its error, if it has one.
abbrev pub error_of : {A : Type 0} → Result Error A → Option Error
error_of (ok a) = none
error_of (err e) = some e

abbrev pub outcome : {A : Type 0} → Result Error A × Tx Store → Option Error × Tx Store
outcome (r, t) = (error_of r, t)

module _ (env : Env) (user device : String) where
  abbrev pub perform : Call → Tx Store → Option Error × Tx Store
  perform (create_application c) t = outcome (create_in_tx env user device c t)
  perform (update_application app u) t = outcome (update_in_tx env user device app u t)
  perform (delete_application app v) t = outcome (delete_in_tx env user device app v t)
  perform (transition_application app x) t = outcome (transition_in_tx env user device app x t)
  perform (create_interview app w) t = outcome (add_interview env user device app w t)
  perform (update_interview id w) t = outcome (replace_interview env user device id w t)
  perform (delete_interview id v) t = outcome (remove_interview env user device id v t)
  perform (create_note app w) t = outcome (add_note env user device app w t)
  perform (update_note id w) t = outcome (replace_note env user device id w t)
  perform (delete_note id v) t = outcome (remove_note env user device id v t)
  perform (create_reminder w) t = outcome (add_reminder env user device w t)
  perform (update_reminder id w) t = outcome (replace_reminder env user device id w t)
  perform (delete_reminder id v) t = outcome (remove_reminder env user device id v t)

  -- The transaction after a command.
  abbrev pub run : Call → Tx Store → Tx Store
  run c t = (perform c t).1
