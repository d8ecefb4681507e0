-- ===== src/Tests/Children.antt =====
-- Commands on interview rounds, notes and reminders.
use cv_agent.Base.{ℕ, ◌≡◌, refl, ◌⊎◌, none, some, [], ◌∷◌, pos, inc64, str_eq, if◌then◌else◌, ◌&&◌}
use cv_agent.Db.{ok, err, Tx}
use cv_agent.Sync.Changes.{append_change, is_recorded}
use cv_agent.Sync.Types.{create, applied, Command, StoredOperation}
use cv_agent.Sync.Operations.{find}
use cv_agent.Sync.Handlers.{fault}
use cv_agent.Sync.Push.{PushDb, apply_one}
use cv_agent.Tracker.Domain.{
  version_conflict, InterviewWrite, InterviewType, InterviewStatus, Note, NoteType, NoteWrite,
}
use cv_agent.Tracker.Validate.{check_optional}
use cv_agent.Tracker.Store.{Store, find_live}
use cv_agent.Tracker.Children.{
  find_child, replaced_child, replace_child, remove_child, validate_link, belongs_to, rewrite_child,
  clash_elsewhere,
}
use cv_agent.Tracker.Children.Validate.{
  validate_note, valid_note_type, validate_interview, valid_interview_type, valid_interview_status,
}
use cv_agent.Tracker.Children.Kinds.{notes, notes-IsKind}
use cv_agent.Tracker.Children.Checks.{
  interview_checks, note_checks, at_least_one, is_in, between_option, short_option,
}
use cv_agent.Tracker.Children.Moves.{Replaced}
use cv_agent.Tracker.Children.Replaced.{replace_child-Replaced}
use cv_agent.Tracker.SyncAdapter.ChildPayloads.{
  ChildFormats, InterviewCommand, TrackerPayload, interview_write_of, interview_type_text,
  interview_status_text, note_type_text,
}
use cv_agent.Tracker.SyncAdapter.Children.{commands, apply_interview}
use cv_agent.Tracker.SyncAdapter.ChildResults.{apply_one-tracker}
use cv_agent.Tracker.SyncAdapter.Taken.{taken_round-fault, is_taken}
use cv_agent.Tracker.Calls.{perform, run, update_note, delete_note, create_interview}
use cv_agent.Tracker.Calls.Failures.{run_fails}
use cv_agent.Tracker.Calls.Settled.{LinksOf, run-Links}
use cv_agent.Tracker.Calls.Rounds.{DistinctRounds, run-DistinctRounds}
use cv_agent.Tracker.Calls.Columns.{CheckedStore, run-Checked}
use cv_agent.Tests.Applications.{env, one_row}
use cv_agent.Tests.Applied.{codec, formats, attempt}
use cv_agent.Tests.Deletions.{interview, interview_meta}

abbrev note : Note
note = record {
  base = record interview_meta { id = "n" };
  interview_round_id = none;
  note_type = NoteType.general;
  content = "first";
}

abbrev pub tables : Store
tables = record one_row { interviews = interview ∷ []; notes = note ∷ [] }

abbrev start : ℕ → Tx Store
start n = record { store = tables; budget = n }

-- The note is linked to the round of its application.
abbrev linked : NoteWrite
linked = record {
  id = "";
  expected_version = some (pos 4);
  interview_round_id = some "i";
  note_type = NoteType.interview;
  content = "second";
}

abbrev second : Note
second = replaced_child notes env "u" "d" note linked

replace_returns : (replace_child notes env "u" "d" "n" linked (start 20)).0 ≡ ok second
unfolding replace_child validate_note valid_note_type find_child validate_link belongs_to
    rewrite_child clash_elsewhere inc64 append_change is_recorded
replace_returns = refl

replace_child-Replaced_example :
    Replaced notes notes-IsKind env "u" "d" "n" tables linked second
      (replace_child notes env "u" "d" "n" linked (start 20)).1.store
    × (find_child notes "u" "n"
          (replace_child notes env "u" "d" "n" linked (start 20)).1.store.notes
        ≡ (if str_eq "u" "u" && str_eq "n" "n"
            then some second
            else find_child notes "u" "n" (note ∷ [])))
replace_child-Replaced_example =
    replace_child-Replaced notes notes-IsKind env "u" "d" "n" (start 20) linked second "u" "n"
      replace_returns

run-Links_example :
    LinksOf (run env "u" "d" (update_note "n" linked) (start 20)).store
    ⊎ ((run env "u" "d" (update_note "n" linked) (start 20)).budget ≡ 0)
run-Links_example = run-Links env "u" "d" (start 20) ((tt, tt), tt) (update_note "n" linked)

abbrev taken : InterviewWrite
taken = record {
  id = "j";
  expected_version = none;
  round_number = pos 1;
  interview_type = InterviewType.video;
  scheduled_at = none;
  timezone = "";
  duration_minutes = some (pos 60);
  location_or_link = none;
  interviewer = none;
  status = InterviewStatus.scheduled;
}

run-DistinctRounds_example :
    DistinctRounds (run env "u" "d" (create_interview "a" taken) (start 20)).store
    ⊎ ((run env "u" "d" (create_interview "a" taken) (start 20)).budget ≡ 0)
run-DistinctRounds_example =
    run-DistinctRounds env "u" "d" (start 20) (tt, tt) (create_interview "a" taken)

run-Checked_example :
    CheckedStore (run env "u" "d" (create_interview "a" taken) (start 20)).store
    ⊎ ((run env "u" "d" (create_interview "a" taken) (start 20)).budget ≡ 0)
unfolding interview_checks note_checks at_least_one is_in between_option short_option
    interview_type_text interview_status_text note_type_text
run-Checked_example =
    run-Checked env "u" "d" (start 20) (((refl, refl), tt), ((refl, refl), tt), tt)
      (create_interview "a" taken)

-- The version is an old one.
old_version : (perform env "u" "d" (delete_note "n" (pos 3)) (start 20)).0 ≡ some version_conflict
unfolding remove_child find_child
old_version = refl

run_fails_example :
    ((run env "u" "d" (delete_note "n" (pos 3)) (start 20)).store ≡ tables)
    ⊎ ((run env "u" "d" (delete_note "n" (pos 3)) (start 20)).budget ≡ 0)
run_fails_example =
    run_fails env "u" "d" (start 20) version_conflict (delete_note "n" (pos 3)) old_version

abbrev request : InterviewCommand
request = record {
  application_id = "a";
  round_number = pos 1;
  interview_type = "video";
  scheduled_at = none;
  timezone = "";
  duration_minutes = some (pos 60);
  location_or_link = none;
  interviewer = none;
  status = "scheduled";
}

abbrev child_formats : ChildFormats
child_formats = record {
  formats = formats;
  decode_interview = λ s. some request;
  decode_note = λ s. none;
  decode_reminder = λ s. none;
}

abbrev command : Command
command = record {
  user_id = "u";
  device_id = "d";
  operation = record {
    operation_id = "op";
    entity_type = "interview_round";
    entity_id = "j";
    action = create;
    expected_version = none;
    payload = "{}";
  };
}

abbrev db : PushDb TrackerPayload Store
db = record { business = tables; operations = [] }

apply_one-tracker_example :
    ((apply_one (commands child_formats env) codec attempt command db).1.business ≡ tables)
    ⊎ ((st : StoredOperation TrackerPayload) × (find "u" "op" db.operations ≡ none)
        × (find "u" "op"
              (apply_one (commands child_formats env) codec attempt command db).1.operations
            ≡ some st)
        × (st.status ≡ applied))
apply_one-tracker_example = apply_one-tracker child_formats env codec attempt command db

taken_round-fault_example : (apply_interview child_formats env command (start 20)).0 ≡ err fault
unfolding validate_interview valid_interview_type valid_interview_status check_optional
    interview_write_of find_live is_taken
taken_round-fault_example =
    taken_round-fault child_formats env command (start 20) request
      (record taken { timezone = "Asia/Shanghai" }) refl refl refl refl refl
