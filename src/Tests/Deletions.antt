-- ===== src/Tests/Deletions.antt =====
-- The deletion of an application with an interview round.
use cv_agent.Base.{◌≡◌, refl, none, some, [], ◌∷◌, pos, inc64}
use cv_agent.Db.{ok, Tx}
use cv_agent.Sync.Changes.{append_change, is_recorded}
use cv_agent.Tracker.Domain.{ChildMeta, InterviewType, InterviewStatus, InterviewRound, Application}
use cv_agent.Tracker.Store.{Store, find_live, rewrite}
use cv_agent.Tracker.Cascade.{delete_children, soft_delete_children, record_deleted_children}
use cv_agent.Tracker.Application.{deleted_application, delete_in_tx}
use cv_agent.Tracker.Application.Childless.{Childless, delete_in_tx-Childless}
use cv_agent.Tests.Applications.{env, row, one_row}

abbrev pub interview_meta : ChildMeta
interview_meta = record {
  id = "i";
  user_id = "u";
  entity_version = pos 4;
  created_at = 2;
  updated_at = 2;
  deleted_at = none;
  last_modified_device_id = none;
  application_id = "a";
}

abbrev pub interview : InterviewRound
interview = record {
  base = interview_meta;
  round_number = pos 1;
  interview_type = InterviewType.phone;
  scheduled_at = none;
  timezone = "Asia/Shanghai";
  duration_minutes = none;
  location_or_link = none;
  interviewer = none;
  status = InterviewStatus.scheduled;
}

abbrev start : Tx Store
start = record { store = record one_row { interviews = interview ∷ [] }; budget = 20 }

abbrev deleted : Application
deleted = deleted_application env "u" "d" row

delete_returns : (delete_in_tx env "u" "d" "a" (pos 1) start).0 ≡ ok deleted
unfolding delete_in_tx find_live rewrite inc64 soft_delete_children delete_children append_change
    is_recorded record_deleted_children
delete_returns = refl

delete_in_tx-Childless_example :
    (deleted.entity_version ≡ inc64 (pos 1))
    × (deleted.deleted_at ≡ some 500)
    × Childless "u" "a" (delete_in_tx env "u" "d" "a" (pos 1) start).1.store
delete_in_tx-Childless_example =
    delete_in_tx-Childless env "u" "d" "a" (pos 1) start deleted delete_returns
