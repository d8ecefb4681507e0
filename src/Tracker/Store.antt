-- ===== src/Tracker/Store.antt =====
-- The tables of the tracker and the statements of internal/modules/tracker/postgres
-- (application_repo.go, status_event_repo.go, application_cascade.go), with the keys of
-- migrations/00004_application_tracker.sql. The advisory locks and `FOR UPDATE` change no table.
use mathlib.Core.Option
use cv_agent.Base.{
  ◌≡◌, refl, str_eq_self, ℕ, String, Bool, true, false, not, ◌&&◌, ◌||◌, Option, none, some, List,
  [], ◌∷◌, ℤ, eqb_ℤ, inc64, below_one, str_eq, if◌then◌else◌,
}
use cv_agent.Db.{or_fail, M, exec, query, ◌>>=◌, pure, fail}
use cv_agent.Sync.Types.{EntityType}
use cv_agent.Sync.Changes.{upsert, delete, Change, ChangeLog, append_change}
use cv_agent.Tracker.Domain.{
  Error, not_found, version_conflict, duplicate, internal, Application, StatusEvent, InterviewRound,
  Note, Reminder,
}
use cv_agent.Tracker.Validate.{is_some}

-- The shared columns of the three kinds of children are `ChildMeta`.
pub record Store : Type 0 where
  pub applications : List Application
  pub events : List StatusEvent
  pub interviews : List InterviewRound
  pub notes : List Note
  pub reminders : List Reminder
  pub changes : ChangeLog

-- A statement that could not run, or that another constraint refuses, is an internal error.
abbrev pub Act : Type 0 → Type 0
Act A = M Store Error A

abbrev pub opt_eq : Option String → Option String → Bool
opt_eq none none = true
opt_eq (some s) (some t) = str_eq s t
opt_eq _ _ = false

pub opt_eq_self : (o : Option String) → opt_eq o o ≡ true
opt_eq_self none = refl
opt_eq_self (some s) = str_eq_self s

-- The row that a user sees: its own, by its id, and not deleted.
abbrev pub is_live : String → String → Application → Bool
is_live user id a = str_eq a.user_id user && str_eq a.id id && not (is_some a.deleted_at)

unfoldable pub find_live : String → String → List Application → Option Application
find_live user id [] = none
find_live user id (a ∷ rest) = if is_live user id a then some a else find_live user id rest

-- `LoadForUpdate`.
abbrev pub load_for_update : String → String → Act Application
load_for_update user id = do
  found ← query internal (λ s. find_live user id s.applications)
  or_fail not_found found

-- The primary key, and the index on (user_id, dedupe_key) over live rows.
abbrev pub collides : Application → Application → Bool
collides a row =
    str_eq row.id a.id
    || (str_eq row.user_id a.user_id
        && is_some a.dedupe_key
        && opt_eq row.dedupe_key a.dedupe_key
        && not (is_some row.deleted_at)
        && not (is_some a.deleted_at))

unfoldable pub has_collision : Application → List Application → Bool
has_collision a [] = false
has_collision a (row ∷ rest) = collides a row || has_collision a rest

-- `Insert`: a unique violation is `ErrDuplicate`.
abbrev pub insert_application : Application → Act (Unit {0})
insert_application a = exec internal duplicate λ s.
    if has_collision a s.applications
    then none
    else some (tt, record s { applications = a ∷ s.applications })

-- The row of the statement: live, and of the version before the new one (`entity_version = $3 - 1`).
abbrev pub is_before : Application → Application → Bool
is_before a row = is_live a.user_id a.id row && eqb_ℤ (inc64 row.entity_version) a.entity_version

-- The columns that `updateApplication` sets.
abbrev pub update_columns : Application → Application → Application
update_columns a row = record row {
  entity_version = a.entity_version;
  updated_at = a.updated_at;
  last_modified_device_id = a.last_modified_device_id;
  jd_id = a.jd_id;
  resume_id = a.resume_id;
  company_name = a.company_name;
  role_name = a.role_name;
  jd_title_snapshot = a.jd_title_snapshot;
  resume_title_snapshot = a.resume_title_snapshot;
  resume_content_hash_snapshot = a.resume_content_hash_snapshot;
  delivery_method = a.delivery_method;
  target_url = a.target_url;
  applied_at = a.applied_at;
  status = a.status;
  pending_confirmation = a.pending_confirmation;
  company_business = a.company_business;
  role_summary = a.role_summary;
  company_culture = a.company_culture;
  rejection_reason = a.rejection_reason;
}

-- The columns that `softDeleteApplication` sets; both instants are `$4`.
abbrev pub delete_columns : Application → Application → Application
delete_columns a row = record row {
  entity_version = a.entity_version;
  updated_at = elim a.deleted_at [ none ↦ row.updated_at | some t ↦ t ];
  deleted_at = a.deleted_at;
  last_modified_device_id = a.last_modified_device_id;
}

-- An UPDATE of the rows `is_before a`; `none` is zero rows affected.
unfoldable pub rewrite :
    (Application → Application) → Application → List Application → Option (List Application)
rewrite f a [] = none
rewrite f a (row ∷ rest) =
    let later = Option.map (λ r. row ∷ r) (rewrite f a rest) in
    if is_before a row then some (f row ∷ rest) else later

abbrev pub if_affected : Bool → Act (Unit {0})
if_affected true = pure tt
if_affected false = fail version_conflict

-- `UpdateAggregate` and `SoftDelete`. A version below 1 comes of the wrap-around alone: there
-- `$3 - 1` is out of range, which aborts the transaction, as the CHECK on the column would.
abbrev pub rewrite_application : (Application → Application) → Application → Act (Unit {0})
rewrite_application f a = do
  affected ← exec internal internal (λ s.
      if below_one a.entity_version
      then none
      else some (elim (rewrite f a s.applications) [
        | none ↦ (false, s)
        | some rows ↦ (true, record s { applications = rows })
      ]))
  if_affected affected

abbrev pub update_aggregate : Application → Act (Unit {0})
update_aggregate a = rewrite_application (update_columns a) a

abbrev pub soft_delete : Application → Act (Unit {0})
soft_delete a = rewrite_application (delete_columns a) a

-- `FindStatusEventByOperation`; `none` is `ErrNotFound`.
unfoldable pub find_event : String → String → List StatusEvent → Option StatusEvent
find_event user op [] = none
find_event user op (e ∷ rest) =
    if str_eq e.user_id user && str_eq e.operation_id op then some e else find_event user op rest

-- The primary key, and UNIQUE (user_id, operation_id).
unfoldable pub has_event : StatusEvent → List StatusEvent → Bool
has_event e [] = false
has_event e (row ∷ rest) =
    str_eq row.id e.id
    || (str_eq row.user_id e.user_id && str_eq row.operation_id e.operation_id)
    || has_event e rest

-- `InsertStatusEvent` passes a unique violation on as it is.
abbrev pub insert_status_event : StatusEvent → Act (Unit {0})
insert_status_event e =
    exec internal internal
      λ s. if has_event e s.events then none else some (tt, record s { events = e ∷ s.events })

-- `SyncChange` through internal/modules/tracker/recorder_adapter.go.
abbrev pub change_of : EntityType → String → String → ℤ → Bool → ℕ → Change
change_of type user id version deleted now = record {
  user_id = user;
  entity_type = type;
  entity_id = id;
  entity_version = version;
  operation = if deleted then delete else upsert;
  changed_at = now;
}

abbrev pub record_change : Change → Act (Unit {0})
record_change c = exec internal internal λ s. elim (append_change c s.changes) [
  | none ↦ none
  | some log ↦ some (tt, record s { changes = log })
]
