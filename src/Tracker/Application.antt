-- ===== src/Tracker/Application.antt =====
-- internal/modules/tracker/application: the commands on applications inside a transaction
-- (application_service.go, application_write.go, transition.go, asset_snapshots.go, ports.go).
pub mod Clean
pub mod Rows
pub mod Steps
pub mod Moves
pub mod Retry
pub mod Duplicates
pub mod Childless
use cv_agent.Base.{
  ℕ, zero, suc, ◌+◌, String, Bool, true, false, not, ◌&&◌, ◌||◌, Option, none, some, List, [], ◌∷◌,
  ℤ, pos, eqb_ℤ, inc64, is_empty, str_eq, ◌==◌, if◌then◌else◌,
}
use cv_agent.Db.{Result, ok, err, Tx, M, ◌>>=◌, ◌>>◌, pure, fail, query}
use cv_agent.Sync.Changes.{
  type_application, type_application_status_event, type_interview_round, type_application_note,
  type_reminder,
}
use cv_agent.Tracker.Domain.{
  Error, not_found, version_conflict, invalid_input, illegal_transition, operation_reused, internal,
  Status, applied, eqb_status, Application, Create, Update, Transition, StatusEvent,
}
use cv_agent.Tracker.StateMachine.{can_transition}
use cv_agent.Tracker.Validate.{is_some, validate_create, validate_update, validate_transition}
use cv_agent.Tracker.Store.{
  Store, Act, opt_eq, load_for_update, insert_application, update_aggregate, soft_delete,
  find_event, insert_status_event, change_of, record_change,
}
use cv_agent.Tracker.Cascade.{DeletedChildren, soft_delete_children, record_deleted_children}

-- The answer of `AssetTitleLookup`: a title, no such asset, or an error.
pub data Lookup : Type 0 where
  found : String → Lookup
  missing failed : Lookup

-- What a command reads from outside: the clock, a new identifier (`none` if there is no entropy)
-- the titles of the user's job descriptions and resumes, and the text in which PostgreSQL returns a
-- uuid.
pub record Env : Type 0 where
  pub now : ℕ
  pub fresh_id : Option String
  pub jd_title : String → String → Lookup
  pub resume_title : String → String → Lookup
  pub uuid_text : String → String

-- A validation that returned an error ends the command.
abbrev pub check : Option Error → Act (Unit {0})
check none = pure tt
check (some e) = fail e

abbrev pub require : Bool → Error → Act (Unit {0})
require true e = pure tt
require false e = fail e

-- `deviceRef`.
abbrev pub device_ref : String → Option String
device_ref d = if is_empty d then none else some d

abbrev pub title_of : Lookup → Act (Option String)
title_of (found title) = pure (some title)
title_of missing = fail invalid_input
title_of failed = fail internal

-- `resolveTitle`.
abbrev pub resolve_title : (String → String → Lookup) → String → Option String → Act (Option String)
resolve_title lookup user none = pure none
resolve_title lookup user (some id) = title_of (lookup user id)

-- `id.NewV7` where the caller gave no identifier.
abbrev pub choose_id : Option String → String → Act String
choose_id fresh given =
    if is_empty given then (elim fresh [ none ↦ fail internal | some i ↦ pure i ]) else pure given

-- The comparison with `existingEvent`, whose `ApplicationID` was scanned from a uuid column, and
-- `sameOptionalText`, which is `opt_eq`.
abbrev pub same_request : (String → String) → String → Transition → StatusEvent → Bool
same_request uuid_text app t e =
    str_eq (uuid_text e.application_id) app
    && eqb_status e.to_status t.to_status
    && opt_eq e.reason t.reason

-- `scanApplication` does not read the user, and where no code sets it, it is unset.
abbrev pub without_user : Application → Application
without_user a = record a { user_id = "" }

module _ (env : Env) (user device : String) where
  abbrev pub created_application : Create → String → Option String → Option String → Application
  created_application c id jd resume = record {
    id = id;
    user_id = user;
    entity_version = pos 1;
    created_at = env.now;
    updated_at = env.now;
    deleted_at = none;
    last_modified_device_id = device_ref device;
    jd_id = c.jd_id;
    resume_id = c.resume_id;
    company_name = c.company_name;
    role_name = c.role_name;
    jd_title_snapshot = if is_some c.jd_id then jd else c.jd_title_snapshot;
    resume_title_snapshot = if is_some c.resume_id then resume else c.resume_title_snapshot;
    resume_content_hash_snapshot = c.resume_content_hash_snapshot;
    delivery_method = c.delivery_method;
    target_url = c.target_url;
    applied_at = c.applied_at;
    status = applied;
    pending_confirmation = c.pending_confirmation;
    source = c.source;
    dedupe_key = c.dedupe_key;
    company_business = c.company_business;
    role_summary = c.role_summary;
    company_culture = c.company_culture;
    rejection_reason = none;
  }

  -- `CreateInTx`.
  unfoldable pub create_in_tx : Create → Act Application
  create_in_tx c = do
    check (validate_create c)
    jd ← resolve_title env.jd_title user c.jd_id
    resume ← resolve_title env.resume_title user c.resume_id
    id ← choose_id env.fresh_id c.id
    insert_application (created_application c id jd resume)
    record_change (change_of type_application user id (pos 1) false env.now)
    pure (created_application c id jd resume)

  abbrev pub resolve_if :
      Bool → (String → String → Lookup) → Option String → Option String → Act (Option String)
  resolve_if true lookup id old = resolve_title lookup user id
  resolve_if false lookup id old = pure old

  abbrev pub updated_application :
      Application → Update → Option String → Option String → Application
  updated_application current u jd resume = record current {
    entity_version = inc64 current.entity_version;
    updated_at = env.now;
    last_modified_device_id = device_ref device;
    jd_id = u.jd_id;
    resume_id = u.resume_id;
    jd_title_snapshot = jd;
    resume_title_snapshot = resume;
    resume_content_hash_snapshot =
        if opt_eq current.resume_id u.resume_id
        then current.resume_content_hash_snapshot
        else u.resume_content_hash_snapshot;
    company_name = u.company_name;
    role_name = u.role_name;
    delivery_method = u.delivery_method;
    target_url = u.target_url;
    applied_at = u.applied_at;
    pending_confirmation = u.pending_confirmation;
    company_business = u.company_business;
    role_summary = u.role_summary;
    company_culture = u.company_culture;
    rejection_reason = u.rejection_reason;
  }

  -- `UpdateInTx`.
  unfoldable pub update_in_tx : String → Update → Act Application
  update_in_tx app u = do
    check (validate_update u)
    current ← load_for_update user app
    require (eqb_ℤ current.entity_version u.expected_version) version_conflict
    jd ←
        resolve_if (not (opt_eq current.jd_id u.jd_id)) env.jd_title u.jd_id
          current.jd_title_snapshot
    resume ←
        resolve_if (not (opt_eq current.resume_id u.resume_id)) env.resume_title u.resume_id
          current.resume_title_snapshot
    require
        (opt_eq current.resume_id u.resume_id
          || not (is_some u.resume_id)
          || is_some u.resume_content_hash_snapshot)
        invalid_input
    update_aggregate (updated_application current u jd resume)
    record_change (change_of type_application user app (inc64 current.entity_version) false env.now)
    pure (updated_application current u jd resume)

  abbrev pub deleted_application : Application → Application
  deleted_application current = record current {
    entity_version = inc64 current.entity_version;
    deleted_at = some env.now;
    last_modified_device_id = device_ref device;
  }

  -- `DeleteInTx`.
  unfoldable pub delete_in_tx : String → ℤ → Act Application
  delete_in_tx app expected = do
    current ← load_for_update user app
    require (eqb_ℤ current.entity_version expected) version_conflict
    soft_delete (deleted_application current)
    children ← soft_delete_children user app (device_ref device) env.now
    record_change (change_of type_application user app (inc64 current.entity_version) true env.now)
    record_deleted_children type_interview_round user env.now children.interviews
    record_deleted_children type_application_note user env.now children.notes
    record_deleted_children type_reminder user env.now children.reminders
    pure (deleted_application current)

  abbrev pub moved_application : Application → Transition → Application
  moved_application current t = record current {
    entity_version = inc64 current.entity_version;
    updated_at = env.now;
    last_modified_device_id = device_ref device;
    status = t.to_status;
  }

  abbrev pub event_of : String → Application → Transition → StatusEvent
  event_of app current t = record {
    id = t.operation_id;
    user_id = user;
    application_id = app;
    from_status = some current.status;
    to_status = t.to_status;
    reason = t.reason;
    occurred_at = if t.occurred_at == 0 then env.now else t.occurred_at;
    created_by_device = device_ref device;
    operation_id = t.operation_id;
    created_at = env.now;
  }

  -- The first application of a transition, after the search for its event.
  unfoldable pub move_application : String → Transition → Act Application
  move_application app t = do
    current ← load_for_update user app
    require (eqb_ℤ current.entity_version t.expected_version) version_conflict
    require (can_transition current.status t.to_status) illegal_transition
    update_aggregate (moved_application current t)
    insert_status_event (event_of app current t)
    record_change (change_of type_application user app (inc64 current.entity_version) false env.now)
    record_change
        (change_of type_application_status_event user t.operation_id (pos 1) false env.now)
    pure (moved_application current t)

  -- `LoadForUpdate` whose answer is passed on.
  abbrev pub load_without_user : String → Act Application
  load_without_user app = do current ← load_for_update user app; pure (without_user current)

  abbrev pub repeat_or_move : String → Transition → Option StatusEvent → Act Application
  repeat_or_move app t none = move_application app t
  repeat_or_move app t (some e) = do
    require (same_request env.uuid_text app t e) operation_reused
    load_without_user app

  -- From `LockOperation` on.
  abbrev pub search_event : String → Transition → Act Application
  search_event app t = do
    event ← query internal (λ s. find_event user t.operation_id s.events)
    repeat_or_move app t event

  abbrev pub lock_operation : String → Transition → Act Application
  lock_operation app t = do query internal (λ s. tt); search_event app t

  -- `TransitionInTx`.
  unfoldable pub transition_in_tx : String → Transition → Act Application
  unfolding move_application
  transition_in_tx app t = do check (validate_transition t); lock_operation app t
