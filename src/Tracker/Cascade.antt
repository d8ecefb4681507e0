-- ===== src/Tracker/Cascade.antt =====
-- internal/modules/tracker/postgres/application_cascade.go and
-- internal/modules/tracker/application/application_cascade.go: the children of an application are
-- deleted with it.
use cv_agent.Base.{
  ℕ, String, Bool, true, false, not, ◌&&◌, ◌||◌, Option, none, some, List, [], ◌∷◌, ℤ, inc64,
  below_one, str_eq, if◌then◌else◌,
}
use cv_agent.Db.{exec, ◌>>=◌, ◌>>◌, pure}
use cv_agent.Sync.Types.{EntityType}
use cv_agent.Tracker.Domain.{internal, ChildMeta, InterviewRound, Note, Reminder}
use cv_agent.Tracker.Validate.{is_some}
use cv_agent.Tracker.Store.{Act, change_of, record_change}

pub record VersionedId : Type 0 where
  pub id : String
  pub version : ℤ

-- The live children of an application, whose columns `deleteChildren` sets.
abbrev pub is_child : String → String → ChildMeta → Bool
is_child user app m =
    str_eq m.user_id user && str_eq m.application_id app && not (is_some m.deleted_at)

-- The columns that `deleteChildren` sets.
abbrev pub delete_child : Option String → ℕ → ChildMeta → ChildMeta
delete_child device now m = record m {
  entity_version = inc64 m.entity_version;
  updated_at = now;
  deleted_at = some now;
  last_modified_device_id = device;
}

module _ {A : Type 0} (meta_of : A → ChildMeta) (with_meta : A → ChildMeta → A) where
  -- `deleteChildren` on one table: the rows after it and what it returns.
  unfoldable pub delete_children :
      String → String → Option String → ℕ → List A → List A × List VersionedId
  delete_children user app device now [] = ([], [])
  delete_children user app device now (x ∷ xs) =
      let (rows, ids) = delete_children user app device now xs in
      let m = delete_child device now (meta_of x) in
      if is_child user app (meta_of x)
      then (with_meta x m ∷ rows, record { id = m.id; version = m.entity_version } ∷ ids)
      else (x ∷ rows, ids)

abbrev pub with_interview : InterviewRound → ChildMeta → InterviewRound
with_interview x m = record x { base = m }

abbrev pub with_note : Note → ChildMeta → Note
with_note x m = record x { base = m }

abbrev pub with_reminder : Reminder → ChildMeta → Reminder
with_reminder x m = record x { base = m }

-- A version that its column cannot hold aborts the statement.
abbrev pub any_overflow : List VersionedId → Bool
any_overflow [] = false
any_overflow (v ∷ vs) = below_one v.version || any_overflow vs

abbrev pub delete_interviews : String → String → Option String → ℕ → Act (List VersionedId)
delete_interviews user app device now = exec internal internal λ s.
    let (rows, ids) =
      delete_children (λ x. x.base) with_interview user app device now s.interviews in
    if any_overflow ids then none else some (ids, record s { interviews = rows })

abbrev pub delete_notes : String → String → Option String → ℕ → Act (List VersionedId)
delete_notes user app device now = exec internal internal λ s.
    let (rows, ids) = delete_children (λ x. x.base) with_note user app device now s.notes in
    if any_overflow ids then none else some (ids, record s { notes = rows })

abbrev pub delete_reminders : String → String → Option String → ℕ → Act (List VersionedId)
delete_reminders user app device now = exec internal internal λ s.
    let (rows, ids) = delete_children (λ x. x.base) with_reminder user app device now s.reminders in
    if any_overflow ids then none else some (ids, record s { reminders = rows })

pub record DeletedChildren : Type 0 where
  pub interviews : List VersionedId
  pub notes : List VersionedId
  pub reminders : List VersionedId

unfoldable pub soft_delete_children : String → String → Option String → ℕ → Act DeletedChildren
soft_delete_children user app device now = do
  interviews ← delete_interviews user app device now
  notes ← delete_notes user app device now
  reminders ← delete_reminders user app device now
  pure (record { interviews = interviews; notes = notes; reminders = reminders })

-- `recordDeletedChildren` with the recorder of `type`.
unfoldable pub record_deleted_children : EntityType → String → ℕ → List VersionedId → Act (Unit {0})
record_deleted_children type user now [] = pure tt
record_deleted_children type user now (c ∷ cs) = do
  record_change (change_of type user c.id c.version true now)
  record_deleted_children type user now cs
