-- ===== src/Sync/Changes.antt =====
-- The change log: internal/modules/sync/recorder.go, feed.go (`ChangeKey`), entity_types.go and
-- internal/modules/sync/postgres/change_repository.go, with the keys of `sync_changes` in
-- migrations/00005_sync_and_reliability.sql.
use cv_agent.Base.{
  subst, sym, ◌≡◌, refl, ℕ, ◌+◌, String, Bool, false, ◌&&◌, ◌||◌, Option, none, some, List, [], ◌∷◌,
  ◌++◌, ℤ, eqb_ℤ, below_one, str_eq, ltb, take, if◌then◌else◌,
}
use cv_agent.Sync.Types.{EntityType}

pub data Operation : Type 0 where
  upsert delete : Operation

abbrev pub type_application : EntityType
type_application = "application"

abbrev pub type_application_status_event : EntityType
type_application_status_event = "application_status_event"

abbrev pub type_interview_round : EntityType
type_interview_round = "interview_round"

abbrev pub type_application_note : EntityType
type_application_note = "application_note"

abbrev pub type_reminder : EntityType
type_reminder = "reminder"

-- `Change`, the row to append.
pub record Change : Type 0 where
  pub user_id : String
  pub entity_type : EntityType
  pub entity_id : String
  pub entity_version : ℤ
  pub operation : Operation
  pub changed_at : ℕ

-- A row of `sync_changes`.
pub record ChangeRow : Type 0 where
  pub sequence : ℕ
  pub change : Change
  pub open change use *

-- The table, oldest row first, and the next value of its identity column.
pub record ChangeLog : Type 0 where
  pub rows : List ChangeRow
  pub next_sequence : ℕ

abbrev pub same_change : Change → ChangeRow → Bool
same_change c r =
    str_eq r.user_id c.user_id
    && str_eq r.entity_type c.entity_type
    && str_eq r.entity_id c.entity_id
    && eqb_ℤ r.entity_version c.entity_version

-- A row with this user, type, entity and version is there.
unfoldable pub is_recorded : Change → List ChangeRow → Bool
is_recorded c [] = false
is_recorded c (r ∷ rs) = same_change c r || is_recorded c rs

-- The INSERT of `PgxRecorder.Record`; `none` is a refused constraint.
unfoldable pub append_change : Change → ChangeLog → Option ChangeLog
append_change c log =
    if is_recorded c log.rows || below_one c.entity_version
    then none
    else some (record {
      rows = log.rows ++ record { sequence = log.next_sequence; change = c } ∷ [];
      next_sequence = log.next_sequence + 1;
    })

-- Several rows in one transaction.
unfoldable pub append_changes : List Change → ChangeLog → Option ChangeLog
append_changes [] log = some log
append_changes (c ∷ cs) log = elim (append_change c log) [
  | none ↦ none
  | some l ↦ append_changes cs l
]

-- The rows that `ListAfter` selects, before its LIMIT.
unfoldable pub select_after : String → ℕ → List ChangeRow → List ChangeRow
select_after user sequence [] = []
select_after user sequence (r ∷ rs) =
    let rest = select_after user sequence rs in
    if str_eq r.user_id user && ltb sequence r.sequence then r ∷ rest else rest

-- `ListAfter`. The rows stand in the order of their sequence numbers.
unfoldable pub list_after : String → ℕ → ℕ → List ChangeRow → List ChangeRow
unfolding select_after
list_after user sequence limit rows = take limit (select_after user sequence rows)

-- `HighWatermark`: COALESCE(MAX(change_seq), 0) over the user's rows.
unfoldable pub high_watermark : String → List ChangeRow → ℕ
high_watermark user [] = 0
high_watermark user (r ∷ rs) =
    let rest = high_watermark user rs in
    if str_eq r.user_id user then (if ltb rest r.sequence then r.sequence else rest) else rest

pub append_changes-cons :
    (c : Change) (cs : List Change) (log : ChangeLog) {l : ChangeLog} {r : Option ChangeLog}
    → append_change c log ≡ some l
    → append_changes cs l ≡ r
    → append_changes (c ∷ cs) log ≡ r
unfolding append_changes
append_changes-cons c cs log {l} {r} one rest =
    subst (λ o. elim o [ none ↦ none | some l' ↦ append_changes cs l' ] ≡ r) (sym one) rest

pub append_changes-nil : (log : ChangeLog) → append_changes [] log ≡ some log
unfolding append_changes
append_changes-nil log = refl
