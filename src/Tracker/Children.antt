-- ===== src/Tracker/Children.antt =====
-- The commands on the children of an application, written once for the three kinds: interview rounds,
-- notes and reminders. In internal/modules/tracker they are interview_service.go, interview_write.go
-- and the like of application, and interview_repo.go and the like of postgres; what differs between
-- the kinds is the interface `Kind`.
pub mod Validate
pub mod Kinds
pub mod Rows
pub mod Steps
pub mod Clean
pub mod Moves
pub mod Replaced
pub mod Checks
use mathlib.Core.Option
use cv_agent.Base.{
  ℕ, ◌≡◌, String, Bool, true, false, not, ◌&&◌, ◌||◌, Option, none, some, List, [], ◌∷◌, ℤ, pos,
  eqb_ℤ, inc64, below_one, str_eq, if◌then◌else◌,
}
use cv_agent.Db.{Result, ok, err, exec, query, ◌>>=◌, ◌>>◌, pure, fail, or_fail}
use cv_agent.Sync.Types.{EntityType}
use cv_agent.Sync.Changes.{ChangeLog}
use cv_agent.Tracker.Domain.{
  Error, not_found, version_conflict, invalid_input, internal, ChildMeta, InterviewRound,
}
use cv_agent.Tracker.Validate.{is_some}
use cv_agent.Tracker.Store.{Store, Act, find_live, if_affected, change_of, record_change}
use cv_agent.Tracker.Application.{Env, require, device_ref, choose_id}

-- What the commands know of a kind of children: rows `A` that writes `W` make and replace.
pub record Kind (A W : Type 0) : Type 0 where
  pub entity_type : EntityType
  pub base : A → ChildMeta
  pub with_base : A → ChildMeta → A
  -- The table.
  pub rows : Store → List A
  pub with_rows : List A → Store → Store
  pub validate : W → Result Error W
  pub given_id : W → String
  pub expected : W → Option ℤ
  -- The interview round that a write names.
  pub link : W → Option String
  -- A new row, and the assignments of a replacement.
  pub make : ChildMeta → W → A
  pub replace : W → A → A
  -- The columns of the kind that `UPDATE` sets, from its arguments in the first row.
  pub columns : A → A → A
  -- The arguments of a statement fit the types of the columns.
  pub encodes : A → Bool
  -- Two rows that a unique index other than the primary key does not allow side by side.
  pub clashes : A → A → Bool

pub record IsKind {A W : Type 0} (k : Kind A W) : Type 0 where
  pub base-with_base : (x : A) (m : ChildMeta) → k.base (k.with_base x m) ≡ m
  pub base-make : (m : ChildMeta) (w : W) → k.base (k.make m w) ≡ m
  pub base-replace : (w : W) (x : A) → k.base (k.replace w x) ≡ k.base x
  pub base-columns : (a x : A) → k.base (k.columns a x) ≡ k.base x
  -- The columns of an update are the fields of a replacement.
  pub columns-replace :
      (w : W) (x : A) (m : ChildMeta)
      → k.with_base (k.columns (k.with_base (k.replace w x) m) x) m ≡ k.with_base (k.replace w x) m
  pub rows-with_rows : (l : List A) (s : Store) → k.rows (k.with_rows l s) ≡ l
  pub rows-changes : (s : Store) (c : ChangeLog) → k.rows (record s { changes = c }) ≡ k.rows s
  pub changes-with_rows : (l : List A) (s : Store) → (k.with_rows l s).changes ≡ s.changes

-- `interviewBelongsToApplication`.
unfoldable pub belongs_to : String → String → String → List InterviewRound → Bool
belongs_to user app round [] = false
belongs_to user app round (i ∷ rest) =
    (str_eq i.user_id user
      && str_eq i.application_id app
      && str_eq i.id round
      && not (is_some i.deleted_at))
    || belongs_to user app round rest

-- `validateInterviewLink`.
unfoldable pub validate_link : String → String → Option String → Act (Unit {0})
validate_link user app none = pure tt
validate_link user app (some round) = do
  belongs ← query internal (λ s. belongs_to user app round s.interviews)
  require belongs invalid_input

-- `ApplicationExists`, and the error if it does not.
abbrev pub application_exists : String → String → Act (Unit {0})
application_exists user app = do
  exists ← query internal (λ s. is_some (find_live user app s.applications))
  require exists not_found

abbrev pub validated : {W : Type 0} → Result Error W → Act W
validated (ok w) = pure w
validated (err e) = fail e

module _ {A W : Type 0} (k : Kind A W) where
  -- The live row of a user and an id.
  abbrev pub is_live_child : String → String → A → Bool
  is_live_child user id x =
      str_eq (k.base x).user_id user
      && str_eq (k.base x).id id
      && not (is_some (k.base x).deleted_at)

  unfoldable pub find_child : String → String → List A → Option A
  find_child user id [] = none
  find_child user id (x ∷ rest) =
      if is_live_child user id x then some x else find_child user id rest

  -- `LoadForUpdate`.
  abbrev pub load_child : String → String → Act A
  load_child user id = do
    found ← query internal (λ s. find_child user id (k.rows s))
    or_fail not_found found

  -- The primary key or another unique index of the table has a row in the way of a new one.
  unfoldable pub has_clash : A → List A → Bool
  has_clash a [] = false
  has_clash a (x ∷ rest) = str_eq (k.base x).id (k.base a).id || k.clashes a x || has_clash a rest

  -- `Insert` passes every error on as it is.
  abbrev pub insert_child : A → Act (Unit {0})
  insert_child a = do
    require (k.encodes a) internal
    exec internal internal
        λ s. if has_clash a (k.rows s) then none else some (tt, k.with_rows (a ∷ k.rows s) s)

  -- The row of an update: live, and of the version before the new one (`entity_version = $3 - 1`).
  abbrev pub is_before_child : A → A → Bool
  is_before_child a x =
      is_live_child (k.base a).user_id (k.base a).id x
      && eqb_ℤ (inc64 (k.base x).entity_version) (k.base a).entity_version

  unfoldable pub rewrite_child : (A → A) → A → List A → Option (List A)
  rewrite_child f a [] = none
  rewrite_child f a (x ∷ rest) =
      let later = Option.map (λ l. x ∷ l) (rewrite_child f a rest) in
      if is_before_child a x then some (f x ∷ rest) else later

  -- Another row than the updated one is in the way of its new values.
  unfoldable pub clash_elsewhere : A → List A → Bool
  clash_elsewhere a [] = false
  clash_elsewhere a (x ∷ rest) =
      (not (str_eq (k.base x).id (k.base a).id) && k.clashes a x) || clash_elsewhere a rest

  -- A version that its column cannot hold, or a unique index, aborts the statement.
  abbrev pub refuses_update : (A → A) → A → Store → Bool
  refuses_update f a s =
      below_one (k.base a).entity_version
      || (is_some (rewrite_child f a (k.rows s)) && clash_elsewhere a (k.rows s))

  abbrev pub rewrite_table : (A → A) → A → Act (Unit {0})
  rewrite_table f a = do
    affected ← exec internal internal (λ s.
        if refuses_update f a s
        then none
        else some (elim (rewrite_child f a (k.rows s)) [
          | none ↦ (false, s)
          | some l ↦ (true, k.with_rows l s)
        ]))
    if_affected affected

  -- The columns that the UPDATE of a replacement sets.
  abbrev pub updated_row : A → A → A
  updated_row a x = k.with_base (k.columns a x) (record (k.base x) {
    entity_version = (k.base a).entity_version;
    updated_at = (k.base a).updated_at;
    last_modified_device_id = (k.base a).last_modified_device_id;
  })

  -- `UpdateAggregate`.
  abbrev pub update_child : A → Act (Unit {0})
  update_child a = do require (k.encodes a) internal; rewrite_table (updated_row a) a

  -- The columns that the UPDATE of a deletion sets; both instants are `$4`.
  abbrev pub removed_row : A → A → A
  removed_row a x = k.with_base x (record (k.base x) {
    entity_version = (k.base a).entity_version;
    updated_at = elim (k.base a).deleted_at [ none ↦ (k.base x).updated_at | some t ↦ t ];
    deleted_at = (k.base a).deleted_at;
    last_modified_device_id = (k.base a).last_modified_device_id;
  })

  module _ (env : Env) (user device : String) where
    abbrev pub created_child : String → W → String → A
    created_child app w id =
        k.make
          (record {
            id = id;
            user_id = user;
            entity_version = pos 1;
            created_at = env.now;
            updated_at = env.now;
            deleted_at = none;
            last_modified_device_id = device_ref device;
            application_id = app;
          })
          w

    -- `CreateInTx` after the checks on the write.
    unfoldable pub add_valid : String → W → Act A
    add_valid app w = do
      application_exists user app
      validate_link user app (k.link w)
      id ← choose_id env.fresh_id (k.given_id w)
      insert_child (created_child app w id)
      record_change (change_of k.entity_type user id (pos 1) false env.now)
      pure (created_child app w id)

    -- `CreateInTx`.
    unfoldable pub add_child : String → W → Act A
    add_child app w = do w' ← validated (k.validate w); add_valid app w'

    abbrev pub replaced_child : A → W → A
    replaced_child current w = k.with_base (k.replace w current) (record (k.base current) {
      entity_version = inc64 (k.base current).entity_version;
      updated_at = env.now;
      last_modified_device_id = device_ref device;
    })

    -- `ReplaceInTx`.
    unfoldable pub replace_child : String → W → Act A
    replace_child id w = do
      w' ← validated (k.validate w)
      version ← or_fail invalid_input (k.expected w')
      current ← load_child user id
      require (eqb_ℤ (k.base current).entity_version version) version_conflict
      validate_link user (k.base current).application_id (k.link w')
      update_child (replaced_child current w')
      record_change
          (change_of k.entity_type user id (inc64 (k.base current).entity_version) false env.now)
      pure (replaced_child current w')

    abbrev pub removed_child : A → A
    removed_child current = k.with_base current (record (k.base current) {
      entity_version = inc64 (k.base current).entity_version;
      deleted_at = some env.now;
      last_modified_device_id = device_ref device;
    })

    -- `DeleteInTx`, with `SoftDelete`.
    unfoldable pub remove_child : String → ℤ → Act A
    remove_child id expected = do
      current ← load_child user id
      require (eqb_ℤ (k.base current).entity_version expected) version_conflict
      rewrite_table (removed_row (removed_child current)) (removed_child current)
      record_change
          (change_of k.entity_type user id (inc64 (k.base current).entity_version) true env.now)
      pure (removed_child current)
