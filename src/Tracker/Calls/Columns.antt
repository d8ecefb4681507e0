-- ===== src/Tracker/Calls/Columns.antt =====
-- The CHECK constraints under every command of the tracker
-- (internal/modules/tracker/application).
use cv_agent.Base.{
  below_one, false, sym, subst, ap, ◌∙◌, refl, String, ◌≡◌, ◌⊎◌, inl, Bool, true, List, All, some,
}
use cv_agent.Db.{ok, Tx}
use cv_agent.Db.Ensures.{Ensures-weaken}
use cv_agent.Db.Keeps.{settled}
use cv_agent.Tracker.Domain.{ChildMeta, InterviewRound, Note, Reminder}
use cv_agent.Tracker.Store.{Store}
use cv_agent.Tracker.Cascade.{with_interview, with_note, with_reminder}
use cv_agent.Tracker.Application.{Env}
use cv_agent.Tracker.Children.{Kind, IsKind, find_child, updated_row, removed_row}
use cv_agent.Tracker.Children.Checks.{
  version_check, at_least_one, at_least_one-below_one, interview_checks, note_checks,
  reminder_checks, validate_interview-checks, validate_note-checks, validate_reminder-checks,
}
use cv_agent.Tracker.Children.Clean.{
  add_child-IsClean, replace_child-IsClean, remove_child-IsClean, add_reminder-IsClean,
}
use cv_agent.Tracker.Children.Kinds.{
  interviews, interviews-IsKind, notes, notes-IsKind, reminders, reminders-IsKind,
}
use cv_agent.Tracker.Children.Rows.{All-replace_row, All-delete_fitting}
use cv_agent.Tracker.Children.Moves.{
  IsAdded, IsReplaced, IsRemoved, add_child-Added, add_reminder-Added, replace_child_returns,
  remove_child_returns,
}
use cv_agent.Tracker.Children.Replaced.{rows_at}
use cv_agent.Tracker.Calls.{
  Call, run, create_application, update_application, delete_application, transition_application,
  create_interview, update_interview, delete_interview, create_note, update_note, delete_note,
  create_reminder, update_reminder, delete_reminder,
}
use cv_agent.Tracker.Calls.Applications.{
  OfChildren, Keeps-create, Keeps-update, Keeps-delete, Keeps-transition, SurvivesCascade,
}

-- A test of the columns of a kind that a validated write passes.
pub record HasCheck {A W : Type 0} (k : Kind A W) (test : A → Bool) : Type 0 where
  pub test-make :
      (w : W) {w' : W} → k.validate w ≡ ok w' → (m : ChildMeta) → test (k.make m w') ≡ true
  pub test-replace :
      (w : W) (x : A) (m : ChildMeta) → test (k.with_base (k.replace w x) m) ≡ test (k.make m w)
  pub test-columns : (a x : A) (m : ChildMeta) → test (k.with_base (k.columns a x) m) ≡ test a
  pub test-with_base : (x : A) (m : ChildMeta) → test (k.with_base x m) ≡ test x

interview_law : HasCheck interviews interview_checks
unfolding interview_checks
interview_law = record {
  test-make = validate_interview-checks;
  test-replace = λ w x m. refl;
  test-columns = λ a x m. refl;
  test-with_base = λ x m. refl;
}

note_law : HasCheck notes note_checks
unfolding note_checks
note_law = record {
  test-make = validate_note-checks;
  test-replace = λ w x m. refl;
  test-columns = λ a x m. refl;
  test-with_base = λ x m. refl;
}

reminder_law : HasCheck reminders reminder_checks
unfolding reminder_checks
reminder_law = record {
  test-make = validate_reminder-checks;
  test-replace = λ w x m. refl;
  test-columns = λ a x m. refl;
  test-with_base = λ x m. refl;
}

-- A row meets the constraint on its version and those of its own columns.
abbrev pub Met : {A : Type 0} → (A → ChildMeta) → (A → Bool) → A → Type 0
Met meta_of test x = (version_check (meta_of x) ≡ true) × (test x ≡ true)

abbrev pub Passes : {A : Type 0} → (A → ChildMeta) → (A → Bool) → List A → Type 0
Passes meta_of test xs = All (Met meta_of test) xs

module _ {A W : Type 0} (k : Kind A W) (laws : IsKind k) (test : A → Bool) (law : HasCheck k test)
    (env : Env) (user device : String) (before s : Store) where
  made :
      (app : String) (w : W) (id : String) (a : A)
      → IsAdded k laws env user device app w before id a s
      → version_check (k.base a) ≡ true
  unfolding at_least_one
  made app w id a r =
      ap (λ x. version_check (k.base x)) r.made ∙ ap version_check (laws.base-make _ w)

  -- The version that a statement was given and did not refuse.
  fits :
      (a : A)
      → below_one (k.base a).entity_version ≡ false
      → (x : A) (m : ChildMeta) → m.entity_version ≡ (k.base a).entity_version
      → version_check (k.base (k.with_base x m)) ≡ true
  fits a low x m same =
      ap version_check (laws.base-with_base x m)
      ∙ ap at_least_one same
      ∙ at_least_one-below_one (k.base a).entity_version low

  added-Passes :
      (app : String) (v w : W) (id : String) (a : A)
      → k.validate v ≡ ok w
      → IsAdded k laws env user device app w before id a s
      → Passes k.base test (k.rows before)
      → Passes k.base test (k.rows s)
  added-Passes app v w id a valid r h =
      rw (rows_at k laws _ before s r.tables)
        ((made app w id a r, ap test r.made ∙ law.test-make v valid _), h)

  replaced-Passes :
      (id : String) (v w : W) (cur a : A)
      → k.validate v ≡ ok w
      → find_child k user id (k.rows before) ≡ some cur
      → IsReplaced k laws env user device id before w cur a s
      → Passes k.base test (k.rows before)
      → Passes k.base test (k.rows s)
  replaced-Passes id v w cur a valid found r h =
      let good : test a ≡ true =
        ap test r.answer ∙ law.test-replace w cur _ ∙ law.test-make v valid _ in
      rw (rows_at k laws _ before s r.tables) (
        All-replace_row k (Met k.base test) (updated_row k a) user id (k.rows before) found
          (λ old. (
            fits a r.low (k.columns a cur)
                (record (k.base cur) {
                  entity_version = (k.base a).entity_version;
                  updated_at = (k.base a).updated_at;
                  last_modified_device_id = (k.base a).last_modified_device_id;
                })
                refl,
            law.test-columns a cur _ ∙ good,
          ))
          h)

  removed-Passes :
      (id : String) (cur a : A)
      → find_child k user id (k.rows before) ≡ some cur
      → IsRemoved k laws env user device id before cur a s
      → Passes k.base test (k.rows before)
      → Passes k.base test (k.rows s)
  removed-Passes id cur a found r h = rw (rows_at k laws _ before s r.tables) (
      All-replace_row k (Met k.base test) (removed_row k a) user id (k.rows before) found
        (λ old. (fits a r.low cur _ refl, law.test-with_base cur _ ∙ old.1)) h)

-- Every row of the three tables meets the CHECK constraints of its table.
abbrev pub Checked : List InterviewRound → List Note → List Reminder → Type 0
Checked i n r =
    Passes (λ x. x.base) interview_checks i
    × Passes (λ x. x.base) note_checks n
    × Passes (λ x. x.base) reminder_checks r

abbrev pub CheckedStore : Store → Type 0
CheckedStore = OfChildren Checked

-- A command that wrote one table has left the others.
module _ (before s : Store) (p : CheckedStore before) where
  rounds-CheckedStore :
      (l : List InterviewRound)
      → s ≡ record before { interviews = l; changes = s.changes }
      → Passes (λ x. x.base) interview_checks s.interviews
      → CheckedStore s
  rounds-CheckedStore l e q =
      let same_notes : s.notes ≡ before.notes = ap (λ (x : Store). x.notes) e in
      let same_reminders : s.reminders ≡ before.reminders = ap (λ (x : Store). x.reminders) e in
      (
        q,
        subst (Passes (λ x. x.base) note_checks) (sym same_notes) p.1,
        subst (Passes (λ x. x.base) reminder_checks) (sym same_reminders) p.2,
      )

  notes-CheckedStore :
      (l : List Note)
      → s ≡ record before { notes = l; changes = s.changes }
      → Passes (λ x. x.base) note_checks s.notes
      → CheckedStore s
  notes-CheckedStore l e q =
      let same_rounds : s.interviews ≡ before.interviews = ap (λ (x : Store). x.interviews) e in
      let same_reminders : s.reminders ≡ before.reminders = ap (λ (x : Store). x.reminders) e in
      (
        subst (Passes (λ x. x.base) interview_checks) (sym same_rounds) p.0,
        q,
        subst (Passes (λ x. x.base) reminder_checks) (sym same_reminders) p.2,
      )

  reminders-CheckedStore :
      (l : List Reminder)
      → s ≡ record before { reminders = l; changes = s.changes }
      → Passes (λ x. x.base) reminder_checks s.reminders
      → CheckedStore s
  reminders-CheckedStore l e q =
      let same_rounds : s.interviews ≡ before.interviews = ap (λ (x : Store). x.interviews) e in
      let same_notes : s.notes ≡ before.notes = ap (λ (x : Store). x.notes) e in
      (
        subst (Passes (λ x. x.base) interview_checks) (sym same_rounds) p.0,
        subst (Passes (λ x. x.base) note_checks) (sym same_notes) p.1,
        q,
      )

module _ (env : Env) (user device : String) where
  cascade : SurvivesCascade Checked env user device
  unfolding interview_checks note_checks reminder_checks
  cascade app dev now i n r p = (
    (λ fit. (
      All-delete_fitting (λ x. x.base) with_interview (Met (λ x. x.base) interview_checks) user app
          dev now (λ x low h. (at_least_one-below_one _ low, h.1)) i fit p.0,
      p.1,
      p.2,
    )),
    (λ fit. (
      p.0,
      All-delete_fitting (λ x. x.base) with_note (Met (λ x. x.base) note_checks) user app dev now
          (λ x low h. (at_least_one-below_one _ low, h.1)) n fit p.1,
      p.2,
    )),
    (λ fit. (
      p.0,
      p.1,
      All-delete_fitting (λ x. x.base) with_reminder (Met (λ x. x.base) reminder_checks) user app
          dev now (λ x low h. (at_least_one-below_one _ low, h.1)) r fit p.2,
    )),
  )

  module _ (t : Tx Store) (p : CheckedStore t.store) where
    -- If every interview round, note and reminder meets the CHECK constraints of its table, that on
    -- its version included, then so it is after any command of the tracker, unless the command has
    -- aborted the transaction. The statements refuse a version that has wrapped around; the others are
    -- met by what the validation of the writes lets through.
    pub run-Checked :
        (c : Call)
        → CheckedStore (run env user device c t).store ⊎ ((run env user device c t).budget ≡ 0)
    run-Checked (create_application c) = inl ((Keeps-create Checked env user device c).at t p)
    run-Checked (update_application app u) =
        inl ((Keeps-update Checked env user device app u).at t p)
    run-Checked (delete_application app v) =
        inl ((Keeps-delete Checked env user device cascade app v).at t p)
    run-Checked (transition_application app x) =
        inl ((Keeps-transition Checked env user device app x).at t p)
    run-Checked (create_interview app w) =
        settled CheckedStore _ t (add_child-IsClean interviews env user device app w) p (
          Ensures-weaken (add_child-Added interviews interviews-IsKind env user device app w t)
            λ a u (w', valid, id, r). rounds-CheckedStore t.store u.store p _ r.tables (
              added-Passes interviews interviews-IsKind interview_checks interview_law env user
                device t.store u.store app w w' id a valid r p.0))
    run-Checked (update_interview id w) =
        settled CheckedStore _ t (replace_child-IsClean interviews env user device id w) p (
          Ensures-weaken
            (replace_child_returns interviews interviews-IsKind env user device id t.store w
              t.budget)
            λ a u (w', cur, valid, found, r). rounds-CheckedStore t.store u.store p _ r.tables (
              replaced-Passes interviews interviews-IsKind interview_checks interview_law env user
                device t.store u.store id w w' cur a valid found r p.0))
    run-Checked (delete_interview id v) =
        settled CheckedStore _ t (remove_child-IsClean interviews env user device id v) p (
          Ensures-weaken
            (remove_child_returns interviews interviews-IsKind env user device id t.store v
              t.budget)
            λ a u (cur, found, same, r). rounds-CheckedStore t.store u.store p _ r.tables (
              removed-Passes interviews interviews-IsKind interview_checks interview_law env user
                device t.store u.store id cur a found r p.0))
    run-Checked (create_note app w) =
        settled CheckedStore _ t (add_child-IsClean notes env user device app w) p (
          Ensures-weaken (add_child-Added notes notes-IsKind env user device app w t)
            λ a u (w', valid, id, r). notes-CheckedStore t.store u.store p _ r.tables (
              added-Passes notes notes-IsKind note_checks note_law env user device t.store u.store
                app w w' id a valid r p.1))
    run-Checked (update_note id w) =
        settled CheckedStore _ t (replace_child-IsClean notes env user device id w) p (
          Ensures-weaken
            (replace_child_returns notes notes-IsKind env user device id t.store w t.budget)
            λ a u (w', cur, valid, found, r). notes-CheckedStore t.store u.store p _ r.tables (
              replaced-Passes notes notes-IsKind note_checks note_law env user device t.store
                u.store id w w' cur a valid found r p.1))
    run-Checked (delete_note id v) =
        settled CheckedStore _ t (remove_child-IsClean notes env user device id v) p (
          Ensures-weaken
            (remove_child_returns notes notes-IsKind env user device id t.store v t.budget)
            λ a u (cur, found, same, r). notes-CheckedStore t.store u.store p _ r.tables (
              removed-Passes notes notes-IsKind note_checks note_law env user device t.store u.store
                id cur a found r p.1))
    run-Checked (create_reminder w) =
        settled CheckedStore _ t (add_reminder-IsClean env user device w) p (
          Ensures-weaken (add_reminder-Added env user device w t) λ a u (w', valid, id, r).
            reminders-CheckedStore t.store u.store p _ r.tables (
              added-Passes reminders reminders-IsKind reminder_checks reminder_law env user device
                t.store u.store w'.application_id w w' id a valid r p.2))
    run-Checked (update_reminder id w) =
        settled CheckedStore _ t (replace_child-IsClean reminders env user device id w) p (
          Ensures-weaken
            (replace_child_returns reminders reminders-IsKind env user device id t.store w t.budget)
            λ a u (w', cur, valid, found, r). reminders-CheckedStore t.store u.store p _ r.tables (
              replaced-Passes reminders reminders-IsKind reminder_checks reminder_law env user
                device t.store u.store id w w' cur a valid found r p.2))
    run-Checked (delete_reminder id v) =
        settled CheckedStore _ t (remove_child-IsClean reminders env user device id v) p (
          Ensures-weaken
            (remove_child_returns reminders reminders-IsKind env user device id t.store v t.budget)
            λ a u (cur, found, same, r). reminders-CheckedStore t.store u.store p _ r.tables (
              removed-Passes reminders reminders-IsKind reminder_checks reminder_law env user device
                t.store u.store id cur a found r p.2))
