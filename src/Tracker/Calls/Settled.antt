-- ===== src/Tracker/Calls/Settled.antt =====
-- The invariant of the links under every command of the tracker
-- (internal/modules/tracker/application).
use cv_agent.Base.{sym, subst, refl, String, ◌≡◌, ◌⊎◌, inl, List, ℤ}
use cv_agent.Db.{Tx}
use cv_agent.Db.Ensures.{Ensures-weaken}
use cv_agent.Db.Keeps.{settled}
use cv_agent.Tracker.Domain.{
  InterviewRound, InterviewWrite, Note, NoteWrite, Reminder, ReminderWrite,
}
use cv_agent.Tracker.Store.{Store}
use cv_agent.Tracker.Cascade.{with_note, with_reminder}
use cv_agent.Tracker.Application.{Env}
use cv_agent.Tracker.Children.{updated_row, removed_row}
use cv_agent.Tracker.Children.Rows.{All-delete_children}
use cv_agent.Tracker.Children.Clean.{
  add_child-IsClean, replace_child-IsClean, remove_child-IsClean, add_reminder-IsClean,
}
use cv_agent.Tracker.Children.Kinds.{
  interviews, interviews-IsKind, notes, notes-IsKind, reminders, reminders-IsKind,
}
use cv_agent.Tracker.Children.Moves.{
  add_child-Added, replace_child_returns, add_reminder-Added, remove_child_returns,
}
use cv_agent.Tracker.Calls.{
  Call, run, create_application, update_application, delete_application, transition_application,
  create_interview, update_interview, delete_interview, create_note, update_note, delete_note,
  create_reminder, update_reminder, delete_reminder,
}
use cv_agent.Tracker.Calls.Applications.{
  OfChildren, Keeps-create, Keeps-update, Keeps-delete, Keeps-transition, SurvivesCascade,
}
use cv_agent.Tracker.Calls.Links.{
  Links, Links-KeepsRounds, KeepsRounds-cons, KeepsRounds-replace_row, KeepsRounds-delete_children,
  ChildLinked,
}
use cv_agent.Tracker.Calls.Kept.{
  HasLink, IsAdded-AllLinked, IsReplaced-AllLinked, IsRemoved-AllLinked,
}

abbrev note_links : HasLink notes (λ n. n.interview_round_id)
note_links = record {
  link-make = λ m w. refl;
  link-replace = λ w x m. refl;
  link-columns = λ a x m. refl;
  link-with_base = λ x m. refl;
}

abbrev reminder_links : HasLink reminders (λ m. m.interview_round_id)
reminder_links = record {
  link-make = λ m w. refl;
  link-replace = λ w x m. refl;
  link-columns = λ a x m. refl;
  link-with_base = λ x m. refl;
}

abbrev pub LinksOf : Store → Type 0
LinksOf = OfChildren Links

-- The links after a command on rounds, on notes and on reminders.
rounds_after :
    (before s : Store) (l : List InterviewRound)
    → s ≡ record before { interviews = l; changes = s.changes }
    → Links l before.notes before.reminders
    → LinksOf s
rounds_after before s l e q = subst LinksOf (sym e) q

notes_after :
    (before s : Store) (l : List Note)
    → s ≡ record before { notes = l; changes = s.changes }
    → Links before.interviews s.notes before.reminders
    → LinksOf s
notes_after before s l e q =
    subst LinksOf (sym e)
      (subst (λ (x : Store). Links before.interviews x.notes before.reminders) e q)

reminders_after :
    (before s : Store) (l : List Reminder)
    → s ≡ record before { reminders = l; changes = s.changes }
    → Links before.interviews before.notes s.reminders
    → LinksOf s
reminders_after before s l e q =
    subst LinksOf (sym e)
      (subst (λ (x : Store). Links before.interviews before.notes x.reminders) e q)

module _ (env : Env) (user device : String) where
  cascade : SurvivesCascade Links env user device
  cascade app dev now i n r p = (
    (λ fits. Links-KeepsRounds i _ n r (KeepsRounds-delete_children user app dev now i) p),
    (λ fits. (
      All-delete_children (λ x. x.base) with_note
          (ChildLinked (λ (x : Note). x.base) (λ x. x.interview_round_id) i) user app dev now
          (λ x h. h) n p.0,
      p.1,
    )),
    (λ fits. (
      p.0,
      All-delete_children (λ x. x.base) with_reminder
          (ChildLinked (λ (x : Reminder). x.base) (λ x. x.interview_round_id) i) user app dev now
          (λ x h. h) r p.1,
    )),
  )

  module _ (t : Tx Store) (p : LinksOf t.store) where
    abbrev Settled : Tx Store → Type 0
    Settled u = LinksOf u.store ⊎ (u.budget ≡ 0)

    interview_added :
        (app : String) (w : InterviewWrite)
        → Settled (run env user device (create_interview app w) t)
    interview_added app w =
        settled LinksOf _ t (add_child-IsClean interviews env user device app w) p (
          Ensures-weaken (add_child-Added interviews interviews-IsKind env user device app w t)
            λ a u (w', valid, id, r). rounds_after t.store u.store _ r.tables (
              Links-KeepsRounds t.store.interviews _ t.store.notes t.store.reminders
                (KeepsRounds-cons a t.store.interviews) p))

    interview_replaced :
        (id : String) (w : InterviewWrite) → Settled (run env user device (update_interview id w) t)
    interview_replaced id w =
        settled LinksOf _ t (replace_child-IsClean interviews env user device id w) p (
          Ensures-weaken
            (replace_child_returns interviews interviews-IsKind env user device id t.store w
              t.budget)
            λ a u (w', cur, valid, found, r). rounds_after t.store u.store _ r.tables (
              Links-KeepsRounds t.store.interviews _ t.store.notes t.store.reminders
                (KeepsRounds-replace_row (updated_row interviews a) (λ i. (refl, refl, refl)) user
                  id t.store.interviews)
                p))

    interview_removed :
        (id : String) (v : ℤ) → Settled (run env user device (delete_interview id v) t)
    interview_removed id v =
        settled LinksOf _ t (remove_child-IsClean interviews env user device id v) p (
          Ensures-weaken
            (remove_child_returns interviews interviews-IsKind env user device id t.store v
              t.budget)
            λ a u (cur, found, same, r). rounds_after t.store u.store _ r.tables (
              Links-KeepsRounds t.store.interviews _ t.store.notes t.store.reminders
                (KeepsRounds-replace_row (removed_row interviews a) (λ i. (refl, refl, refl)) user
                  id t.store.interviews)
                p))

    note_added :
        (app : String) (w : NoteWrite) → Settled (run env user device (create_note app w) t)
    note_added app w = settled LinksOf _ t (add_child-IsClean notes env user device app w) p (
        Ensures-weaken (add_child-Added notes notes-IsKind env user device app w t)
          λ a u (w', valid, id, r). notes_after t.store u.store _ r.tables (
            IsAdded-AllLinked notes notes-IsKind _ note_links env user device app w' t.store u.store
                id a r p.0,
            p.1,
          ))

    note_replaced :
        (id : String) (w : NoteWrite) → Settled (run env user device (update_note id w) t)
    note_replaced id w = settled LinksOf _ t (replace_child-IsClean notes env user device id w) p (
        Ensures-weaken
          (replace_child_returns notes notes-IsKind env user device id t.store w t.budget)
          λ a u (w', cur, valid, found, r). notes_after t.store u.store _ r.tables (
            IsReplaced-AllLinked notes notes-IsKind _ note_links env user device id w' t.store
                u.store cur a found r p.0,
            p.1,
          ))

    note_removed : (id : String) (v : ℤ) → Settled (run env user device (delete_note id v) t)
    note_removed id v = settled LinksOf _ t (remove_child-IsClean notes env user device id v) p (
        Ensures-weaken
          (remove_child_returns notes notes-IsKind env user device id t.store v t.budget)
          λ a u (cur, found, same, r). notes_after t.store u.store _ r.tables (
            IsRemoved-AllLinked notes notes-IsKind _ note_links env user device id t.store u.store
                cur a found r p.0,
            p.1,
          ))

    reminder_added : (w : ReminderWrite) → Settled (run env user device (create_reminder w) t)
    reminder_added w = settled LinksOf _ t (add_reminder-IsClean env user device w) p (
        Ensures-weaken (add_reminder-Added env user device w t) λ a u (w', valid, id, r).
          reminders_after t.store u.store _ r.tables (
            p.0,
            IsAdded-AllLinked reminders reminders-IsKind _ reminder_links env user device
                w'.application_id w' t.store u.store id a r p.1,
          ))

    reminder_replaced :
        (id : String) (w : ReminderWrite) → Settled (run env user device (update_reminder id w) t)
    reminder_replaced id w =
        settled LinksOf _ t (replace_child-IsClean reminders env user device id w) p (
          Ensures-weaken
            (replace_child_returns reminders reminders-IsKind env user device id t.store w t.budget)
            λ a u (w', cur, valid, found, r). reminders_after t.store u.store _ r.tables (
              p.0,
              IsReplaced-AllLinked reminders reminders-IsKind _ reminder_links env user device id w'
                  t.store u.store cur a found r p.1,
            ))

    reminder_removed :
        (id : String) (v : ℤ) → Settled (run env user device (delete_reminder id v) t)
    reminder_removed id v =
        settled LinksOf _ t (remove_child-IsClean reminders env user device id v) p (
          Ensures-weaken
            (remove_child_returns reminders reminders-IsKind env user device id t.store v t.budget)
            λ a u (cur, found, same, r). reminders_after t.store u.store _ r.tables (
              p.0,
              IsRemoved-AllLinked reminders reminders-IsKind _ reminder_links env user device id
                  t.store u.store cur a found r p.1,
            ))

    -- If every note and reminder names no interview round or one of its own application, then so it is
    -- after any command of the tracker, unless the command has aborted the transaction.
    pub run-Links :
        (c : Call)
        → LinksOf (run env user device c t).store ⊎ ((run env user device c t).budget ≡ 0)
    run-Links (create_application c) = inl ((Keeps-create Links env user device c).at t p)
    run-Links (update_application app u) = inl ((Keeps-update Links env user device app u).at t p)
    run-Links (delete_application app v) =
        inl ((Keeps-delete Links env user device cascade app v).at t p)
    run-Links (transition_application app x) =
        inl ((Keeps-transition Links env user device app x).at t p)
    run-Links (create_interview app w) = interview_added app w
    run-Links (update_interview id w) = interview_replaced id w
    run-Links (delete_interview id v) = interview_removed id v
    run-Links (create_note app w) = note_added app w
    run-Links (update_note id w) = note_replaced id w
    run-Links (delete_note id v) = note_removed id v
    run-Links (create_reminder w) = reminder_added w
    run-Links (update_reminder id w) = reminder_replaced id w
    run-Links (delete_reminder id v) = reminder_removed id v
