-- ===== src/Tracker/Calls/Rounds.antt =====
-- The keys of the interview rounds under every command of the tracker
-- (internal/modules/tracker/application).
use cv_agent.Base.{[], sym, subst, ap, refl, String, ◌≡◌, ◌⊎◌, inl, ◌∷◌, List, All, some, arith}
use cv_agent.Db.{Tx}
use cv_agent.Db.Ensures.{Ensures-weaken}
use cv_agent.Db.Keeps.{settled}
use cv_agent.Tracker.Domain.{InterviewRound, InterviewWrite}
use cv_agent.Tracker.Store.{Store}
use cv_agent.Tracker.Application.{Env}
use cv_agent.Tracker.Children.{updated_row, removed_row, find_child}
use cv_agent.Tracker.Children.Clean.{
  add_child-IsClean, replace_child-IsClean, remove_child-IsClean, add_reminder-IsClean,
}
use cv_agent.Tracker.Children.Kinds.{
  interviews, interviews-IsKind, notes, notes-IsKind, reminders, reminders-IsKind,
}
use cv_agent.Tracker.Children.Rows.{find_child-key}
use cv_agent.Tracker.Children.Moves.{
  IsAdded, IsReplaced, IsRemoved, add_child-Added, add_reminder-Added, replace_child_returns,
  remove_child_returns,
}
use cv_agent.Tracker.Children.Replaced.{updated_row-replaced_child}
use cv_agent.Tracker.Calls.{
  Call, run, create_application, update_application, delete_application, transition_application,
  create_interview, update_interview, delete_interview, create_note, update_note, delete_note,
  create_reminder, update_reminder, delete_reminder,
}
use cv_agent.Tracker.Calls.Applications.{
  OfChildren, Keeps-create, Keeps-update, Keeps-delete, Keeps-transition, SurvivesCascade,
}
use cv_agent.Tracker.Calls.Numbers.{
  Distinct, Clear, has_clash-Apart, clash_elsewhere-Clear, Distinct-replace_row,
  Distinct-delete_children,
}

abbrev pub DistinctRounds : Store → Type 0
DistinctRounds = OfChildren (λ i n r. Distinct i)

module _ (env : Env) (user device : String) (before s : Store) where
  added-DistinctRounds :
      (app : String) (w : InterviewWrite) (id : String) (a : InterviewRound)
      → IsAdded interviews interviews-IsKind env user device app w before id a s
      → DistinctRounds before
      → DistinctRounds s
  added-DistinctRounds app w id a r p =
      subst DistinctRounds (sym r.tables) (has_clash-Apart a before.interviews r.clear, p)

  replaced-DistinctRounds :
      (id : String) (w : InterviewWrite) (cur a : InterviewRound)
      → find_child interviews user id before.interviews ≡ some cur
      → IsReplaced interviews interviews-IsKind env user device id before w cur a s
      → DistinctRounds before
      → DistinctRounds s
  replaced-DistinctRounds id w cur a found r p =
      let key = (find_child-key interviews user id before.interviews found).1 in
      let e : updated_row interviews a cur ≡ a =
        subst (λ b. updated_row interviews b cur ≡ b) (sym r.answer)
          (updated_row-replaced_child interviews interviews-IsKind env user device cur w) in
      let same : a.id ≡ id = subst (λ (b : InterviewRound). b.id ≡ id) (sym r.answer) key in
      subst DistinctRounds (sym r.tables) (
        Distinct-replace_row (updated_row interviews a) user id refl key before.interviews found
          (subst (λ b. All (Clear id b) before.interviews) (sym e)
            (subst (λ i. All (Clear i a) before.interviews) same
              (clash_elsewhere-Clear a before.interviews r.clear)))
          p)

  removed-DistinctRounds :
      (id : String) (cur a : InterviewRound)
      → find_child interviews user id before.interviews ≡ some cur
      → IsRemoved interviews interviews-IsKind env user device id before cur a s
      → DistinctRounds before
      → DistinctRounds s
  removed-DistinctRounds id cur a found r p =
      let key = (find_child-key interviews user id before.interviews found).1 in
      let gone : a.deleted_at ≡ some env.now = ap (λ (b : InterviewRound). b.deleted_at) r.answer in
      subst DistinctRounds (sym r.tables) (
        Distinct-replace_row (removed_row interviews a) user id refl key before.interviews found
          (all_clear before.interviews cur a gone) p)
    where
      all_clear :
          (rows : List InterviewRound) (cur a : InterviewRound)
          → a.deleted_at ≡ some env.now
          → All (Clear id (removed_row interviews a cur)) rows
      all_clear [] cur a gone = tt
      all_clear (x ∷ xs) cur a gone = ((λ ne. rw gone (ground arith)), all_clear xs cur a gone)

module _ (env : Env) (user device : String) (t : Tx Store) (p : DistinctRounds t.store) where
  cascade : SurvivesCascade (λ i n r. Distinct i) env user device
  cascade app dev now i n r q =
      ((λ fits. Distinct-delete_children user app dev now i q), (λ fits. q), (λ fits. q))

  -- If no two interview rounds have one identifier, and no two live ones of an application one number,
  -- then so it is after any command of the tracker, unless the command has aborted the transaction.
  pub run-DistinctRounds :
      (c : Call)
      → DistinctRounds (run env user device c t).store ⊎ ((run env user device c t).budget ≡ 0)
  run-DistinctRounds (create_application c) =
      inl ((Keeps-create (λ i n r. Distinct i) env user device c).at t p)
  run-DistinctRounds (update_application app u) =
      inl ((Keeps-update (λ i n r. Distinct i) env user device app u).at t p)
  run-DistinctRounds (delete_application app v) =
      inl ((Keeps-delete (λ i n r. Distinct i) env user device cascade app v).at t p)
  run-DistinctRounds (transition_application app x) =
      inl ((Keeps-transition (λ i n r. Distinct i) env user device app x).at t p)
  run-DistinctRounds (create_interview app w) =
      settled DistinctRounds _ t (add_child-IsClean interviews env user device app w) p (
        Ensures-weaken (add_child-Added interviews interviews-IsKind env user device app w t)
          λ a u (w', valid, id, r).
            added-DistinctRounds env user device t.store u.store app w' id a r p)
  run-DistinctRounds (update_interview id w) =
      settled DistinctRounds _ t (replace_child-IsClean interviews env user device id w) p (
        Ensures-weaken
          (replace_child_returns interviews interviews-IsKind env user device id t.store w t.budget)
          λ a u (w', cur, valid, found, r).
            replaced-DistinctRounds env user device t.store u.store id w' cur a found r p)
  run-DistinctRounds (delete_interview id v) =
      settled DistinctRounds _ t (remove_child-IsClean interviews env user device id v) p (
        Ensures-weaken
          (remove_child_returns interviews interviews-IsKind env user device id t.store v t.budget)
          λ a u (cur, found, same, r).
            removed-DistinctRounds env user device t.store u.store id cur a found r p)
  run-DistinctRounds (create_note app w) =
      settled DistinctRounds _ t (add_child-IsClean notes env user device app w) p (
        Ensures-weaken (add_child-Added notes notes-IsKind env user device app w t)
          λ a u (w', valid, id, r). subst DistinctRounds (sym r.tables) p)
  run-DistinctRounds (create_reminder w) =
      settled DistinctRounds _ t (add_reminder-IsClean env user device w) p (
        Ensures-weaken (add_reminder-Added env user device w t)
          λ a u (w', valid, id, r). subst DistinctRounds (sym r.tables) p)
  run-DistinctRounds (update_note id w) =
      settled DistinctRounds _ t (replace_child-IsClean notes env user device id w) p (
        Ensures-weaken
          (replace_child_returns notes notes-IsKind env user device id t.store w t.budget)
          λ a u (w', cur, valid, found, r). subst DistinctRounds (sym r.tables) p)
  run-DistinctRounds (delete_note id v) =
      settled DistinctRounds _ t (remove_child-IsClean notes env user device id v) p (
        Ensures-weaken
          (remove_child_returns notes notes-IsKind env user device id t.store v t.budget)
          λ a u (cur, found, same, r). subst DistinctRounds (sym r.tables) p)
  run-DistinctRounds (update_reminder id w) =
      settled DistinctRounds _ t (replace_child-IsClean reminders env user device id w) p (
        Ensures-weaken
          (replace_child_returns reminders reminders-IsKind env user device id t.store w t.budget)
          λ a u (w', cur, valid, found, r). subst DistinctRounds (sym r.tables) p)
  run-DistinctRounds (delete_reminder id v) =
      settled DistinctRounds _ t (remove_child-IsClean reminders env user device id v) p (
        Ensures-weaken
          (remove_child_returns reminders reminders-IsKind env user device id t.store v t.budget)
          λ a u (cur, found, same, r). subst DistinctRounds (sym r.tables) p)
