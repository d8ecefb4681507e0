-- ===== src/Tracker/Calls/Failures.antt =====
-- Failed commands of the tracker (internal/modules/tracker/application).
use cv_agent.Base.{String, ◌≡◌, ◌⊎◌, some}
use cv_agent.Db.{Result, ok, err, Tx}
use cv_agent.Tracker.Domain.{Error}
use cv_agent.Tracker.Store.{Store}
use cv_agent.Tracker.Application.{Env}
use cv_agent.Tracker.Application.Clean.{
  create_in_tx_fails, update_in_tx_fails, delete_in_tx_fails, transition_in_tx_fails,
}
use cv_agent.Tracker.Children.Clean.{
  add_child-IsClean, replace_child-IsClean, remove_child-IsClean, add_reminder-IsClean,
}
use cv_agent.Tracker.Children.Kinds.{interviews, notes, reminders}
use cv_agent.Tracker.Calls.{
  error_of, Call, perform, run, create_application, update_application, delete_application,
  transition_application, create_interview, update_interview, delete_interview, create_note,
  update_note, delete_note, create_reminder, update_reminder, delete_reminder,
}

failed : {A : Type 0} (r : Result Error A) (e : Error) → error_of r ≡ some e → r ≡ err e
failed (ok a) e h = cc
failed (err d) e h = cc

module _ (env : Env) (user device : String) (t : Tx Store) (e : Error) where
  -- A command on an application, an interview round, a note or a reminder that fails, at whichever
  -- step, leaves the tables as they were or has aborted the transaction.
  pub run_fails :
      (c : Call)
      → (perform env user device c t).0 ≡ some e
      → ((run env user device c t).store ≡ t.store) ⊎ ((run env user device c t).budget ≡ 0)
  run_fails (create_application c) h = create_in_tx_fails env user device t e c (failed _ e h)
  run_fails (update_application app u) h =
      update_in_tx_fails env user device t e app u (failed _ e h)
  run_fails (delete_application app v) h =
      delete_in_tx_fails env user device t e app v (failed _ e h)
  run_fails (transition_application app x) h =
      transition_in_tx_fails env user device t e app x (failed _ e h)
  run_fails (create_reminder w) h = (add_reminder-IsClean env user device w).at t e (failed _ e h)
  run_fails (create_interview app w) h =
      (add_child-IsClean interviews env user device app w).at t e (failed _ e h)
  run_fails (update_interview id w) h =
      (replace_child-IsClean interviews env user device id w).at t e (failed _ e h)
  run_fails (delete_interview id v) h =
      (remove_child-IsClean interviews env user device id v).at t e (failed _ e h)
  run_fails (create_note app w) h =
      (add_child-IsClean notes env user device app w).at t e (failed _ e h)
  run_fails (update_note id w) h =
      (replace_child-IsClean notes env user device id w).at t e (failed _ e h)
  run_fails (delete_note id v) h =
      (remove_child-IsClean notes env user device id v).at t e (failed _ e h)
  run_fails (update_reminder id w) h =
      (replace_child-IsClean reminders env user device id w).at t e (failed _ e h)
  run_fails (delete_reminder id v) h =
      (remove_child-IsClean reminders env user device id v).at t e (failed _ e h)
