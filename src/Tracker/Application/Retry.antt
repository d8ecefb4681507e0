-- ===== src/Tracker/Application/Retry.antt =====
-- A status transition that is sent again (internal/modules/tracker/application/transition.go).
use cv_agent.Base.{
  suc, Option-cases, inl, inr, ℕ, String, ◌≡◌, sym, subst, none, some, arith, str_eq_self,
}
use cv_agent.Db.{ok, Tx}
use cv_agent.Tracker.Validate.{validate_transition}
use cv_agent.Tracker.Domain.{eqb_status_self, Application, Transition}
use cv_agent.Tracker.Store.{opt_eq_self, Store, find_live, update_columns, find_event}
use cv_agent.Tracker.Application.{Env, event_of, transition_in_tx, moved_application, without_user}
use cv_agent.Tracker.Application.Rows.{replace_live, find_live-is_live, find_live-replace_live}
use cv_agent.Tracker.Application.Moves.{IsMoved, transition_in_tx-Moved, reads_at}

module _ (env : Env) (user device app : String) (tr : Transition) (before : Store) where
  event_found :
      (current : Application) {s : Store} {a : Application}
      → IsMoved env user device app tr before current a s
      → find_event user tr.operation_id s.events ≡ some (event_of env user device app current tr)
  unfolding find_event
  event_found current m =
      rw (m.event) (ground (arith, str_eq_self user, str_eq_self tr.operation_id))

  -- The row after a transition is its answer.
  pub answer_found :
      (current : Application) {s : Store} {a : Application}
      → find_live user app before.applications ≡ some current
      → IsMoved env user device app tr before current a s
      → find_live user app s.applications ≡ some a
  answer_found current {s} {a} found m =
      let mv = moved_application env user device current tr in
      subst (λ x. find_live user app x ≡ some a) (sym m.rows)
        (subst
          (λ x.
            find_live user app (replace_live (update_columns x) user app before.applications)
            ≡ some x)
          (sym m.answer)
          (find_live-replace_live (update_columns mv) user app before.applications found
            (find_live-is_live user app before.applications found)))

module _ (env env' : Env) (user device device' app : String) (tr : Transition) where
  again_lem :
      (s : Store) (m : ℕ) (a current : Application)
      → env'.uuid_text app ≡ app
      → validate_transition tr ≡ none
      → find_event user tr.operation_id s.events ≡ some (event_of env user device app current tr)
      → find_live user app s.applications ≡ some a
      → transition_in_tx env' user device' app tr (record { store = s; budget = suc (suc (suc m)) })
        ≡ (ok (without_user a), record { store = s; budget = m })
  unfolding transition_in_tx
  again_lem s m a current canonical valid old there =
      ground (arith, str_eq_self app, eqb_status_self tr.to_status, opt_eq_self tr.reason)

  was_valid :
      (t : Tx Store) (a : Application)
      → (transition_in_tx env user device app tr t).0 ≡ ok a
      → validate_transition tr ≡ none
  unfolding transition_in_tx
  was_valid t a done = elim (Option-cases (validate_transition tr)) [
    | inl p ↦ p
    | inr (e, p) ↦ absurd (ground arith)
  ]

-- If PostgreSQL returns the application's identifier in the text that the caller sends: a transition
-- whose operation had no event, and which returned, sent again by any device at any time to the
-- tables that it left, writes nothing however far it gets, and where its three statements run it
-- returns the row of the application that the first one left, without its user.
pub transition_once :
    (env env' : Env) (user device device' app : String) (tr : Transition) (t : Tx Store) (m n : ℕ)
    (a : Application)
    → env'.uuid_text app ≡ app
    → find_event user tr.operation_id t.store.events ≡ none
    → (transition_in_tx env user device app tr t).0 ≡ ok a
    → let after = (transition_in_tx env user device app tr t).1.store in
      ((transition_in_tx env' user device' app tr (record { store = after; budget = n })).1.store
        ≡ after)
      × ((r : Application) × (find_live user app after.applications ≡ some r)
          × (transition_in_tx env' user device' app tr
                (record { store = after; budget = suc (suc (suc m)) })
              ≡ (ok (record r { user_id = "" }), record { store = after; budget = m })))
transition_once env env' user device device' app tr t m n a canonical fresh done =
    let (current, found, moved) = transition_in_tx-Moved env user device app tr t a fresh done in
    let after = (transition_in_tx env user device app tr t).1.store in
    let old = event_found env user device app tr t.store current moved in
    let there = answer_found env user device app tr t.store current found moved in
    (
      reads_at env' user device' app tr (record { store = after; budget = n })
          (event_of env user device app current tr) old,
      (
        a,
        there,
        again_lem env env' user device device' app tr after m a current canonical
            (was_valid env env' user device device' app tr t a done) old there,
      ),
    )
