-- ===== src/Tracker/Application/Moves.antt =====
-- Status transitions (internal/modules/tracker/application/transition.go).
use cv_agent.Base.{
  sym, subst, ℕ, String, ◌≡◌, refl, true, false, Option, none, some, [], ◌∷◌, arith, inc64,
  eqb_ℤ_iff, pos,
}
use cv_agent.Db.Ensures.{Ensures, Ensures-bind, Ensures-pure, Ensures-query}
use cv_agent.Tracker.Application.Steps.{
  Ensures-check, Ensures-load, Ensures-require, Ensures-rewrite, Ensures-insert_event,
  Ensures-record_change,
}
use cv_agent.Db.Clean.{Reads, Reads-bind, Reads-pure}
use cv_agent.Tracker.Application.Clean.{Reads-require, Reads-load}
use cv_agent.Db.{ok, Tx}
use cv_agent.Sync.Changes.{
  type_application, type_application_status_event, append_changes, append_changes-cons,
  append_changes-nil,
}
use cv_agent.Tracker.Domain.{operation_reused, internal, Application, Transition, StatusEvent}
use cv_agent.Tracker.StateMachine.{can_transition}
use cv_agent.Tracker.Validate.{validate_transition}
use cv_agent.Tracker.Store.{Store, find_live, update_columns, change_of, find_event}
use cv_agent.Tracker.Application.{
  lock_operation, search_event, require, Env, moved_application, event_of, move_application,
  transition_in_tx, same_request, repeat_or_move, load_without_user,
}
use cv_agent.Tracker.Application.Rows.{replace_live, find_live-key}

module _ (env : Env) (user device app : String) (tr : Transition) (before : Store) where
  -- The answer and the tables after a transition that took place on the row `current`.
  pub record IsMoved (current a : Application) (s : Store) : Type 0 where
    pub expected : current.entity_version ≡ tr.expected_version
    pub legal : can_transition current.status tr.to_status ≡ true
    pub answer : a ≡ moved_application env user device current tr
    pub rows : s.applications ≡ replace_live (update_columns a) user app before.applications
    pub event : s.events ≡ event_of env user device app current tr ∷ before.events
    pub logged :
        append_changes
          (change_of type_application user app (inc64 current.entity_version) false env.now
            ∷ change_of type_application_status_event user tr.operation_id (pos 1) false env.now
            ∷ [])
          before.changes
        ≡ some s.changes

  abbrev pub Moved : Application → Store → Type 0
  Moved a s =
      (current : Application) × (find_live user app before.applications ≡ some current)
      × IsMoved current a s

  move_application-Moved :
      (n : ℕ)
      → Ensures
          (λ a u. Moved a u.store)
          (move_application env user device app tr)
          (record { store = before; budget = n })
  unfolding move_application
  move_application-Moved n0 = Ensures-bind (
      Ensures-load user app _ λ n current found. Ensures-bind (
        Ensures-require _ _ _ λ expected. Ensures-bind (
          Ensures-require _ _ _ λ legal. Ensures-bind (
            Ensures-rewrite _ _ user app _ found (find_live-key user app _ found).0
              (find_live-key user app _ found).1 refl
              λ n1 fits. Ensures-bind (
                Ensures-insert_event _ _ λ n2 new. Ensures-bind (
                  Ensures-record_change _ _ λ n3 log one. Ensures-bind (
                    Ensures-record_change _ _ λ n4 log' two. Ensures-pure _ _ (
                      current,
                      found,
                      record {
                        expected =
                            (eqb_ℤ_iff current.entity_version tr.expected_version).0 expected;
                        legal = legal;
                        answer = refl;
                        rows = refl;
                        event = refl;
                        logged =
                            append_changes-cons _ _ _ one
                              (append_changes-cons _ _ _ two (append_changes-nil _));
                      },
                    ))))))))

module _ (env : Env) (user device app : String) (tr : Transition) where
  after_search :
      (Q : Application → Tx Store → Type 0) (t : Tx Store) (e : Option StatusEvent)
      → find_event user tr.operation_id t.store.events ≡ e
      → ((n : ℕ)
          → Ensures Q
              (repeat_or_move env user device app tr e)
              (record { store = t.store; budget = n }))
      → Ensures Q (transition_in_tx env user device app tr) t
  unfolding transition_in_tx
  after_search Q t e found k = Ensures-bind {f = λ _. lock_operation env user device app tr} (
      Ensures-check (validate_transition tr) t λ valid.
        Ensures-bind {f = λ _. search_event env user device app tr} (
          Ensures-query internal (λ s. tt) t
            λ n. Ensures-bind {f = repeat_or_move env user device app tr} (
              Ensures-query internal (λ s. find_event user tr.operation_id s.events) _
                λ m.
                  subst
                    (λ o.
                      Ensures Q (repeat_or_move env user device app tr o)
                        (record { store = t.store; budget = m }))
                    (sym found) (k m))))

  transition_moves :
      (t : Tx Store)
      → find_event user tr.operation_id t.store.events ≡ none
      → Ensures
          (λ a u. Moved env user device app tr t.store a u.store)
          (transition_in_tx env user device app tr)
          t
  transition_moves t fresh =
      after_search _ t none fresh (move_application-Moved env user device app tr t.store)

  -- A transition whose operation has no event yet, and which returns, has moved the live
  -- application: along a legal edge, from the expected version to the next, with one event, and with
  -- a change for the application and one for the event.
  pub transition_in_tx-Moved :
      (t : Tx Store) (a : Application)
      → find_event user tr.operation_id t.store.events ≡ none
      → (transition_in_tx env user device app tr t).0 ≡ ok a
      → Moved env user device app tr t.store a (transition_in_tx env user device app tr t).1.store
  transition_in_tx-Moved t a fresh done = (transition_moves t fresh).at a done

  Reads-repeat_or_move : (e : StatusEvent) → Reads (repeat_or_move env user device app tr (some e))
  Reads-repeat_or_move e =
      Reads-bind (require (same_request env.uuid_text app tr e) operation_reused)
        (λ _. load_without_user env user device app)
        (Reads-require (same_request env.uuid_text app tr e) operation_reused)
        (λ _. Reads-bind _ _ (Reads-load user app) (λ a. Reads-pure _))

  -- A transition whose operation has an event writes nothing.
  pub reads_at :
      (t : Tx Store) (e : StatusEvent)
      → find_event user tr.operation_id t.store.events ≡ some e
      → (transition_in_tx env user device app tr t).1.store ≡ t.store
  unfolding transition_in_tx
  reads_at t e old = ground (arith, (Reads-repeat_or_move e).at)
