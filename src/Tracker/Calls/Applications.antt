-- ===== src/Tracker/Calls/Applications.antt =====
-- What the commands on applications keep of the children's tables
-- (internal/modules/tracker/application/application_service.go, application_write.go and
-- transition.go).
use cv_agent.Base.{
  ◌≡◌, ℕ, String, Bool, true, false, Option, none, some, List, [], ◌∷◌, ℤ, below_one,
}
use cv_agent.Db.Clean.{Reads, Reads-pure, Reads-fail, Reads-query, Reads-bind}
use cv_agent.Db.Keeps.{Keeps, Reads-Keeps, Keeps-exec_option, Keeps-exec_if, Keeps-bind}
use cv_agent.Sync.Changes.{Change, append_change}
use cv_agent.Sync.Types.{EntityType}
use cv_agent.Tracker.Domain.{
  internal, duplicate, Application, Create, Update, Transition, StatusEvent, InterviewRound, Note,
  Reminder,
}
use cv_agent.Tracker.Store.{
  Store, rewrite, rewrite_application, has_event, insert_status_event, has_collision,
  insert_application, record_change, if_affected,
}
use cv_agent.Tracker.Cascade.{
  VersionedId, delete_children, with_interview, with_note, with_reminder, any_overflow,
  soft_delete_children, record_deleted_children,
}
use cv_agent.Tracker.Application.{
  Env, create_in_tx, update_in_tx, delete_in_tx, transition_in_tx, move_application, repeat_or_move,
}
use cv_agent.Tracker.Application.Clean.{
  Reads-check, Reads-require, Reads-resolve_title, Reads-choose_id, Reads-load, Reads-resolve_if,
}

-- A property of the children's tables.
abbrev pub OfChildren : (List InterviewRound → List Note → List Reminder → Type 0) → Store → Type 0
OfChildren P s = P s.interviews s.notes s.reminders

module _ (P : List InterviewRound → List Note → List Reminder → Type 0) where
  Keeps-insert_application : (a : Application) → Keeps (OfChildren P) (insert_application a)
  Keeps-insert_application a =
      Keeps-exec_if internal duplicate (λ s. has_collision a s.applications)
        (λ s. (tt, record s { applications = a ∷ s.applications })) (λ s free p. p)

  Keeps-insert_event : (e : StatusEvent) → Keeps (OfChildren P) (insert_status_event e)
  Keeps-insert_event e =
      Keeps-exec_if internal internal (λ s. has_event e s.events)
        (λ s. (tt, record s { events = e ∷ s.events })) (λ s free p. p)

  pub Keeps-record_change : (c : Change) → Keeps (OfChildren P) (record_change c)
  Keeps-record_change c =
      Keeps-exec_option internal internal (λ s. append_change c s.changes)
        (λ s log. (tt, record s { changes = log })) (λ s log p. p)

  Reads-if_affected : (b : Bool) → Reads (if_affected b)
  Reads-if_affected true = Reads-pure tt
  Reads-if_affected false = Reads-fail _

  written_rows :
      (o : Option (List Application)) (s : Store)
      → OfChildren P s
      → OfChildren P
          (elim o as (λ x. Bool × Store) [
            | none ↦ (false, s)
            | some rows ↦ (true, record s { applications = rows })
          ]).1
  written_rows none s p = p
  written_rows (some rows) s p = p

  Keeps-rewrite :
      (f : Application → Application) (a : Application)
      → Keeps (OfChildren P) (rewrite_application f a)
  Keeps-rewrite f a =
      Keeps-bind _ _
        (Keeps-exec_if internal internal (λ s. below_one a.entity_version)
          (λ s. elim (rewrite f a s.applications) [
            | none ↦ (false, s)
            | some rows ↦ (true, record s { applications = rows })
          ])
          (λ s fits p. written_rows (rewrite f a s.applications) s p))
        (λ b. Reads-Keeps (Reads-if_affected b))

  ruleset keep_rules = (
    Reads-pure, Reads-fail, Reads-query, Reads-bind, Reads-check, Reads-require,
    Reads-resolve_title, Reads-choose_id, Reads-load, Keeps-bind, Reads-Keeps,
    Keeps-insert_application, Keeps-insert_event, Keeps-record_change, Keeps-rewrite,
  )

  module _ (env : Env) (user device : String) where
    pub Keeps-create : (c : Create) → Keeps (OfChildren P) (create_in_tx env user device c)
    unfolding create_in_tx
    Keeps-create c = search keep_rules depth 14

    pub Keeps-update :
        (app : String) (u : Update) → Keeps (OfChildren P) (update_in_tx env user device app u)
    unfolding update_in_tx
    Keeps-update app u = search (keep_rules, Reads-resolve_if) depth 18

    Keeps-move :
        (app : String) (x : Transition)
        → Keeps (OfChildren P) (move_application env user device app x)
    unfolding move_application
    Keeps-move app x = search keep_rules depth 16

    Keeps-repeat :
        (app : String) (x : Transition) (e : Option StatusEvent)
        → Keeps (OfChildren P) (repeat_or_move env user device app x e)
    Keeps-repeat app x none = Keeps-move app x
    Keeps-repeat app x (some e) = search keep_rules

    pub Keeps-transition :
        (app : String) (x : Transition)
        → Keeps (OfChildren P) (transition_in_tx env user device app x)
    unfolding transition_in_tx
    Keeps-transition app x = search (keep_rules, Keeps-repeat) depth 10

    Keeps-record_deleted :
        (type : EntityType) (now : ℕ) (cs : List VersionedId)
        → Keeps (OfChildren P) (record_deleted_children type user now cs)
    unfolding record_deleted_children
    Keeps-record_deleted type now [] = Reads-Keeps (Reads-pure tt)
    Keeps-record_deleted type now (c ∷ cs) =
        Keeps-bind _ _ (Keeps-record_change _) (λ x. Keeps-record_deleted type now cs)

    -- The property holds of the tables without the children of an application if it holds of them, and
    -- the versions of the deleted children fit their column.
    abbrev pub SurvivesCascade : Type 0
    SurvivesCascade =
        (app : String) (device : Option String) (now : ℕ) (i : List InterviewRound) (n : List Note)
        (r : List Reminder)
        → P i n r
        → (any_overflow (delete_children (λ x. x.base) with_interview user app device now i).1
              ≡ false
            → P (delete_children (λ x. x.base) with_interview user app device now i).0 n r)
          × (any_overflow (delete_children (λ x. x.base) with_note user app device now n).1 ≡ false
              → P i (delete_children (λ x. x.base) with_note user app device now n).0 r)
          × (any_overflow (delete_children (λ x. x.base) with_reminder user app device now r).1
                ≡ false
              → P i n (delete_children (λ x. x.base) with_reminder user app device now r).0)

    Keeps-cascade :
        SurvivesCascade
        → (app : String) (device : Option String) (now : ℕ)
        → Keeps (OfChildren P) (soft_delete_children user app device now)
    unfolding soft_delete_children
    Keeps-cascade k app device now =
        Keeps-bind _ _
          (Keeps-exec_if internal internal
            (λ s.
              any_overflow
                (delete_children (λ x. x.base) with_interview user app device now s.interviews).1)
            (λ s. (
              (delete_children (λ x. x.base) with_interview user app device now s.interviews).1,
              record s {
                interviews =
                    (delete_children (λ x. x.base) with_interview user app device now
                      s.interviews).0;
              },
            ))
            (λ s fits p. (k app device now s.interviews s.notes s.reminders p).0 fits))
          (λ a.
            Keeps-bind _ _
              (Keeps-exec_if internal internal
                (λ s.
                  any_overflow
                    (delete_children (λ x. x.base) with_note user app device now s.notes).1)
                (λ s. (
                  (delete_children (λ x. x.base) with_note user app device now s.notes).1,
                  record s {
                    notes = (delete_children (λ x. x.base) with_note user app device now s.notes).0;
                  },
                ))
                (λ s fits p. (k app device now s.interviews s.notes s.reminders p).1 fits))
              (λ b.
                Keeps-bind _ _
                  (Keeps-exec_if internal internal
                    (λ s.
                      any_overflow
                        (delete_children (λ x. x.base) with_reminder user app device now
                          s.reminders).1)
                    (λ s. (
                      (delete_children (λ x. x.base) with_reminder user app device now
                          s.reminders).1,
                      record s {
                        reminders =
                            (delete_children (λ x. x.base) with_reminder user app device now
                              s.reminders).0;
                      },
                    ))
                    (λ s fits p. (k app device now s.interviews s.notes s.reminders p).2 fits))
                  (λ c. Reads-Keeps (Reads-pure _))))

    pub Keeps-delete :
        SurvivesCascade
        → (app : String) (v : ℤ) → Keeps (OfChildren P) (delete_in_tx env user device app v)
    unfolding delete_in_tx
    Keeps-delete k app v = search (keep_rules, Keeps-record_deleted, Keeps-cascade k) depth 18
