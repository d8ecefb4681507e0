-- ===== src/Tracker/Application/Steps.antt =====
-- What the steps of a command have done when they return
-- (internal/modules/tracker/postgres/application_repo.go and status_event_repo.go).
use cv_agent.Base.{
  ℕ, String, ◌≡◌, refl, Bool, true, false, Option, none, some, ◌∷◌, below_one, inc64,
}
use cv_agent.Db.{Tx}
use cv_agent.Db.Ensures.{
  Ensures-or_fail, Ensures, Ensures-pure, Ensures-fail, Ensures-exec_if, Ensures-exec_option,
  Ensures-query, Ensures-bind,
}
use cv_agent.Sync.Changes.{Change, ChangeLog, append_change}
use cv_agent.Tracker.Domain.{Error, internal, duplicate, Application, StatusEvent}
use cv_agent.Tracker.Store.{
  Store, find_live, load_for_update, rewrite, rewrite_application, has_event, insert_status_event,
  has_collision, insert_application, record_change,
}
use cv_agent.Tracker.Application.{check, require}
use cv_agent.Tracker.Application.Rows.{replace_live, rewrite-find_live}

module _ {Q : Unit {0} → Tx Store → Type 0} where
  pub Ensures-require :
      (b : Bool) (e : Error) (t : Tx Store) → (b ≡ true → Q tt t) → Ensures Q (require b e) t
  Ensures-require true e t k = Ensures-pure tt t (k refl)
  Ensures-require false e t k = Ensures-fail e t

  pub Ensures-check :
      (o : Option Error) (t : Tx Store) → (o ≡ none → Q tt t) → Ensures Q (check o) t
  Ensures-check none t k = Ensures-pure tt t (k refl)
  Ensures-check (some e) t k = Ensures-fail e t

  pub Ensures-insert_event :
      (e : StatusEvent) (t : Tx Store)
      → ((n : ℕ)
          → has_event e t.store.events ≡ false
          → Q tt (record { store = record t.store { events = e ∷ t.store.events }; budget = n }))
      → Ensures Q (insert_status_event e) t
  Ensures-insert_event e t k =
      Ensures-exec_if internal internal t (λ s. has_event e s.events)
        (λ s. (tt, record s { events = e ∷ s.events })) k

  pub Ensures-record_change :
      (c : Change) (t : Tx Store)
      → ((n : ℕ) (log : ChangeLog)
          → append_change c t.store.changes ≡ some log
          → Q tt (record { store = record t.store { changes = log }; budget = n }))
      → Ensures Q (record_change c) t
  Ensures-record_change c t k =
      Ensures-exec_option internal internal t (λ s. append_change c s.changes)
        (λ s log. (tt, record s { changes = log })) k

  pub Ensures-insert_application :
      (a : Application) (t : Tx Store)
      → ((n : ℕ)
          → has_collision a t.store.applications ≡ false
          → Q tt (record {
            store = record t.store { applications = a ∷ t.store.applications };
            budget = n;
          }))
      → Ensures Q (insert_application a) t
  Ensures-insert_application a t k =
      Ensures-exec_if internal duplicate t (λ s. has_collision a s.applications)
        (λ s. (tt, record s { applications = a ∷ s.applications })) k

  -- The row that was loaded is the one that is written.
  pub Ensures-rewrite :
      (f : Application → Application) (a : Application) (user id : String) (t : Tx Store)
      {cur : Application}
      → find_live user id t.store.applications ≡ some cur
      → a.user_id ≡ user
      → a.id ≡ id
      → a.entity_version ≡ inc64 cur.entity_version
      → ((n : ℕ)
          → below_one a.entity_version ≡ false
          → Q tt (record {
            store = record t.store { applications = replace_live f user id t.store.applications };
            budget = n;
          }))
      → Ensures Q (rewrite_application f a) t
  Ensures-rewrite f a user id t found u i v k =
      let hit = rewrite-find_live f a user id t.store.applications found u i v in
      Ensures-bind (
        Ensures-exec_if internal internal t (λ s. below_one a.entity_version)
          (λ s. elim (rewrite f a s.applications) [
            | none ↦ (false, s)
            | some rows ↦ (true, record s { applications = rows })
          ])
          λ n h. rw hit (Ensures-pure _ _ (k n h)))

module _ {Q : Application → Tx Store → Type 0} where
  pub Ensures-load :
      (user id : String) (t : Tx Store)
      → ((n : ℕ) (cur : Application)
          → find_live user id t.store.applications ≡ some cur
          → Q cur (record { store = t.store; budget = n }))
      → Ensures Q (load_for_update user id) t
  Ensures-load user id t k =
      Ensures-bind (Ensures-query internal _ t λ n. Ensures-or_fail _ _ _ (k n))
