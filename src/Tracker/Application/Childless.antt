-- ===== src/Tracker/Application/Childless.antt =====
-- What the deletion of an application does to its children
-- (internal/modules/tracker/application/application_write.go, application_cascade.go).
use cv_agent.Base.{
  ℕ, String, ◌≡◌, refl, false, Bool-cases, inl, inr, Option, some, List, [], ◌∷◌, ℤ, All, arith,
  inc64, eqb_ℤ_iff, ap,
}
use cv_agent.Db.{ok, Tx}
use cv_agent.Db.Ensures.{Ensures-weaken, Ensures, Ensures-bind, Ensures-pure, Ensures-exec_if}
use cv_agent.Sync.Types.{EntityType}
use cv_agent.Tracker.Domain.{internal, ChildMeta, InterviewRound, Note, Reminder, Application}
use cv_agent.Tracker.Store.{Store}
use cv_agent.Tracker.Cascade.{
  VersionedId, is_child, delete_child, delete_children, with_interview, with_note, with_reminder,
  any_overflow, soft_delete_children, record_deleted_children,
}
use cv_agent.Tracker.Application.{Env, device_ref, delete_in_tx}
use cv_agent.Tracker.Application.Rows.{find_live-key}
use cv_agent.Tracker.Application.Steps.{
  Ensures-require, Ensures-load, Ensures-rewrite, Ensures-record_change,
}

-- No live child of an application among the rows.
abbrev pub NoChild : {A : Type 0} → (A → ChildMeta) → String → String → List A → Type 0
NoChild meta_of user app rows = All (λ x. is_child user app (meta_of x) ≡ false) rows

module _ {A : Type 0} (meta_of : A → ChildMeta) (with_meta : A → ChildMeta → A)
    (law : (x : A) (m : ChildMeta) → meta_of (with_meta x m) ≡ m) (user app : String)
    (device : Option String) (now : ℕ) where
  child_gone :
      (x : A)
      → is_child user app (meta_of (with_meta x (delete_child device now (meta_of x)))) ≡ false
  child_gone x = rw (law x (delete_child device now (meta_of x))) (ground arith)

  NoChild-delete_children :
      (rows : List A)
      → NoChild meta_of user app (delete_children meta_of with_meta user app device now rows).0
  unfolding delete_children
  NoChild-delete_children [] = tt
  NoChild-delete_children (x ∷ xs) = elim (Bool-cases (is_child user app (meta_of x))) [
    | inl p ↦ rw p (child_gone x, NoChild-delete_children xs)
    | inr p ↦ rw p (p, NoChild-delete_children xs)
  ]

module _ (user app : String) where
  abbrev pub Childless : Store → Type 0
  Childless s =
      NoChild (λ (x : InterviewRound). x.base) user app s.interviews
      × NoChild (λ (x : Note). x.base) user app s.notes
      × NoChild (λ (x : Reminder). x.base) user app s.reminders

  Ensures-record_deleted :
      (type : EntityType) (now : ℕ) (cs : List VersionedId) (t : Tx Store)
      → Childless t.store
      → Ensures (λ u v. Childless v.store) (record_deleted_children type user now cs) t
  unfolding record_deleted_children
  Ensures-record_deleted type now [] t k = Ensures-pure _ _ k
  Ensures-record_deleted type now (c ∷ cs) t k =
      Ensures-bind (Ensures-record_change _ _ λ n log one. Ensures-record_deleted type now cs _ k)

  Ensures-soft_delete_children :
      (device : Option String) (now : ℕ) (t : Tx Store)
      → Ensures (λ c v. Childless v.store) (soft_delete_children user app device now) t
  unfolding soft_delete_children
  Ensures-soft_delete_children device now t = Ensures-bind (
      Ensures-exec_if internal internal _
        (λ s.
          any_overflow
            (delete_children (λ x. x.base) with_interview user app device now s.interviews).1)
        (λ s. (
          (delete_children (λ x. x.base) with_interview user app device now s.interviews).1,
          record s {
            interviews =
                (delete_children (λ x. x.base) with_interview user app device now s.interviews).0;
          },
        ))
        λ n h. Ensures-bind (
          Ensures-exec_if internal internal _
            (λ s.
              any_overflow (delete_children (λ x. x.base) with_note user app device now s.notes).1)
            (λ s. (
              (delete_children (λ x. x.base) with_note user app device now s.notes).1,
              record s {
                notes = (delete_children (λ x. x.base) with_note user app device now s.notes).0;
              },
            ))
            λ n h. Ensures-bind (
              Ensures-exec_if internal internal _
                (λ s.
                  any_overflow
                    (delete_children (λ x. x.base) with_reminder user app device now s.reminders).1)
                (λ s. (
                  (delete_children (λ x. x.base) with_reminder user app device now s.reminders).1,
                  record s {
                    reminders =
                        (delete_children (λ x. x.base) with_reminder user app device now
                          s.reminders).0;
                  },
                ))
                λ n h. Ensures-pure _ _ (
                  NoChild-delete_children (λ x. x.base) with_interview (λ x m. refl) user app device
                      now t.store.interviews,
                  NoChild-delete_children (λ x. x.base) with_note (λ x m. refl) user app device now
                      t.store.notes,
                  NoChild-delete_children (λ x. x.base) with_reminder (λ x m. refl) user app device
                      now t.store.reminders,
                ))))

module _ (env : Env) (user device app : String) (expected : ℤ) where
  delete_leaves :
      (t : Tx Store)
      → Ensures
          (λ a v.
            (a.entity_version ≡ inc64 expected)
            × (a.deleted_at ≡ some env.now)
            × Childless user app v.store)
          (delete_in_tx env user device app expected)
          t
  unfolding delete_in_tx
  delete_leaves t = Ensures-bind (
      Ensures-load user app _ λ n current found. Ensures-bind (
        Ensures-require _ _ _ λ same. Ensures-bind (
          Ensures-rewrite _ _ user app _ found (find_live-key user app _ found).0
            (find_live-key user app _ found).1 refl
            λ n1 fits. Ensures-bind (
              Ensures-weaken (Ensures-soft_delete_children user app (device_ref device) env.now _)
                λ children u k. Ensures-bind (
                  Ensures-record_change _ _ λ n2 log one. Ensures-bind (
                    Ensures-weaken
                      (Ensures-record_deleted user app _ env.now children.interviews _ k)
                      λ x u1 k1. Ensures-bind (
                        Ensures-weaken
                          (Ensures-record_deleted user app _ env.now children.notes _ k1)
                          λ x2 u2 k2. Ensures-bind (
                            Ensures-weaken
                              (Ensures-record_deleted user app _ env.now children.reminders _ k2)
                              λ x3 u3 k3. Ensures-pure _ _ (
                                ap inc64 ((eqb_ℤ_iff current.entity_version expected).0 same),
                                refl,
                                k3,
                              )))))))))

  -- A delete that returns has left no live interview round, note or reminder of the application, and
  -- its answer is deleted now, at the version after the expected one.
  pub delete_in_tx-Childless :
      (t : Tx Store) (a : Application)
      → (delete_in_tx env user device app expected t).0 ≡ ok a
      → (a.entity_version ≡ inc64 expected)
        × (a.deleted_at ≡ some env.now)
        × Childless user app (delete_in_tx env user device app expected t).1.store
  delete_in_tx-Childless t a done = (delete_leaves t).at a done
