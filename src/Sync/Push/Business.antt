-- ===== src/Sync/Push/Business.antt =====
-- The business tables under a push (internal/modules/sync/push.go).
use cv_agent.Base.{◌≡◌, refl, ◌⊎◌, inl, inr, Option-cases, Option, none, some, List, ap, sym, ◌∙◌}
use cv_agent.Db.{ok, Tx, M}
use cv_agent.Sync.Types.{applied, ApplyResult, Command, StoredOperation}
use cv_agent.Sync.Operations.{Codec, hash_operation, find, row_of}
use cv_agent.Sync.Handlers.{Fault, CommandHandler, handler_of}
use cv_agent.Sync.Push.{PushDb, Attempt, handle, apply_one}
use cv_agent.Sync.Push.Replay.{apply_one-stored, apply_one-fresh, apply_one_unhashed}
use cv_agent.Sync.Push.Once.{find-cons_self}

module _ {Entity B : Type 0} where
  -- What push relies on: an answer other than `applied` leaves nothing to commit.
  pub record IsCareful (m : M B Fault (ApplyResult Entity)) : Type 0 where
    pub at :
        (t : Tx B) (a : ApplyResult Entity)
        → (m t).0 ≡ ok a
        → (a.status ≡ applied) ⊎ (((m t).1.store ≡ t.store) ⊎ ((m t).1.budget ≡ 0))

  handle-IsCareful :
      (h : Option (CommandHandler Entity B)) (c : Command)
      → ((k : CommandHandler Entity B) → h ≡ some k → IsCareful (k.apply c))
      → IsCareful (handle h c)
  handle-IsCareful none c k = record { at = λ t a e. inr (inl refl) }
  handle-IsCareful (some h) c k = k h refl

module _ {Entity B : Type 0} (handlers : List (CommandHandler Entity B)) (codec : Codec) where
  -- If the handler of the operation's type is careful, then whatever fails during an attempt: the
  -- business tables are as they were, or the operation was new and its result is stored with the
  -- status `applied`.
  pub apply_one-business :
      (at : Attempt) (c : Command) (db : PushDb Entity B)
      → ((h : CommandHandler Entity B)
          → handler_of c.operation.entity_type handlers ≡ some h
          → IsCareful (h.apply c))
      → ((apply_one handlers codec at c db).1.business ≡ db.business)
        ⊎ ((st : StoredOperation Entity) × (find c.user_id c.operation.operation_id db.operations
              ≡ none)
            × (find c.user_id c.operation.operation_id
                  (apply_one handlers codec at c db).1.operations
                ≡ some st)
            × (st.status ≡ applied))
  apply_one-business at c db careful = elim (Option-cases (hash_operation codec c.operation)) [
    | inl unhashed ↦
        inl (ap (λ p. p.1.business) (apply_one_unhashed handlers codec at c db unhashed))
    | inr (hash, hashed) ↦
        elim (Option-cases (find c.user_id c.operation.operation_id db.operations)) [
          | inr (st, old) ↦ inl (elim (apply_one-stored handlers codec at c db hashed old) [
            | inl e ↦ ap (λ p. p.1.business) e
            | inr e ↦ ap (λ p. p.1.business) e
          ])
          | inl fresh ↦ elim (apply_one-fresh handlers codec c db hash hashed fresh at) [
            | inl e ↦ inl (ap (λ p. p.1.business) e)
            | inr (a, t, n, ran, lasting, alive, e, answer) ↦
                elim ((handle-IsCareful (handler_of c.operation.entity_type handlers) c careful).at
                  (record { store = db.business; budget = n }) a (ap (λ p. p.0) ran)) [
                    | inl good ↦ inr (
                      (row_of c hash a at.now).stored,
                      fresh,
                      rw e (find-cons_self (row_of c hash a at.now) db.operations),
                      good,
                    )
                    | inr (inl same) ↦ inl (rw e (sym (ap (λ p. p.1.store) ran) ∙ same))
                    | inr (inr dead) ↦ absurd (alive (sym (ap (λ p. p.1.budget) ran) ∙ dead))
                  ]
          ]
        ]
  ]
