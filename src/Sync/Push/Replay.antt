-- ===== src/Sync/Push/Replay.antt =====
-- What one call of `applyOne` (internal/modules/sync/push.go) can come to.
use cv_agent.Base.{
  ℕ, zero, suc, Bool, true, false, inl, inr, ◌∷◌, Bool-cases, String, ◌≡◌, ◌≢◌, refl, ◌⊎◌, none,
  some, List, arith,
}
use cv_agent.Db.{Result, ok, err, Tx}
use cv_agent.Sync.Types.{ApplyResult, Command, StoredOperation}
use cv_agent.Sync.Operations.{Codec, hash_operation, find, row_of, save_new}
use cv_agent.Sync.Handlers.{CommandHandler, Fault, handler_of}
use cv_agent.Sync.Push.{
  PushDb, Attempt, CommitOutcome, acknowledged, refused, lost, handle, is_transient, from_apply,
  base_of, retryable, replay, apply_one,
}

-- The database after a handler that answered `a` and left the business tables at `b`.
abbrev pub stored_as :
    {Entity B : Type 0}
    → Command
    → PushDb Entity B
    → String
    → ApplyResult Entity
    → B
    → ℕ
    → PushDb Entity B
stored_as c db hash a b now = record {
  business = b;
  operations = row_of c hash a now ∷ db.operations;
}

module _ {Entity B : Type 0} (handlers : List (CommandHandler Entity B)) (codec : Codec) where
  -- If the request hashes and the operation has a stored result, the answer is its replay or a
  -- request to retry, and nothing changes.
  pub apply_one-stored :
      (at : Attempt) (c : Command) (db : PushDb Entity B) {hash : String}
      {st : StoredOperation Entity}
      → hash_operation codec c.operation ≡ some hash
      → find c.user_id c.operation.operation_id db.operations ≡ some st
      → (apply_one handlers codec at c db ≡ (replay (base_of c.operation) hash st, db))
        ⊎ (apply_one handlers codec at c db ≡ (retryable (base_of c.operation), db))
  unfolding apply_one
  apply_one-stored at c db h s = ground arith

  pub apply_one_unhashed :
      (at : Attempt) (c : Command) (db : PushDb Entity B)
      → hash_operation codec c.operation ≡ none
      → apply_one handlers codec at c db ≡ (retryable (base_of c.operation), db)
  unfolding apply_one
  apply_one_unhashed at c db h = rw h refl

  module _ (c : Command) (db : PushDb Entity B) (hash : String) where
    -- An attempt that ran the handler and whose commit took place.
    abbrev pub Committed : Attempt → Type 0
    Committed at =
        (a : ApplyResult Entity) × (t : Tx B) × (n : ℕ) × (handle
            (handler_of c.operation.entity_type handlers) c
            (record { store = db.business; budget = n })
          ≡ (ok a, t))
        × (is_transient a.status ≡ false)
        × (t.budget ≢ 0)
        × ((apply_one handlers codec at c db).1 ≡ stored_as c db hash a t.store at.now)
        × (((apply_one handlers codec at c db).0 ≡ from_apply (base_of c.operation) a)
            ⊎ ((apply_one handlers codec at c db).0 ≡ retryable (base_of c.operation)))

    module _ (hashed : hash_operation codec c.operation ≡ some hash)
        (fresh : find c.user_id c.operation.operation_id db.operations ≡ none) where
      abbrev Ends : Attempt → Type 0
      Ends at =
          (apply_one handlers codec at c db ≡ (retryable (base_of c.operation), db)) ⊎ Committed at

      abbrev attempt : Bool → ℕ → CommitOutcome → ℕ → Attempt
      attempt b n o now = record { begins = b; budget = n; commit = o; now = now }

      handled :
          (n : ℕ) (o : CommitOutcome) (now : ℕ) (r : Result Fault (ApplyResult Entity)) (b : B)
          (m : ℕ)
          → handle
              (handler_of c.operation.entity_type handlers)
              c
              (record { store = db.business; budget = n })
            ≡ (r, record { store = b; budget = m })
          → Ends (attempt true (suc (suc n)) o now)
      unfolding apply_one
      handled n o now (err e) b m p = inl (ground arith)
      handled n o now (ok a) b zero p = inl (ground arith)
      handled n o now (ok a) b (suc zero) p =
          inl (ground (arith, save_new (row_of c hash a now) db.operations))
      handled n refused now (ok a) b (suc (suc m)) p =
          inl (ground (arith, save_new (row_of c hash a now) db.operations))
      handled n acknowledged now (ok a) b (suc (suc m)) p =
          elim (Bool-cases (is_transient a.status)) [
            | inl tr ↦ inl (ground arith)
            | inr nt ↦ inr (
              a,
              record { store = b; budget = suc (suc m) },
              n,
              p,
              nt,
              (λ z. omega arith),
              ground (arith, save_new (row_of c hash a now) db.operations),
              inl (ground (arith, save_new (row_of c hash a now) db.operations)),
            )
          ]
      handled n lost now (ok a) b (suc (suc m)) p = elim (Bool-cases (is_transient a.status)) [
        | inl tr ↦ inl (ground arith)
        | inr nt ↦ inr (
          a,
          record { store = b; budget = suc (suc m) },
          n,
          p,
          nt,
          (λ z. omega arith),
          ground (arith, save_new (row_of c hash a now) db.operations),
          inr (ground (arith, save_new (row_of c hash a now) db.operations)),
        )
      ]

      ends : (b : Bool) (n : ℕ) (o : CommitOutcome) (now : ℕ) → Ends (attempt b n o now)
      unfolding apply_one
      ends false n o now = inl (ground arith)
      ends true zero o now = inl (ground arith)
      ends true (suc zero) o now = inl (ground arith)
      ends true (suc (suc n)) o now =
          let r =
            handle (handler_of c.operation.entity_type handlers) c
              (record { store = db.business; budget = n }) in
          handled n o now r.0 r.1.store r.1.budget refl

      -- If the request hashes and the operation has no stored result, an attempt changes nothing and
      -- asks for a retry, or the handler ran once, on the business tables as they were, and its
      -- result, of a lasting status, was stored together with its writes; the answer is then that
      -- result, or a request to retry.
      pub apply_one-fresh : (at : Attempt) → Ends at
      apply_one-fresh at = ends at.begins at.budget at.commit at.now
