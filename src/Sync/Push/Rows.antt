-- ===== src/Sync/Push/Rows.antt =====
-- The rows of `sync_operations` and the answers of a batch (internal/modules/sync/push.go).
use cv_agent.Base.{
  String, ◌≡◌, refl, inl, inr, false, Option-cases, none, List, [], ◌∷◌, arith, ap₂, map,
}
use cv_agent.Sync.Types.{PushOperation, Command, OperationResult}
use cv_agent.Sync.Operations.{OperationRow, Codec, hash_operation, find}
use cv_agent.Sync.Handlers.{CommandHandler}
use cv_agent.Sync.Push.{PushDb, Attempt, is_transient, replay, apply_one, push}
use cv_agent.Sync.Push.Replay.{apply_one-stored, apply_one-fresh, apply_one_unhashed}

module _ {Entity : Type 0} where
  -- No two rows of one user name one operation, and each has a lasting status: those of the
  -- constraints on the table.
  abbrev pub AreValid : List (OperationRow Entity) → Type 0
  AreValid [] = Unit {0}
  AreValid (r ∷ rs) =
      (find r.user_id r.operation_id rs ≡ none)
      × (is_transient r.stored.status ≡ false)
      × AreValid rs

module _ {Entity B : Type 0} (handlers : List (CommandHandler Entity B)) (codec : Codec) where
  pub apply_one-AreValid :
      (at : Attempt) (c : Command) (db : PushDb Entity B)
      → AreValid db.operations
      → AreValid (apply_one handlers codec at c db).1.operations
  apply_one-AreValid at c db v = elim (Option-cases (hash_operation codec c.operation)) [
    | inl unhashed ↦ rw (apply_one_unhashed handlers codec at c db unhashed) v
    | inr (hash, hashed) ↦
        elim (Option-cases (find c.user_id c.operation.operation_id db.operations)) [
          | inr (st, old) ↦ elim (apply_one-stored handlers codec at c db hashed old) [
            | inl e ↦ rw e v
            | inr e ↦ rw e v
          ]
          | inl fresh ↦ elim (apply_one-fresh handlers codec c db hash hashed fresh at) [
            | inl e ↦ rw e v
            | inr (a, t, n, ran, lasting, alive, e, answer) ↦ rw e (fresh, lasting, v)
          ]
        ]
  ]

  -- If no two rows of a user name one operation and every row has a lasting status, this is so after
  -- a batch too, whatever it holds and whatever fails.
  pub push-AreValid :
      (user device : String) (batch : List (Attempt × PushOperation)) (db : PushDb Entity B)
      → AreValid db.operations
      → AreValid (push handlers codec user device batch db).1.operations
  unfolding push
  push-AreValid user device [] db v = v
  push-AreValid user device ((at, o) ∷ rest) db v =
      let c : Command = record { user_id = user; device_id = device; operation = o } in
      push-AreValid user device rest (apply_one handlers codec at c db).1
        (apply_one-AreValid at c db v)

  abbrev pub key_of_result : OperationResult Entity → String × String
  key_of_result r = (r.operation_id, r.entity_id)

  abbrev pub key_of_operation : Attempt × PushOperation → String × String
  key_of_operation p = (p.1.operation_id, p.1.entity_id)

  apply_one-key :
      (at : Attempt) (c : Command) (db : PushDb Entity B)
      → key_of_result (apply_one handlers codec at c db).0
        ≡ (c.operation.operation_id, c.operation.entity_id)
  unfolding replay
  apply_one-key at c db = elim (Option-cases (hash_operation codec c.operation)) [
    | inl unhashed ↦ rw (apply_one_unhashed handlers codec at c db unhashed)
    | inr (hash, hashed) ↦
        elim (Option-cases (find c.user_id c.operation.operation_id db.operations)) [
          | inr (st, old) ↦ elim (apply_one-stored handlers codec at c db hashed old) [
            | inl e ↦ rw e (ground arith)
            | inr e ↦ rw e
          ]
          | inl fresh ↦ elim (apply_one-fresh handlers codec c db hash hashed fresh at) [
            | inl e ↦ rw e
            | inr (a, t, n, ran, lasting, alive, e, inl answer) ↦ rw answer
            | inr (a, t, n, ran, lasting, alive, e, inr answer) ↦ rw answer
          ]
        ]
  ]

  -- The answers of a batch name its operations and their entities, one for each and in its order,
  -- whatever fails.
  pub push-keys :
      (user device : String) (batch : List (Attempt × PushOperation)) (db : PushDb Entity B)
      → map key_of_result (push handlers codec user device batch db).0 ≡ map key_of_operation batch
  unfolding push
  push-keys user device [] db = refl
  push-keys user device ((at, o) ∷ rest) db =
      let c : Command = record { user_id = user; device_id = device; operation = o } in
      ap₂ ◌∷◌ (apply_one-key at c db)
        (push-keys user device rest (apply_one handlers codec at c db).1)
