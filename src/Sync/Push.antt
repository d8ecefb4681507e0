-- ===== src/Sync/Push.antt =====
-- internal/modules/sync/push.go: one transaction for each operation of a batch.
pub mod Replay
pub mod Once
pub mod Rows
pub mod Business
use cv_agent.Base.{
  ℕ, zero, suc, String, Bool, true, false, not, Option, none, some, List, [], ◌∷◌, str_eq, is_empty,
  if◌then◌else◌,
}
pub use cv_agent.Db.Pool.{CommitOutcome, acknowledged, refused, lost}
use cv_agent.Db.{Result, ok, err, Tx, M, ◌>>=◌, ◌>>◌, pure, fail, query, exec}
use cv_agent.Sync.Types.{
  ResultStatus, applied, already_applied, conflict, validation_failed, retryable_error,
  PushOperation, Command, OperationResult, ApplyResult, StoredOperation,
}
use cv_agent.Sync.Operations.{OperationRow, Codec, hash_operation, find, save, row_of}
use cv_agent.Sync.Handlers.{Fault, fault, CommandHandler, handler_of}

-- `B` is the state of the business tables, which only the handlers read and write.
pub record PushDb (Entity B : Type 0) : Type 0 where
  pub business : B
  pub operations : List (OperationRow Entity)

-- What the environment does during one call of `applyOne`: whether a transaction begins, how
-- many of its statements succeed, how its commit ends, and the time.
pub record Attempt : Type 0 where
  pub begins : Bool
  pub budget : ℕ
  pub commit : CommitOutcome
  pub now : ℕ

-- What the statements inside the transaction come to: an answer with nothing to commit, or a
-- result to commit.
pub data Outcome (Entity : Type 0) : Type 0 where
  replayed : OperationResult Entity → Outcome Entity
  to_commit : ApplyResult Entity → Outcome Entity

abbrev pub replay_status : ResultStatus → ResultStatus
replay_status applied = already_applied
replay_status s = s

abbrev pub is_transient : ResultStatus → Bool
is_transient retryable_error = true
is_transient already_applied = true
is_transient _ = false

module _ {Entity : Type 0} where
  abbrev pub failed : ResultStatus → String → ApplyResult Entity
  failed status code = record {
    status = status;
    applied_version = none;
    error_code = code;
    server_entity = none;
  }

  -- The status of a new result, empty in Go, is overwritten before it is read.
  abbrev pub base_of : PushOperation → OperationResult Entity
  base_of o = record {
    operation_id = o.operation_id;
    status = applied;
    entity_id = o.entity_id;
    applied_version = none;
    error_code = none;
    server_entity = none;
  }

  -- `base.ErrorCode` stays nil where the code is empty.
  abbrev pub from_apply : OperationResult Entity → ApplyResult Entity → OperationResult Entity
  from_apply base a = record base {
    status = a.status;
    applied_version = a.applied_version;
    server_entity = a.server_entity;
    error_code = if is_empty a.error_code then base.error_code else some a.error_code;
  }

  abbrev pub retryable : OperationResult Entity → OperationResult Entity
  retryable base = record base {
    status = retryable_error;
    error_code = some "sync_retryable_error";
  }

  pub replay : OperationResult Entity → String → StoredOperation Entity → OperationResult Entity
  replay base hash stored =
      if not (str_eq hash stored.request_hash)
      then from_apply base (failed conflict "idempotency_key_reused")
      else from_apply base (record {
        status = replay_status stored.status;
        applied_version = stored.applied_version;
        error_code = stored.error_code;
        server_entity = stored.server_entity;
      })

module _ {Entity B : Type 0} where
  -- A handler runs on the business tables of the push transaction.
  abbrev pub on_business : {A : Type 0} → M B Fault A → M (PushDb Entity B) Fault A
  on_business m t =
      let (r, u) = m (record { store = t.store.business; budget = t.budget }) in
      (r, record { store = record t.store { business = u.store }; budget = u.budget })

  -- The registry lookup and the handler's `Apply`.
  abbrev pub handle : Option (CommandHandler Entity B) → Command → M B Fault (ApplyResult Entity)
  handle none c = pure (failed validation_failed "sync_entity_not_available")
  handle (some h) c = h.apply c

  abbrev pub save_row : OperationRow Entity → PushDb Entity B → Option (Unit {0} × PushDb Entity B)
  save_row r db = elim (save r db.operations) [
    | none ↦ none
    | some rows ↦ some (tt, record db { operations = rows })
  ]

  -- A commit of an aborted transaction is a rollback with an error.
  abbrev pub committed :
      CommitOutcome
      → ℕ
      → OperationResult Entity
      → ApplyResult Entity
      → PushDb Entity B
      → PushDb Entity B
      → OperationResult Entity × PushDb Entity B
  committed outcome zero base a before after = (retryable base, before)
  committed acknowledged (suc n) base a before after = (from_apply base a, after)
  committed refused (suc n) base a before after = (retryable base, before)
  committed lost (suc n) base a before after = (retryable base, after)

  -- `before` is what the deferred rollback goes back to.
  abbrev pub finish :
      CommitOutcome
      → OperationResult Entity
      → PushDb Entity B
      → Result Fault (Outcome Entity) × Tx (PushDb Entity B)
      → OperationResult Entity × PushDb Entity B
  finish outcome base before (err e, t) = (retryable base, before)
  finish outcome base before (ok (replayed r), t) = (r, before)
  finish outcome base before (ok (to_commit a), t) =
      committed outcome t.budget base a before t.store

  module _ (handlers : List (CommandHandler Entity B)) where
    -- From the registry lookup to `ops.Save`.
    unfoldable pub apply_new : Command → String → ℕ → M (PushDb Entity B) Fault (Outcome Entity)
    apply_new c hash now = do
      a ← on_business (handle (handler_of c.operation.entity_type handlers) c)
      if is_transient a.status
          then fail fault
          else do exec fault fault (save_row (row_of c hash a now)); pure (to_commit a)

    abbrev pub answer_stored :
        Command
        → String
        → ℕ
        → Option (StoredOperation Entity)
        → M (PushDb Entity B) Fault (Outcome Entity)
    answer_stored c hash now (some stored) =
        pure (replayed (replay (base_of c.operation) hash stored))
    answer_stored c hash now none = apply_new c hash now

    -- From `ops.Lock` on. The advisory lock changes no table.
    unfoldable pub in_tx : Command → String → ℕ → M (PushDb Entity B) Fault (Outcome Entity)
    unfolding apply_new
    in_tx c hash now = do
      query fault (λ db. tt)
      stored ← query fault (λ db. find c.user_id c.operation.operation_id db.operations)
      answer_stored c hash now stored

    abbrev pub with_hash :
        Attempt
        → Command
        → PushDb Entity B
        → Option String
        → OperationResult Entity × PushDb Entity B
    with_hash at c db none = (retryable (base_of c.operation), db)
    with_hash at c db (some hash) =
        if at.begins
        then finish at.commit (base_of c.operation) db
            (in_tx c hash at.now (record { store = db; budget = at.budget }))
        else (retryable (base_of c.operation), db)

    -- `applyOne`, with the database after it.
    unfoldable pub apply_one :
        Codec → Attempt → Command → PushDb Entity B → OperationResult Entity × PushDb Entity B
    unfolding in_tx
    apply_one codec at c db = with_hash at c db (hash_operation codec c.operation)

    -- `Push`: the operations of a batch in order, one transaction each, each with what the
    -- environment does meanwhile.
    pub push :
        Codec
        → String
        → String
        → List (Attempt × PushOperation)
        → PushDb Entity B
        → List (OperationResult Entity) × PushDb Entity B
    push codec user device [] db = ([], db)
    push codec user device ((at, o) ∷ rest) db =
        let c : Command = record { user_id = user; device_id = device; operation = o } in
        let (r, db') = apply_one codec at c db in
        let (rs, last) = push codec user device rest db' in (r ∷ rs, last)
