-- ===== src/Sync/Push/Once.antt =====
-- Operations that are sent more than once (internal/modules/sync/push.go).
use cv_agent.Base.{
  ℕ, String, ◌≡◌, ◌≢◌, ◌⊎◌, inl, inr, Bool-cases, Option-cases, none, some, List, [], ◌∷◌, arith,
  ap, ◌∙◌, str_eq→eq, str_eq_self,
}
use cv_agent.Sync.Types.{
  ApplyResult, retryable_error, conflict, PushOperation, Command, OperationResult, StoredOperation,
}
use cv_agent.Sync.Operations.{OperationRow, Codec, hash_operation, find, is_row, row_of}
use cv_agent.Sync.Handlers.{CommandHandler}
use cv_agent.Sync.Push.{
  PushDb, Attempt, base_of, failed, from_apply, retryable, replay, replay_status, apply_one, push,
}
use cv_agent.Sync.Push.Replay.{apply_one-stored, apply_one-fresh, apply_one_unhashed}

module _ {Entity : Type 0} where
  -- A new row for a key that had none hides no other row.
  find-cons :
      (r : OperationRow Entity) (rows : List (OperationRow Entity)) (user op : String)
      {st : StoredOperation Entity}
      → find r.user_id r.operation_id rows ≡ none
      → find user op rows ≡ some st
      → find user op (r ∷ rows) ≡ some st
  unfolding find
  find-cons r rows user op fresh kept = elim (Bool-cases (is_row user op r)) [
    | inl same ↦ ground (arith, str_eq→eq r.user_id user, str_eq→eq r.operation_id op)
    | inr other ↦ rw other kept
  ]

  pub find-cons_self :
      (r : OperationRow Entity) (rows : List (OperationRow Entity))
      → find r.user_id r.operation_id (r ∷ rows) ≡ some r.stored
  unfolding find
  find-cons_self r rows = ground (arith, str_eq_self r.user_id, str_eq_self r.operation_id)

  -- The reply that a retry is given for an operation that was answered by `r`.
  abbrev pub repeated : OperationResult Entity → OperationResult Entity
  repeated r = record r { status = replay_status r.status }

  replay_stored :
      (c : Command) (hash : String) (a : ApplyResult Entity) (now : ℕ)
      → replay (base_of c.operation) hash (row_of c hash a now).stored
        ≡ repeated (from_apply (base_of c.operation) a)
  unfolding replay
  replay_stored c hash a now = ground (arith, str_eq_self hash)

module _ {Entity B : Type 0} (handlers : List (CommandHandler Entity B)) (codec : Codec) where
  -- What is stored for a key stays, whatever operation is applied.
  pub apply_one-kept :
      (at : Attempt) (c : Command) (db : PushDb Entity B) (user op : String)
      {st : StoredOperation Entity}
      → find user op db.operations ≡ some st
      → find user op (apply_one handlers codec at c db).1.operations ≡ some st
  apply_one-kept at c db user op kept = elim (Option-cases (hash_operation codec c.operation)) [
    | inl unhashed ↦ rw (apply_one_unhashed handlers codec at c db unhashed) kept
    | inr (hash, hashed) ↦
        elim (Option-cases (find c.user_id c.operation.operation_id db.operations)) [
          | inr (st', old) ↦ elim (apply_one-stored handlers codec at c db hashed old) [
            | inl e ↦ rw e kept
            | inr e ↦ rw e kept
          ]
          | inl fresh ↦ elim (apply_one-fresh handlers codec c db hash hashed fresh at) [
            | inl e ↦ rw e kept
            | inr (a, t, n, ran, lasting, alive, e, answer) ↦
                rw e (find-cons (row_of c hash a at.now) db.operations user op fresh kept)
          ]
        ]
  ]

  -- What is stored for an operation stays through every later batch, of any user, whatever fails.
  pub push-kept :
      (user device : String) (batch : List (Attempt × PushOperation)) (db : PushDb Entity B)
      (u op : String) {st : StoredOperation Entity}
      → find u op db.operations ≡ some st
      → find u op (push handlers codec user device batch db).1.operations ≡ some st
  unfolding push
  push-kept user device [] db u op kept = kept
  push-kept user device ((at, o) ∷ rest) db u op kept =
      let c : Command = record { user_id = user; device_id = device; operation = o } in
      push-kept user device rest (apply_one handlers codec at c db).1 u op
        (apply_one-kept at c db u op kept)

  -- A stored operation that is sent with another content is answered by a conflict, or by a request
  -- to retry, and changes nothing.
  pub apply_one-reused :
      (at : Attempt) (c : Command) (db : PushDb Entity B) {hash : String}
      {st : StoredOperation Entity}
      → hash_operation codec c.operation ≡ some hash
      → find c.user_id c.operation.operation_id db.operations ≡ some st
      → hash ≢ st.request_hash
      → (apply_one handlers codec at c db
          ≡ (from_apply (base_of c.operation) (failed conflict "idempotency_key_reused"), db))
        ⊎ (apply_one handlers codec at c db ≡ (retryable (base_of c.operation), db))
  unfolding replay
  apply_one-reused at c db {hash} {st} hashed old differ =
      ground
        (arith, apply_one-stored handlers codec at c db hashed old, str_eq→eq hash st.request_hash)

  -- The result of an operation that was new and was answered, not by a request to retry, is stored
  -- after any other pushes, and was the answer.
  answered-kept :
      (at : Attempt) (c : Command) (db : PushDb Entity B) (hash : String) (user device : String)
      (others : List (Attempt × PushOperation))
      → hash_operation codec c.operation ≡ some hash
      → find c.user_id c.operation.operation_id db.operations ≡ none
      → (apply_one handlers codec at c db).0.status ≢ retryable_error
      → let (r, after) = apply_one handlers codec at c db in
        let later = (push handlers codec user device others after).1 in
        (a : ApplyResult Entity) × (r ≡ from_apply (base_of c.operation) a)
        × (find c.user_id c.operation.operation_id later.operations
            ≡ some (row_of c hash a at.now).stored)
  answered-kept at c db hash user device others hashed fresh answered =
      elim (apply_one-fresh handlers codec c db hash hashed fresh at) [
        | inl e ↦ absurd (answered (ap (λ p. p.0.status) e))
        | inr (a, t, n, ran, lasting, alive, e, inr r) ↦ absurd (answered (ap (λ p. p.status) r))
        | inr (a, t, n, ran, lasting, alive, e, inl r) ↦ (
          a,
          r,
          push-kept user device others (apply_one handlers codec at c db).1 c.user_id
              c.operation.operation_id {st = (row_of c hash a at.now).stored}
              (rw e (find-cons_self (row_of c hash a at.now) db.operations)),
        )
      ]

  -- An operation that was new and was answered, not by a request to retry, is not applied again:
  -- after any other pushes, sending it once more repeats the answer, with `already_applied` for
  -- `applied`, or asks for a retry, and changes nothing.
  pub retry-repeats :
      (at at' : Attempt) (c : Command) (db : PushDb Entity B) (hash : String) (user device : String)
      (others : List (Attempt × PushOperation))
      → hash_operation codec c.operation ≡ some hash
      → find c.user_id c.operation.operation_id db.operations ≡ none
      → (apply_one handlers codec at c db).0.status ≢ retryable_error
      → let (r, after) = apply_one handlers codec at c db in
        let later = (push handlers codec user device others after).1 in
        (apply_one handlers codec at' c later ≡ (repeated r, later))
        ⊎ (apply_one handlers codec at' c later ≡ (retryable (base_of c.operation), later))
  retry-repeats at at' c db hash user device others hashed fresh answered =
      let later = (push handlers codec user device others (apply_one handlers codec at c db).1).1 in
      let (a, r, kept) = answered-kept at c db hash user device others hashed fresh answered in
      elim (apply_one-stored handlers codec at' c later hashed kept) [
        | inl q ↦ inl (rw q (ap (λ x. (x, later)) (rw r (replay_stored c hash a at.now))))
        | inr q ↦ inr q
      ]

  -- After an operation that was new was answered, not by a request to retry, and after any other
  -- pushes, an operation of the same user and identifier with another content, from any device, is
  -- answered by a conflict, or by a request to retry, and changes nothing: it is neither applied nor
  -- given the result of the first.
  pub reuse-refused :
      (at at' : Attempt) (c other : Command) (db : PushDb Entity B) (hash hash' : String)
      (user device : String) (others : List (Attempt × PushOperation))
      → hash_operation codec c.operation ≡ some hash
      → hash_operation codec other.operation ≡ some hash'
      → hash' ≢ hash
      → other.user_id ≡ c.user_id
      → other.operation.operation_id ≡ c.operation.operation_id
      → find c.user_id c.operation.operation_id db.operations ≡ none
      → (apply_one handlers codec at c db).0.status ≢ retryable_error
      → let later =
          (push handlers codec user device others (apply_one handlers codec at c db).1).1 in
        (apply_one handlers codec at' other later ≡ (
          from_apply (base_of other.operation) (failed conflict "idempotency_key_reused"),
          later,
        ))
        ⊎ (apply_one handlers codec at' other later ≡ (retryable (base_of other.operation), later))
  reuse-refused at at' c other db hash hash' user device others hashed again differ same_user
        same_id fresh answered =
      let later = (push handlers codec user device others (apply_one handlers codec at c db).1).1 in
      let (a, r, kept) = answered-kept at c db hash user device others hashed fresh answered in
      apply_one-reused at' other later {st = (row_of c hash a at.now).stored} again
        (ap (λ u. find u other.operation.operation_id later.operations) same_user
          ∙ ap (λ i. find c.user_id i later.operations) same_id
          ∙ kept)
        differ
