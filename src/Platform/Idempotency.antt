-- ===== src/Platform/Idempotency.antt =====
-- internal/platform/idempotency/store.go: keys of HTTP requests that create something.
pub mod Replays
use cv_agent.Base.{
  ℕ, ◌+◌, ◌*◌, String, Bool, true, false, ◌&&◌, ◌||◌, Option, none, some, List, [], ◌∷◌, bytes,
  length, is_empty, str_eq, ltb, if◌then◌else◌,
}
use cv_agent.Db.{M, ◌>>=◌, pure, fail, query, exec, or_fail, when}

-- 24 hours, in nanoseconds.
abbrev pub retention : ℕ
retention = 24 * 3600 * 1000000000

pub data IdempotencyError : Type 0 where
  key_required key_reused backend : IdempotencyError

-- `Command`
pub record KeyCommand : Type 0 where
  pub scope : String
  pub key : String
  pub request_hash : String

-- `Record`
pub record Reservation : Type 0 where
  pub resource_id : String
  pub replay : Bool

-- A row of `http_idempotency_records`.
pub record KeyRow : Type 0 where
  pub user_id : String
  pub scope : String
  pub idempotency_key : String
  pub request_hash : String
  pub resource_type : String
  pub resource_id : String
  pub created_at : ℕ
  pub expires_at : ℕ

abbrev pub is_row : String → String → String → KeyRow → Bool
is_row user scope key r =
    str_eq r.user_id user && str_eq r.scope scope && str_eq r.idempotency_key key

unfoldable pub find_row : String → String → String → List KeyRow → Option KeyRow
find_row user scope key [] = none
find_row user scope key (r ∷ rs) =
    if is_row user scope key r then some r else find_row user scope key rs

-- ON CONFLICT (user_id, scope, idempotency_key) DO NOTHING, and whether a row was written.
abbrev pub reserved : KeyRow → List KeyRow → Option KeyRow → Bool × List KeyRow
reserved new rows none = (true, new ∷ rows)
reserved new rows (some _) = (false, rows)

abbrev pub insert_row : KeyRow → List KeyRow → Bool × List KeyRow
insert_row new rows = reserved new rows (find_row new.user_id new.scope new.idempotency_key rows)

abbrev pub compare_hash : String → KeyRow → M (List KeyRow) IdempotencyError Reservation
compare_hash hash r =
    when (str_eq r.request_hash hash) key_reused
      (pure (record { resource_id = r.resource_id; replay = true }))

-- strings.TrimSpace is a parameter.
module _ (trim_space : String → String) where
  abbrev pub is_acceptable : KeyCommand → Bool
  is_acceptable c =
      let key = trim_space c.key in
      if is_empty key || ltb 160 (length (bytes key)) || is_empty c.scope || is_empty c.request_hash
      then false
      else true

  abbrev pub row_of : String → String → String → KeyCommand → ℕ → KeyRow
  row_of user resource_type resource_id c now = record {
    user_id = user;
    scope = c.scope;
    idempotency_key = trim_space c.key;
    request_hash = c.request_hash;
    resource_type = resource_type;
    resource_id = resource_id;
    created_at = now;
    expires_at = now + retention;
  }

  abbrev pub load_row : String → KeyCommand → M (List KeyRow) IdempotencyError KeyRow
  load_row user c = do
    found ← query backend (find_row user c.scope (trim_space c.key))
    or_fail backend found

  abbrev pub replay_row : String → KeyCommand → M (List KeyRow) IdempotencyError Reservation
  replay_row user c = do r ← load_row user c; compare_hash c.request_hash r

  abbrev pub answer_of :
      String → String → KeyCommand → Bool → M (List KeyRow) IdempotencyError Reservation
  answer_of user resource_id c true = pure (record { resource_id = resource_id; replay = false })
  answer_of user resource_id c false = replay_row user c

  -- `Reserve` from its statements on.
  abbrev pub reserve_rows :
      String → String → String → KeyCommand → ℕ → M (List KeyRow) IdempotencyError Reservation
  reserve_rows user resource_type resource_id c now = do
    inserted ←
        exec backend backend
          (λ rows. some (insert_row (row_of user resource_type resource_id c now) rows))
    answer_of user resource_id c inserted

  -- `Reserve`, in the transaction of its caller.
  unfoldable pub reserve :
      String → String → String → KeyCommand → ℕ → M (List KeyRow) IdempotencyError Reservation
  unfolding find_row
  reserve user resource_type resource_id c now =
      when (is_acceptable c) key_required (reserve_rows user resource_type resource_id c now)
