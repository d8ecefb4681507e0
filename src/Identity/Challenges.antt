-- ===== src/Identity/Challenges.antt =====
-- internal/modules/identity/postgres/challenge_repo.go: the rows of `email_login_challenges`, and the
-- account of the address that a code proves.
pub mod Rows
pub mod Accounts
pub mod Verdicts
pub mod Spent
use cv_agent.Base.{
  ℕ, ◌+◌, String, Bool, true, false, not, ◌&&◌, ◌||◌, Option, none, some, List, [], ◌∷◌, str_eq,
  ltb, leb, if◌then◌else◌,
}
use cv_agent.Db.{Result, ok, err, Tx, M, ◌>>=◌, ◌>>◌, pure, fail, query, exec, or_fail, when}
use cv_agent.Db.Pool.{P, atomically, statement}
use cv_agent.Identity.Domain.{
  AuthError, user_not_active, challenge_invalid, challenge_expired, challenge_attempts, internal,
  UserStatus, active, can_authenticate, User, DeliveryStatus, pending, sent, failed, EmailChallenge,
  is_none,
}
use cv_agent.Identity.Store.{
  UserRow, EmailRow, AuthStore, Act, Call, find_challenge, update_challenge, find_user_row,
  find_email, has_email_id, has_text,
}

abbrev pub is_some_challenge : Option EmailChallenge → Bool
is_some_challenge none = false
is_some_challenge (some _) = true

-- The checks of the table on a new row: its key, and `max_attempts` between 1 and 10.
abbrev pub refuses_challenge : EmailChallenge → List EmailChallenge → Bool
refuses_challenge c rows =
    is_some_challenge (find_challenge c.id rows)
    || not (leb 1 c.max_attempts && leb c.max_attempts 10)

-- `Create`: the row is pending, with no attempt and not consumed.
abbrev pub new_row : EmailChallenge → EmailChallenge
new_row c = record c { delivery_status = pending; attempt_count = 0; consumed_at = none }

abbrev pub row_added : EmailChallenge → AuthStore → Unit {0} × AuthStore
row_added c s = (tt, record s { challenges = new_row c ∷ s.challenges })

abbrev pub insert_challenge : EmailChallenge → Act (Unit {0})
insert_challenge c =
    exec internal internal
      λ s. if refuses_challenge c s.challenges then none else some (row_added c s)

unfoldable pub create_challenge : EmailChallenge → Call (Unit {0})
create_challenge c = statement internal (insert_challenge c)

abbrev pub mark_delivery_row : DeliveryStatus → EmailChallenge → EmailChallenge
mark_delivery_row d c = record c {
  delivery_status = elim c.delivery_status [ pending ↦ d | sent ↦ sent | failed ↦ failed ];
}

abbrev pub delivery_marked : String → DeliveryStatus → AuthStore → Unit {0} × AuthStore
delivery_marked id d s =
    (tt, record s { challenges = update_challenge (mark_delivery_row d) id s.challenges })

abbrev pub update_delivery : String → DeliveryStatus → Act (Unit {0})
update_delivery id d = exec internal internal λ s. some (delivery_marked id d s)

-- `MarkDelivery`, which is called with `sent` and `failed` alone.
unfoldable pub mark_delivery : String → DeliveryStatus → Call (Unit {0})
mark_delivery id d = statement internal (update_delivery id d)

-- The columns that a wrong and a right code set.
abbrev pub count_attempt : ℕ → EmailChallenge → EmailChallenge
count_attempt n c = record c { attempt_count = n }

abbrev pub consume : ℕ → EmailChallenge → EmailChallenge
consume now c = record c { consumed_at = some now }

-- The identifiers that `resolveOrCreateUser` makes; `none` if there is no entropy.
pub record NewIds : Type 0 where
  pub user : Option String
  pub email : Option String

abbrev pub user_row_inserted : String → ℕ → AuthStore → Option (Unit {0} × AuthStore)
user_row_inserted id now s = elim (find_user_row id s.users) [
  | some _ ↦ none
  | none ↦
      some
        (tt, record s { users = record { id = id; status = active; created_at = now } ∷ s.users })
]

abbrev pub new_email : String → String → String → ℕ → EmailRow
new_email id user email now = record {
  id = id;
  user_id = user;
  email_normalized = email;
  email_display = email;
  verified_at = now;
}

-- The key and UNIQUE (email_normalized).
abbrev pub email_inserted : EmailRow → AuthStore → Option (Unit {0} × AuthStore)
email_inserted e s = elim (find_email e.email_normalized s.emails) [
  | some _ ↦ none
  | none ↦
      if has_email_id e.id s.emails then none else some (tt, record s { emails = e ∷ s.emails })
]

-- `user_profiles` has one row for each user, of the user's identifier.
abbrev pub profile_inserted : String → AuthStore → Option (Unit {0} × AuthStore)
profile_inserted user s =
    if has_text user s.profiles then none else some (tt, record s { profiles = user ∷ s.profiles })

abbrev pub create_account : NewIds → String → ℕ → Act User
create_account ids email now = do
  uid ← or_fail internal ids.user
  exec internal internal (user_row_inserted uid now)
  eid ← or_fail internal ids.email
  exec internal internal (email_inserted (new_email eid uid email now))
  exec internal internal (profile_inserted uid)
  pure (record { id = uid; status = active; email = email })

-- The join of a user and its primary address.
abbrev pub joined : AuthStore → Option EmailRow → Option User
joined s none = none
joined s (some e) = elim (find_user_row e.user_id s.users) [
  | none ↦ none
  | some u ↦ some (record { id = u.id; status = u.status; email = e.email_display })
]

unfoldable pub user_of_email : String → AuthStore → Option User
user_of_email email s = joined s (find_email email s.emails)

abbrev pub admit : NewIds → String → ℕ → Option User → Act User
admit ids email now none = create_account ids email now
admit ids email now (some u) = when (can_authenticate u.status) user_not_active (pure u)

-- `resolveOrCreateUser`
unfoldable pub resolve_or_create_user : NewIds → String → ℕ → Act User
resolve_or_create_user ids email now = do
  found ← query internal (user_of_email email)
  admit ids email now found

-- A code that is not the challenge's. The attempt is committed, so the error is a value.
abbrev pub reject_code : EmailChallenge → Act (Result AuthError User)
reject_code c = do
  exec internal internal (λ s.
      if ltb c.max_attempts (c.attempt_count + 1)
      then none
      else some (
        tt,
        record s {
          challenges = update_challenge (count_attempt (c.attempt_count + 1)) c.id s.challenges;
        },
      ))
  pure (
      err (
        if leb c.max_attempts (c.attempt_count + 1) then challenge_attempts else challenge_invalid))

abbrev pub accept_code : NewIds → ℕ → EmailChallenge → Act (Result AuthError User)
accept_code ids now c = do
  query internal (λ s. tt)
  user ← resolve_or_create_user ids c.email_normalized now
  exec internal internal
      (λ s. some (tt, record s { challenges = update_challenge (consume now) c.id s.challenges }))
  pure (ok user)

abbrev pub is_sent : EmailChallenge → Bool
is_sent c = elim c.delivery_status [ sent ↦ true | _ ↦ false ]

-- From the checks on the row on.
unfoldable pub judge : NewIds → ℕ → String → EmailChallenge → Act (Result AuthError User)
unfolding resolve_or_create_user
judge ids now hash c = when (is_sent c && is_none c.consumed_at) challenge_invalid (
    when (ltb now c.expires_at) challenge_expired (
      when (ltb c.attempt_count c.max_attempts) challenge_attempts
        (if not (str_eq c.code_hash hash) then reject_code c else accept_code ids now c)))

abbrev pub load_challenge : String → Act EmailChallenge
load_challenge id = do
  found ← query internal (λ s. find_challenge id s.challenges)
  or_fail challenge_invalid found

-- `VerifyAndResolveUser`
unfoldable pub verify_and_resolve_user : NewIds → String → String → ℕ → Call User
unfolding judge
verify_and_resolve_user ids id hash now =
    atomically internal (do c ← load_challenge id; judge ids now hash c)
