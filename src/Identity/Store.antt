-- ===== src/Identity/Store.antt =====
-- The tables of migrations/00002_identity_and_subscription.sql that the identity module reads and
-- writes, and the counters in Redis.
use cv_agent.Base.{
  ℕ, String, Bool, false, ◌||◌, Option, none, some, List, [], ◌∷◌, str_eq, if◌then◌else◌,
}
use cv_agent.Db.{M}
use cv_agent.Db.Pool.{P}
use cv_agent.Identity.Domain.{AuthError, UserStatus, EmailChallenge, Session, Device}

pub record UserRow : Type 0 where
  pub id : String
  pub status : UserStatus
  pub created_at : ℕ

-- A row of `user_emails`. All of them are primary: nothing in the program inserts another.
pub record EmailRow : Type 0 where
  pub id : String
  pub user_id : String
  pub email_normalized : String
  pub email_display : String
  pub verified_at : ℕ

-- A key in Redis with its expiry in milliseconds.
pub record Counter : Type 0 where
  pub key : String
  pub count : ℕ
  pub expires_ms : ℕ

-- A row of `development_password_credentials`, whose key is the user.
pub record Credential : Type 0 where
  pub user_id : String
  pub password_hash : String

-- `profiles` are the users with a row in `user_profiles`.
pub record AuthStore : Type 0 where
  pub users : List UserRow
  pub emails : List EmailRow
  pub profiles : List String
  pub challenges : List EmailChallenge
  pub devices : List Device
  pub sessions : List Session
  pub counters : List Counter
  pub credentials : List Credential

-- A statement or a transaction's body, and a call of the pool.
abbrev pub Act : Type 0 → Type 0
Act A = M AuthStore AuthError A

abbrev pub Call : Type 0 → Type 0
Call A = P AuthStore AuthError A

unfoldable pub find_challenge : String → List EmailChallenge → Option EmailChallenge
find_challenge id [] = none
find_challenge id (c ∷ cs) = if str_eq c.id id then some c else find_challenge id cs

-- An UPDATE of the row with an identifier.
unfoldable pub update_challenge :
    (EmailChallenge → EmailChallenge) → String → List EmailChallenge → List EmailChallenge
update_challenge f id [] = []
update_challenge f id (c ∷ cs) =
    let rest = update_challenge f id cs in if str_eq c.id id then f c ∷ rest else c ∷ rest

unfoldable pub find_user_row : String → List UserRow → Option UserRow
find_user_row id [] = none
find_user_row id (u ∷ us) = if str_eq u.id id then some u else find_user_row id us

unfoldable pub find_email : String → List EmailRow → Option EmailRow
find_email email [] = none
find_email email (e ∷ es) = if str_eq e.email_normalized email then some e else find_email email es

unfoldable pub find_email_of : String → List EmailRow → Option EmailRow
find_email_of user [] = none
find_email_of user (e ∷ es) = if str_eq e.user_id user then some e else find_email_of user es

unfoldable pub has_email_id : String → List EmailRow → Bool
has_email_id id [] = false
has_email_id id (e ∷ es) = str_eq e.id id || has_email_id id es

unfoldable pub has_text : String → List String → Bool
has_text t [] = false
has_text t (s ∷ ss) = str_eq s t || has_text t ss

unfoldable pub find_credential : String → List Credential → Option Credential
find_credential user [] = none
find_credential user (c ∷ cs) = if str_eq c.user_id user then some c else find_credential user cs
