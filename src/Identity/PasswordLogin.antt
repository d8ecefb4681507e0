-- ===== src/Identity/PasswordLogin.antt =====
-- Login by a password, for development: internal/modules/identity/application/login_dev.go with
-- internal/modules/identity/postgres/user_repo.go.
pub mod Passwords
use cv_agent.Base.{String, Bool, true, false, ◌||◌, Option, none, some, is_empty, if◌then◌else◌}
use cv_agent.Db.{Result, ok, err, ◌>>=◌, query, or_fail}
use cv_agent.Db.Pool.{answer, statement, ◌>=>◌}
use cv_agent.Identity.Domain.{AuthError, invalid_credentials, internal, User, can_authenticate}
use cv_agent.Identity.Store.{AuthStore, Act, Call, Credential, find_credential}
use cv_agent.Identity.Challenges.{user_of_email}
use cv_agent.Identity.Fallback.{DeviceFallback, DeviceLibrary, resolve_device}
use cv_agent.Identity.Sessions.{DeviceInput, IssueEnv, IssuedSession, require, issue}

-- `DevLoginInput`
pub record DevLoginInput : Type 0 where
  pub email : String
  pub password : String
  pub device : Option DeviceInput
  pub fallback : DeviceFallback

-- What `security.VerifyPassword` comes to: nil, ErrPasswordMismatch or ErrInvalidPasswordHash.
pub data PasswordCheck : Type 0 where
  matches mismatch invalid_hash : PasswordCheck

-- The service: its salt of device namespaces, and the check of a password against a PHC string.
pub record DevLoginService : Type 0 where
  pub library : DeviceLibrary
  pub device_ns_salt : String
  pub verify_password : String → String → PasswordCheck

-- u.status = 'active'
abbrev pub if_active : Option User → Option User
if_active none = none
if_active (some u) = if can_authenticate u.status then some u else none

-- `FindActiveByNormalizedEmail`
unfoldable pub find_active_by_email : String → Call User
find_active_by_email email = statement internal (do
  found ← query internal (λ s. if_active (user_of_email email s))
  or_fail invalid_credentials found)

abbrev pub hash_of : Option Credential → Option String
hash_of none = none
hash_of (some c) = some c.password_hash

-- `FindPasswordHash`
unfoldable pub find_password_hash : String → Call String
unfolding find_credential
find_password_hash user = statement internal (do
  found ← query internal (λ s. hash_of (find_credential user s.credentials))
  or_fail invalid_credentials found)

abbrev pub password_result : PasswordCheck → Result AuthError (Unit {0})
password_result matches = ok tt
password_result mismatch = err invalid_credentials
password_result invalid_hash = err invalid_credentials

abbrev pub with_namespace : String → DeviceFallback → DeviceFallback
with_namespace salt fb = if is_empty fb.namespace then record fb { namespace = salt } else fb

module _ (service : DevLoginService) (ensure_default : String → Call (Unit {0}))
    (env : IssueEnv) where
  abbrev pub normalized : String → String
  normalized email = service.library.to_lower (service.library.trim_space email)

  abbrev pub not_blank : DevLoginInput → Bool
  not_blank req = if is_empty (normalized req.email) || is_empty req.password then false else true

  -- `Login`
  unfoldable pub login : DevLoginInput → Call IssuedSession
  unfolding find_active_by_email find_password_hash
  login req = require (not_blank req) invalid_credentials >=> λ x1.
      find_active_by_email (normalized req.email) >=> λ user. find_password_hash user.id >=> λ hash.
      answer (password_result (service.verify_password req.password hash)) >=> λ x2.
      ensure_default user.id >=> λ x3.
      answer (
        resolve_device service.library user.id req.device
          (with_namespace service.device_ns_salt req.fallback))
      >=> λ device. issue env user device
