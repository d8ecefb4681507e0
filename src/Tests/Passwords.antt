-- ===== src/Tests/Passwords.antt =====
-- A refused password login.
use cv_agent.Base.{String, ◌≡◌, refl, inl, false, none, some, [], ◌∷◌, str_eq, if◌then◌else◌}
use cv_agent.Db.{ok, err}
use cv_agent.Db.Pool.{World, sound, answer}
use cv_agent.Identity.Domain.{invalid_credentials, User, active, can_authenticate}
use cv_agent.Identity.Store.{
  AuthStore, Call, Credential, find_user_row, find_email, find_credential,
}
use cv_agent.Identity.Challenges.{user_of_email}
use cv_agent.Identity.Sessions.{IssueEnv}
use cv_agent.Identity.PasswordLogin.{
  DevLoginInput, DevLoginService, PasswordCheck, matches, mismatch, login,
}
use cv_agent.Identity.PasswordLogin.Passwords.{wrong_password, login_hides}

-- The check of a service whose hashes are the passwords.
abbrev plain_check : String → String → PasswordCheck
plain_check password hash = if str_eq password hash then matches else mismatch

abbrev service : DevLoginService
service = record {
  library = record {
    trim_space = λ s. s;
    to_lower = λ s. s;
    contains = λ s t. false;
    sha256_hex = λ s. "0123456789abcdef0123456789abcdef0123456789abcdef0123456789abcdef";
  };
  device_ns_salt = "salt";
  verify_password = plain_check;
}

abbrev no_plans : String → Call (Unit {0})
no_plans user = answer (ok tt)

abbrev env : IssueEnv
env = record {
  now = 5;
  token = some "t";
  session_id = some "s";
  trim_space = λ s. s;
  hash = λ s. s;
}

abbrev wrong_request : DevLoginInput
wrong_request = record {
  email = "a@example.com";
  password = "guess";
  device = none;
  fallback = record { user_agent = ""; remote_ip = ""; namespace = "" };
}

abbrev one_account : AuthStore
one_account = record {
  users = record { id = "u1"; status = active; created_at = 1 } ∷ [];
  emails =
      record {
        id = "e1";
        user_id = "u1";
        email_normalized = "a@example.com";
        email_display = "a@example.com";
        verified_at = 1;
      }
      ∷ [];
  profiles = [];
  challenges = [];
  devices = [];
  sessions = [];
  counters = [];
  credentials = record { user_id = "u1"; password_hash = "secret" } ∷ [];
}

abbrev its_user : User
its_user = record { id = "u1"; status = active; email = "a@example.com" }

abbrev its_password : Credential
its_password = record { user_id = "u1"; password_hash = "secret" }

abbrev sound_world : World AuthStore
sound_world = record { store = one_account; fates = sound 0 ∷ sound 0 ∷ [] }

login_hides_example :
    ((login service no_plans env wrong_request sound_world).0 ≡ err invalid_credentials)
    × ((login service no_plans env wrong_request sound_world).1.store ≡ one_account)
unfolding user_of_email find_user_row find_email find_credential can_authenticate
login_hides_example =
    login_hides service no_plans env wrong_request one_account 0 0 []
      (wrong_password its_user its_password refl refl (inl refl))
