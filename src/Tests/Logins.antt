-- ===== src/Tests/Logins.antt =====
-- Logins, sessions, codes and the rate limiter at concrete inputs.
use cv_agent.Base.{
  ◌+◌, ◌*◌, String, ◌≡◌, refl, true, none, some, [], ◌∷◌, bytes, flatten_runes, encode_rune,
}
use cv_agent.Db.{ok, err}
use cv_agent.Db.Pool.{Fate, acknowledged, World, answer}
use cv_agent.Platform.Id.{is_uuid, is_uuid_bytes, hex_decode, from_hex_digit}
use cv_agent.Identity.Domain.{
  AuthError, User, active, sent, EmailChallenge, valid_platform, can_authenticate,
}
use cv_agent.Identity.Store.{
  AuthStore, Call, find_challenge, update_challenge, find_user_row, find_email, has_email_id,
  has_text,
}
use cv_agent.Identity.Codes.{digits}
use cv_agent.Identity.Limiter.{allow, any_full, count_all, invalid_rule, find_counter, count_up}
use cv_agent.Identity.Challenges.{
  NewIds, verify_and_resolve_user, judge, resolve_or_create_user, user_of_email,
}
use cv_agent.Identity.Challenges.Spent.{create, run_calls, single_use}
use cv_agent.Identity.Sessions.{
  DeviceInput, IssueEnv, IssuedSession, issue, find_device, refresh_device, has_session,
}
use cv_agent.Identity.Sessions.Book.{NoTwin, has_hash}
use cv_agent.Identity.EmailLogin
use cv_agent.Identity.EmailLogin.{
  Library, EmailLoginConfig, VerifyRequest, VerifyEnv, valid_device, code_hash,
}
use cv_agent.Identity.EmailLogin.Logins.{LoggedIn, verify-LoggedIn}

abbrev good : Fate
good = record { begins = true; budget = 9; commit = acknowledged }

abbrev library : Library
library = record {
  trim_space = λ s. s;
  to_lower = λ s. s;
  parse_address = λ s. some s;
  mac = λ s. s;
  hex = λ s. s;
}

abbrev limits : EmailLoginConfig
limits = record {
  ttl = 600000000000;
  resend_after = 60000000000;
  max_attempts = 5;
  rate_window = 3600000000000;
  email_send_limit = 5;
  device_send_limit = 10;
  ip_send_limit = 20;
  verify_limit = 10;
}

abbrev laptop : DeviceInput
laptop = record {
  id = "01900000-0000-7000-8000-0000000000d1";
  name = "Laptop";
  platform = "macos";
  app_version = "1.0";
}

abbrev login_request : VerifyRequest
login_request = record {
  challenge_id = "01900000-0000-7000-8000-0000000000c1";
  code = "004217";
  device = laptop;
  remote_ip = "192.0.2.1";
}

abbrev open_challenge : EmailChallenge
open_challenge = record {
  id = login_request.challenge_id;
  email_normalized = "a@example.com";
  code_hash = code_hash library limits login_request.challenge_id "004217";
  delivery_status = sent;
  attempt_count = 1;
  max_attempts = 5;
  expires_at = 700;
  consumed_at = none;
  request_ip_hash = "";
  device_fingerprint_hash = "";
  created_at = 100;
}

abbrev new_ids : NewIds
new_ids = record { user = some "u1"; email = some "e1" }

abbrev issuing : IssueEnv
issuing = record {
  now = 500;
  token = some "token";
  session_id = some "s1";
  trim_space = λ s. s;
  hash = λ s. s;
}

abbrev login_env : VerifyEnv
login_env = record { now = 400; redis_ms = 1000; ids = new_ids; issuing = issuing }

abbrev one_challenge : World AuthStore
one_challenge = record {
  store = record {
    users = [];
    emails = [];
    profiles = [];
    challenges = open_challenge ∷ [];
    devices = [];
    sessions = [];
    counters = [];
    credentials = [];
  };
  fates = good ∷ good ∷ good ∷ good ∷ good ∷ good ∷ [];
}

abbrev new_user : User
new_user = record { id = "u1"; status = active; email = "a@example.com" }

abbrev first_session : IssuedSession
first_session = record {
  token = "token";
  expires_at = 500 + 30 * 24 * 3600 * 1000000000;
  user = new_user;
  device = record {
    id = laptop.id;
    user_id = "u1";
    name = "Laptop";
    platform = "macos";
    app_version = "1.0";
    last_seen_at = 500;
    revoked_at = none;
  };
}

abbrev no_plans : String → Call (Unit {0})
no_plans user = answer (ok tt)

verify-LoggedIn_example :
    LoggedIn library limits login_env login_request one_challenge.store first_session
      (EmailLogin.verify library limits no_plans login_env login_request one_challenge).1.store
unfolding EmailLogin.verify valid_device is_uuid is_uuid_bytes hex_decode from_hex_digit bytes
    flatten_runes encode_rune digits valid_platform allow any_full count_all invalid_rule
    find_counter count_up verify_and_resolve_user judge resolve_or_create_user user_of_email
    find_challenge update_challenge find_user_row find_email has_email_id has_text can_authenticate
    issue find_device refresh_device has_session NoTwin has_hash
verify-LoggedIn_example =
    verify-LoggedIn library limits login_env login_request no_plans one_challenge tt (λ u v. refl)
      first_session refl

single_use_example :
    (e : AuthError) × ((verify_and_resolve_user new_ids login_request.challenge_id
        (code_hash library limits login_request.challenge_id "004217")
        401
        (run_calls
          (create open_challenge ∷ [])
          (verify_and_resolve_user new_ids login_request.challenge_id
            (code_hash library limits login_request.challenge_id "004217")
            400
            one_challenge).1)).0
      ≡ err e)
    × ((verify_and_resolve_user new_ids login_request.challenge_id
          (code_hash library limits login_request.challenge_id "004217")
          401
          (run_calls
            (create open_challenge ∷ [])
            (verify_and_resolve_user new_ids login_request.challenge_id
              (code_hash library limits login_request.challenge_id "004217")
              400
              one_challenge).1)).1.store
        ≡ (run_calls
            (create open_challenge ∷ [])
            (verify_and_resolve_user new_ids login_request.challenge_id
              (code_hash library limits login_request.challenge_id "004217")
              400
              one_challenge).1).store)
unfolding verify_and_resolve_user judge resolve_or_create_user user_of_email find_challenge
    update_challenge find_user_row find_email has_email_id has_text can_authenticate
single_use_example =
    single_use new_ids new_ids login_request.challenge_id
      (code_hash library limits login_request.challenge_id "004217")
      (code_hash library limits login_request.challenge_id "004217") 400 401 one_challenge new_user
      (create open_challenge ∷ []) refl
