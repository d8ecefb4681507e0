-- ===== src/Tests/Tokens.antt =====
-- Sessions, codes and the rate limiter at concrete inputs.
use cv_agent.Base.{ℕ, ◌+◌, ◌*◌, ◌<◌, ◌↔◌, String, ◌≡◌, refl, true, none, some, List, [], ◌∷◌, arith}
use cv_agent.Db.{err}
use cv_agent.Db.Pool.{Fate, acknowledged, lost, World}
use cv_agent.Identity.Domain.{AuthError, User, active, Session, Device, can_authenticate}
use cv_agent.Identity.Store.{AuthStore, find_user_row, find_email_of}
use cv_agent.Identity.Codes.{generate_code, format_code}
use cv_agent.Identity.Codes.Draws.{code_draws}
use cv_agent.Identity.Limiter.{
  RateLimitRule, allow, any_full, count_all, invalid_rule, find_counter, count_up,
}
use cv_agent.Identity.Limiter.Windows.{AllApart, Counted, allow-Counted}
use cv_agent.Identity.Limiter.Bounds.{OfLimits, InLimits, allow-InLimits}
use cv_agent.Identity.Sessions.{
  DeviceInput, IssueEnv, authenticate, logout, find_device, find_live_session,
  find_live_by_token_hash, update_sessions,
}
use cv_agent.Identity.Sessions.Book.{
  NoTwin, has_hash, serve, issue_to, authenticate_by, log_out, known, book,
}
use cv_agent.Identity.Sessions.Outcomes.{Moved, Served}
use cv_agent.Identity.Sessions.Refines.{serve-Moved, serve-Served, serve_all, logged_out_forever}

abbrev good : Fate
good = record { begins = true; budget = 9; commit = acknowledged }

abbrev env_at : ℕ → String → IssueEnv
env_at now token = record {
  now = now;
  token = some token;
  session_id = some token;
  trim_space = λ s. s;
  hash = λ s. s;
}

abbrev session_a : Session
session_a = record {
  id = "s1";
  user_id = "u1";
  device_id = "d1";
  token_hash = "a";
  expires_at = 1000;
  last_used_at = 10;
  revoked_at = none;
  created_at = 10;
}

abbrev device_one : Device
device_one = record {
  id = "d1";
  user_id = "u1";
  name = "Laptop";
  platform = "linux";
  app_version = "1.0";
  last_seen_at = 10;
  revoked_at = none;
}

abbrev one_session : World AuthStore
one_session = record {
  store = record {
    users = record { id = "u1"; status = active; created_at = 1 } ∷ [];
    emails = [];
    profiles = [];
    challenges = [];
    devices = device_one ∷ [];
    sessions = session_a ∷ [];
    counters = record { key = "k"; count = 1; expires_ms = 50 } ∷ [];
    credentials = [];
  };
  fates = good ∷ good ∷ good ∷ good ∷ [];
}

abbrev user_one : User
user_one = record { id = "u1"; status = active; email = "" }

abbrev linux_input : DeviceInput
linux_input = record { id = "d1"; name = "Laptop"; platform = "linux"; app_version = "1.1" }

serve-Served_example :
    Served
      (env_at 20 "b")
      (authenticate_by "a")
      (book one_session.store)
      (known user_one session_a)
      (serve (env_at 20 "b") (authenticate_by "a") one_session).1.store
unfolding NoTwin has_hash authenticate find_live_by_token_hash find_live_session find_user_row
    find_device find_email_of can_authenticate update_sessions
serve-Served_example =
    serve-Served (env_at 20 "b") (authenticate_by "a") one_session (refl, tt)
      (known user_one session_a) refl

-- The commit of the new session is lost on its way.
abbrev unlucky : World AuthStore
unlucky = record {
  store = one_session.store;
  fates = good ∷ record { begins = true; budget = 9; commit = lost } ∷ [];
}

serve-Moved_example :
    Moved
      (env_at 20 "b")
      (issue_to user_one linux_input)
      (book unlucky.store)
      (serve (env_at 20 "b") (issue_to user_one linux_input) unlucky).1.store
unfolding NoTwin has_hash
serve-Moved_example = serve-Moved (env_at 20 "b") (issue_to user_one linux_input) unlucky (refl, tt)

abbrev after_logout : World AuthStore
after_logout =
    serve_all ((env_at 40 "b", issue_to user_one linux_input) ∷ [])
      (serve (env_at 20 "b") (log_out "a") one_session).1

logged_out_forever_example :
    ((e : AuthError) × ((serve (env_at 50 "c") (authenticate_by "a") after_logout).0 ≡ err e))
    × ((e : AuthError) × ((serve (env_at 50 "c") (log_out "a") after_logout).0 ≡ err e))
unfolding NoTwin has_hash logout update_sessions
logged_out_forever_example =
    logged_out_forever (env_at 20 "b") (env_at 50 "c") "a" one_session (refl, tt) refl
      ((env_at 40 "b", issue_to user_one linux_input) ∷ []) refl

code_draws_example :
    (generate_code (1000042 ∷ []) ≡ some (format_code 42))
    ↔ ((i : ℕ) × (i < 4294) × (1000042 ≡ i * 1000000 + 42))
code_draws_example = code_draws 42 1000042 (omega arith)

abbrev two_rules : List RateLimitRule
two_rules =
    record { key = "k"; limit = 2; window = 5000000 }
    ∷ record { key = "l"; limit = 1; window = 5000000 }
    ∷ []

allow-Counted_example :
    Counted 20 two_rules one_session.store true (allow 20 two_rules one_session).1.store
unfolding AllApart allow any_full count_all invalid_rule find_counter count_up
allow-Counted_example =
    allow-Counted 20 one_session two_rules ((refl, tt), omega arith, (tt, omega arith, tt)) true
      refl

abbrev two_each : String → ℕ
two_each key = 2

allow-InLimits_example : InLimits two_each (allow 20 two_rules one_session).1.store.counters
unfolding OfLimits
allow-InLimits_example =
    allow-InLimits two_each 20 two_rules one_session
      ((refl, tt), omega arith, (tt, omega arith, tt)) (omega arith, tt)
