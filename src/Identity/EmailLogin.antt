-- ===== src/Identity/EmailLogin.antt =====
-- Login by a code in an e-mail: internal/modules/identity/application/email_login.go.
pub mod Logins
use Prim.Native.String.{◌++◌}
use cv_agent.Base.{
  ℕ, ◌+◌, ◌/◌, String, Bool, true, false, not, ◌&&◌, Option, none, some, List, [], ◌∷◌, str_eq, leb,
  ltb, ◌==◌, bytes, length, if◌then◌else◌,
}
use cv_agent.Db.{Result, ok, err}
use cv_agent.Db.Pool.{World, answer, ◌>=>◌}
use cv_agent.Platform.Id.{is_uuid}
use cv_agent.Sync.Operations.{second}
use cv_agent.Identity.Domain.{
  AuthError, challenge_invalid, rate_limited, email_delivery, User, DeliveryStatus, sent, failed,
  pending, EmailChallenge, valid_platform,
}
use cv_agent.Identity.Store.{AuthStore, Call}
use cv_agent.Identity.Codes.{generate_code, digits}
use cv_agent.Identity.Limiter.{RateLimitRule, allow}
use cv_agent.Identity.Challenges.{NewIds, create_challenge, mark_delivery, verify_and_resolve_user}
use cv_agent.Identity.Sessions.{DeviceInput, IssueEnv, IssuedSession, require, made, issue}

pub record EmailLoginConfig : Type 0 where
  pub ttl : ℕ
  pub resend_after : ℕ
  pub max_attempts : ℕ
  pub rate_window : ℕ
  pub email_send_limit : ℕ
  pub device_send_limit : ℕ
  pub ip_send_limit : ℕ
  pub verify_limit : ℕ

pub record ChallengeRequest : Type 0 where
  pub challenge_id : String
  pub email : String
  pub device : DeviceInput
  pub remote_ip : String

pub record ChallengeAccepted : Type 0 where
  pub challenge_id : String
  pub expires_at : ℕ
  pub retry_after_seconds : ℕ

pub record VerifyRequest : Type 0 where
  pub challenge_id : String
  pub code : String
  pub device : DeviceInput
  pub remote_ip : String

-- The library: strings.TrimSpace and ToLower, the address in mail.ParseAddress, HMAC-SHA-256 under
-- the service's key, and hex of what it gives.
pub record Library : Type 0 where
  pub trim_space : String → String
  pub to_lower : String → String
  pub parse_address : String → Option String
  pub mac : String → String
  pub hex : String → String

-- What one call finds around it: the clocks of the service and of Redis, the random numbers that are
-- drawn, and whether the e-mail is delivered.
pub record RequestEnv : Type 0 where
  pub now : ℕ
  pub redis_ms : ℕ
  pub draws : List ℕ
  pub delivers : Bool

pub record VerifyEnv : Type 0 where
  pub now : ℕ
  pub redis_ms : ℕ
  pub ids : NewIds
  pub issuing : IssueEnv

module _ (lib : Library) (cfg : EmailLoginConfig) where
  abbrev pub normalize_email : String → String
  normalize_email email = lib.to_lower (lib.trim_space email)

  abbrev pub address_is : Option String → String → Bool
  address_is none text = false
  address_is (some address) text = str_eq address text

  -- `validEmail`
  abbrev pub valid_email : String → Option String
  valid_email value =
      let trimmed = lib.trim_space value in
      if not (address_is (lib.parse_address trimmed) trimmed && leb (length (bytes trimmed)) 320)
      then none
      else some (normalize_email trimmed)

  -- `validDevice`: the lengths are in bytes.
  unfoldable pub valid_device : DeviceInput → Bool
  valid_device d =
      is_uuid d.id
      && valid_platform d.platform
      && leb 1 (length (bytes (lib.trim_space d.name)))
      && leb (length (bytes (lib.trim_space d.name))) 120
      && leb 1 (length (bytes d.app_version))
      && leb (length (bytes d.app_version)) 40

  -- `key`
  abbrev pub key_of : String → String → String
  key_of namespace value = "otp:" ++ (namespace ++ (":" ++ lib.hex (lib.mac value)))

  abbrev pub code_hash : String → String → String
  code_hash id code = lib.mac (id ++ ("\0" ++ code))

  abbrev pub rule : String → String → ℕ → ℕ → RateLimitRule
  rule namespace value limit window = record {
    key = key_of namespace value;
    limit = limit;
    window = window;
  }

  abbrev pub send_rules : String → ChallengeRequest → List RateLimitRule
  send_rules email req =
      rule "send:cooldown:email" email 1 cfg.resend_after
      ∷ rule "send:email" email cfg.email_send_limit cfg.rate_window
      ∷ rule "send:device" req.device.id cfg.device_send_limit cfg.rate_window
      ∷ rule "send:ip" req.remote_ip cfg.ip_send_limit cfg.rate_window
      ∷ []

  abbrev pub verify_rules : VerifyRequest → List RateLimitRule
  verify_rules req =
      rule "verify:challenge" req.challenge_id cfg.verify_limit cfg.rate_window
      ∷ rule "verify:device" req.device.id cfg.verify_limit cfg.rate_window
      ∷ rule "verify:ip" req.remote_ip cfg.verify_limit cfg.rate_window
      ∷ []

  abbrev pub challenge_of : RequestEnv → ChallengeRequest → String → String → EmailChallenge
  challenge_of env req email code = record {
    id = req.challenge_id;
    email_normalized = email;
    code_hash = code_hash req.challenge_id code;
    delivery_status = pending;
    attempt_count = 0;
    max_attempts = cfg.max_attempts;
    expires_at = env.now + cfg.ttl;
    consumed_at = none;
    request_ip_hash = lib.mac req.remote_ip;
    device_fingerprint_hash = lib.mac req.device.id;
    created_at = env.now;
  }

  abbrev pub accepted_request : RequestEnv → ChallengeRequest → ChallengeAccepted
  accepted_request env req = record {
    challenge_id = req.challenge_id;
    expires_at = env.now + cfg.ttl;
    retry_after_seconds = cfg.resend_after / second;
  }

  -- The error of marking a failed delivery is dropped.
  abbrev pub after_sending : RequestEnv → ChallengeRequest → Call ChallengeAccepted
  after_sending env req =
      if not env.delivers
      then (λ w. (err email_delivery, (mark_delivery req.challenge_id failed w).1))
      else mark_delivery req.challenge_id sent >=> λ x. answer (ok (accepted_request env req))

  abbrev pub send_code : RequestEnv → ChallengeRequest → String → Call ChallengeAccepted
  send_code env req email = allow env.redis_ms (send_rules email req) >=> λ allowed.
      require allowed rate_limited >=> λ x1. made (generate_code env.draws) >=> λ code.
      create_challenge (challenge_of env req email code) >=> λ x2. after_sending env req

  abbrev pub request_for : RequestEnv → ChallengeRequest → Option String → Call ChallengeAccepted
  request_for env req none = answer (err challenge_invalid)
  request_for env req (some email) =
      require (is_uuid req.challenge_id && valid_device req.device) challenge_invalid >=> λ x.
      send_code env req email

  -- `Request`
  unfoldable pub request : RequestEnv → ChallengeRequest → Call ChallengeAccepted
  unfolding valid_device
  request env req = request_for env req (valid_email req.email)

  abbrev pub is_verifiable : VerifyRequest → Bool
  is_verifiable req =
      is_uuid req.challenge_id
      && (length (bytes req.code) == 6)
      && digits req.code
      && valid_device req.device

  -- `Verify`, with the provisioner of the entitlement module.
  unfoldable pub verify :
      (String → Call (Unit {0})) → VerifyEnv → VerifyRequest → Call IssuedSession
  unfolding valid_device
  verify ensure_default env req = require (is_verifiable req) challenge_invalid >=> λ x1.
      allow env.redis_ms (verify_rules req) >=> λ allowed. require allowed rate_limited >=> λ x2.
      verify_and_resolve_user env.ids req.challenge_id (code_hash req.challenge_id req.code) env.now
      >=> λ user. ensure_default user.id >=> λ x3. issue env.issuing user req.device
