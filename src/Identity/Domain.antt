-- ===== src/Identity/Domain.antt =====
-- internal/modules/identity/domain: user.go, session.go and challenge.go.
use cv_agent.Base.{
  ℕ, String, Bool, true, false, not, ◌||◌, Option, none, some, str_eq, ltb, if◌then◌else◌,
}

-- The sentinel errors. `ErrDeviceRevoked` is returned nowhere.
pub data AuthError : Type 0 where
  invalid_credentials session_invalid user_not_active device_not_found device_conflict : AuthError
  invalid_device_input challenge_invalid challenge_expired challenge_attempts : AuthError
  rate_limited email_delivery : AuthError
  -- `ErrDefaultSubscriptionUnavailable`, from the provisioner.
  subscription_unavailable : AuthError
  -- Any error of the database, of Redis or of the platform.
  internal : AuthError

pub data UserStatus : Type 0 where
  active suspended pending_deletion deleted : UserStatus

unfoldable pub can_authenticate : UserStatus → Bool
can_authenticate active = true
can_authenticate _ = false

pub record User : Type 0 where
  pub id : String
  pub status : UserStatus
  pub email : String

pub data DeliveryStatus : Type 0 where
  pending sent failed : DeliveryStatus

-- A hash is kept as its text. `EmailDisplay` is neither set nor read.
pub record EmailChallenge : Type 0 where
  pub id : String
  pub email_normalized : String
  pub code_hash : String
  pub delivery_status : DeliveryStatus
  pub attempt_count : ℕ
  pub max_attempts : ℕ
  pub expires_at : ℕ
  pub consumed_at : Option ℕ
  pub request_ip_hash : String
  pub device_fingerprint_hash : String
  pub created_at : ℕ

pub record Session : Type 0 where
  pub id : String
  pub user_id : String
  pub device_id : String
  pub token_hash : String
  pub expires_at : ℕ
  pub last_used_at : ℕ
  pub revoked_at : Option ℕ
  pub created_at : ℕ

abbrev pub is_none {ℓ} : {A : Type ℓ} → Option A → Bool
is_none none = true
is_none (some _) = false

-- `IsLive`
unfoldable pub is_live_session : ℕ → Session → Bool
is_live_session now s = if not (is_none s.revoked_at) then false else ltb now s.expires_at

pub record Device : Type 0 where
  pub id : String
  pub user_id : String
  pub name : String
  pub platform : String
  pub app_version : String
  pub last_seen_at : ℕ
  pub revoked_at : Option ℕ

unfoldable pub valid_platform : String → Bool
valid_platform p = str_eq p "macos" || str_eq p "windows" || str_eq p "linux"
