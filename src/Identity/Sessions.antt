-- ===== src/Identity/Sessions.antt =====
-- Sessions and devices: internal/modules/identity/application/session_service.go with
-- internal/modules/identity/postgres/session_repo.go and device_repo.go. The keys from sessions to
-- users and devices, and the CHECKs on the lengths of device columns, are not modelled: the
-- callers write only users and devices that are there, and lengths that they have checked.
pub mod Book
pub mod Issues
pub mod Lookups
pub mod Moves
pub mod Outcomes
pub mod Refines
pub mod Rows
use cv_agent.Base.{
  ℕ, zero, suc, ◌+◌, ◌-◌, ◌*◌, String, Bool, true, false, not, ◌&&◌, ◌||◌, Option, none, some, List,
  [], ◌∷◌, str_eq, ltb, if◌then◌else◌,
}
use cv_agent.Db.{Result, ok, err, M, ◌>>=◌, ◌>>◌, pure, fail, query, exec, or_fail, when}
use cv_agent.Db.Pool.{World, P, ◌>=>◌, answer, statement}
use cv_agent.Sync.Operations.{second}
use cv_agent.Identity.Domain.{
  AuthError, session_invalid, user_not_active, device_not_found, device_conflict,
  invalid_device_input, internal, UserStatus, can_authenticate, User, Session, Device, is_none,
  valid_platform,
}
use cv_agent.Identity.Store.{UserRow, EmailRow, AuthStore, Act, Call, find_user_row, find_email_of}

abbrev pub session_ttl : ℕ
session_ttl = 30 * 24 * 3600 * second

abbrev pub last_used_refresh_interval : ℕ
last_used_refresh_interval = 600 * second

-- `DeviceInput`
pub record DeviceInput : Type 0 where
  pub id : String
  pub name : String
  pub platform : String
  pub app_version : String

-- Rows of `devices`, by their key.
unfoldable pub find_device : String → List Device → Option Device
find_device id [] = none
find_device id (d ∷ ds) = if str_eq d.id id then some d else find_device id ds

-- ON CONFLICT (id) DO UPDATE: the platform of a known device stays.
abbrev pub refreshed : Device → Device → Device
refreshed new old = record old {
  name = new.name;
  app_version = new.app_version;
  last_seen_at = new.last_seen_at;
}

unfoldable pub refresh_device : Device → List Device → List Device
refresh_device new [] = []
refresh_device new (d ∷ ds) =
    let rest = refresh_device new ds in
    if str_eq d.id new.id then refreshed new d ∷ rest else d ∷ rest

-- `none`: the identifier is another user's, and no row is returned.
abbrev pub upserted : Device → Option Device → List Device → Option (List Device)
upserted new none ds = some (new ∷ ds)
upserted new (some old) ds =
    if str_eq old.user_id new.user_id then some (refresh_device new ds) else none

abbrev pub device_written : Device → AuthStore → Bool × AuthStore
device_written d s = elim (upserted d (find_device d.id s.devices) s.devices) [
  | none ↦ (false, s)
  | some ds ↦ (true, record s { devices = ds })
]

abbrev pub if_written : Bool → Act (Unit {0})
if_written written = when written device_conflict (pure tt)

abbrev pub upsert_device : Device → Act (Unit {0})
upsert_device d = do
  written ← exec internal internal (λ s. some (device_written d s))
  if_written written

-- Rows of `auth_sessions`. UNIQUE (token_hash), and the key.
unfoldable pub has_session : Session → List Session → Bool
has_session s [] = false
has_session s (r ∷ rs) = str_eq r.id s.id || str_eq r.token_hash s.token_hash || has_session s rs

abbrev pub session_added : Session → AuthStore → Unit {0} × AuthStore
session_added x s = (tt, record s { sessions = x ∷ s.sessions })

abbrev pub insert_session : Session → Act (Unit {0})
insert_session x =
    exec internal internal λ s. if has_session x s.sessions then none else some (session_added x s)

-- What `selectLiveSession` asks of a row and its joins.
abbrev pub device_active : String → String → List Device → Bool
device_active user id ds = elim (find_device id ds) [
  | none ↦ false
  | some d ↦ str_eq d.user_id user && is_none d.revoked_at
]

abbrev pub is_live_row : String → ℕ → AuthStore → Session → Bool
is_live_row hash now s r =
    str_eq r.token_hash hash
    && is_none r.revoked_at
    && ltb now r.expires_at
    && device_active r.user_id r.device_id s.devices
    && not (is_none (find_user_row r.user_id s.users))

unfoldable pub find_live_session : String → ℕ → AuthStore → List Session → Option Session
find_live_session hash now s [] = none
find_live_session hash now s (r ∷ rs) =
    if is_live_row hash now s r then some r else find_live_session hash now s rs

-- `AuthLookup`
pub record AuthLookup : Type 0 where
  pub session : Session
  pub user_status : UserStatus
  pub email : String

-- COALESCE(e.email_display, '')
abbrev pub display_of : Option EmailRow → String
display_of none = ""
display_of (some e) = e.email_display

abbrev pub looked_up : AuthStore → Option Session → Option AuthLookup
looked_up s none = none
looked_up s (some r) = elim (find_user_row r.user_id s.users) [
  | none ↦ none
  | some u ↦ some (record {
    session = r;
    user_status = u.status;
    email = display_of (find_email_of r.user_id s.emails);
  })
]

-- `FindLiveByTokenHash`
unfoldable pub find_live_by_token_hash : String → ℕ → AuthStore → Option AuthLookup
unfolding find_live_session
find_live_by_token_hash hash now s = looked_up s (find_live_session hash now s s.sessions)

-- An UPDATE of sessions that are not revoked, where a test holds: the rows after it, and how many.
unfoldable pub update_sessions :
    (Session → Bool) → (Session → Session) → List Session → List Session × ℕ
update_sessions test f [] = ([], 0)
update_sessions test f (r ∷ rs) =
    let (rest, n) = update_sessions test f rs in
    if is_none r.revoked_at && test r then (f r ∷ rest, suc n) else (r ∷ rest, n)

abbrev pub revoke_at : ℕ → Session → Session
revoke_at now r = record r { revoked_at = some now }

abbrev pub touch_at : ℕ → Session → Session
touch_at now r = record r { last_used_at = now }

-- `TouchLastUsed`
abbrev pub touched : String → ℕ → ℕ → AuthStore → Unit {0} × AuthStore
touched id now threshold s = (
  tt,
  record s {
    sessions =
        (update_sessions (λ r. str_eq r.id id && ltb r.last_used_at threshold) (touch_at now)
          s.sessions).0;
  },
)

abbrev pub touch_last_used : String → ℕ → ℕ → Act (Unit {0})
touch_last_used id now threshold = exec internal internal λ s. some (touched id now threshold s)

-- `RevokeByTokenHash`
abbrev pub is_positive : ℕ → Bool
is_positive zero = false
is_positive (suc n) = true

abbrev pub token_revoked : String → ℕ → AuthStore → Bool × AuthStore
token_revoked hash now s =
    let (rows, n) = update_sessions (λ r. str_eq r.token_hash hash) (revoke_at now) s.sessions in
    (is_positive n, record s { sessions = rows })

abbrev pub revoke_by_token_hash : String → ℕ → Act Bool
revoke_by_token_hash hash now = exec internal internal λ s. some (token_revoked hash now s)

-- `RevokeDeviceSessions`
abbrev pub owns_device : String → String → List Device → Bool
owns_device user id ds = elim (find_device id ds) [ none ↦ false | some d ↦ str_eq d.user_id user ]

abbrev pub device_revoked : String → String → ℕ → AuthStore → (ℕ × Bool) × AuthStore
device_revoked user device now s =
    let (rows, n) =
      update_sessions (λ r. str_eq r.user_id user && str_eq r.device_id device) (revoke_at now)
        s.sessions in
    if owns_device user device s.devices
    then ((n, true), record s { sessions = rows })
    else ((0, false), s)

abbrev pub revoke_device_sessions : String → String → ℕ → Act (ℕ × Bool)
revoke_device_sessions user device now =
    exec internal internal λ s. some (device_revoked user device now s)

-- What a call makes afresh: the clock, an opaque token and the identifier of its session; `none` if
-- there is no entropy. `hash` is SHA-256 of a token.
pub record IssueEnv : Type 0 where
  pub now : ℕ
  pub token : Option String
  pub session_id : Option String
  pub trim_space : String → String
  pub hash : String → String

pub record IssuedSession : Type 0 where
  pub token : String
  pub expires_at : ℕ
  pub user : User
  pub device : Device

abbrev pub require : Bool → AuthError → Call (Unit {0})
require b e = answer (if b then ok tt else err e)

abbrev pub made : Option String → Call String
made none = answer (err internal)
made (some x) = answer (ok x)

module _ (env : IssueEnv) where
  abbrev pub device_of : User → DeviceInput → Device
  device_of user d = record {
    id = d.id;
    user_id = user.id;
    name = env.trim_space d.name;
    platform = d.platform;
    app_version = d.app_version;
    last_seen_at = env.now;
    revoked_at = none;
  }

  abbrev pub session_of : User → DeviceInput → String → String → Session
  session_of user d token id = record {
    id = id;
    user_id = user.id;
    device_id = d.id;
    token_hash = env.hash token;
    expires_at = env.now + session_ttl;
    last_used_at = env.now;
    revoked_at = none;
    created_at = env.now;
  }

  abbrev pub issued_by : User → DeviceInput → String → IssuedSession
  issued_by user d token = record {
    token = token;
    expires_at = env.now + session_ttl;
    user = user;
    device = device_of user d;
  }

  -- `Issue`
  unfoldable pub issue : User → DeviceInput → Call IssuedSession
  issue user d = require (can_authenticate user.status) user_not_active >=> λ x1.
      require (valid_platform d.platform) invalid_device_input >=> λ x2.
      statement internal (upsert_device (device_of user d)) >=> λ x3. made env.token >=> λ token.
      made env.session_id >=> λ id.
      statement internal (insert_session (session_of user d token id)) >=> λ x4.
      answer (ok (issued_by user d token))

  -- A call whose error is dropped.
  abbrev pub then_return : {A B : Type 0} → Call A → B → Call B
  then_return m b w = (ok b, (m w).1)

  abbrev pub load_live : String → Act AuthLookup
  load_live token = do
    found ← query internal (find_live_by_token_hash (env.hash token) env.now)
    or_fail session_invalid found

  abbrev pub user_of : AuthLookup → User
  user_of l = record { id = l.session.user_id; status = l.user_status; email = l.email }

  abbrev pub refresh : AuthLookup → Call (User × Session)
  refresh l =
      if ltb l.session.last_used_at (env.now - last_used_refresh_interval)
      then then_return
          (statement internal
            (touch_last_used l.session.id env.now (env.now - last_used_refresh_interval)))
          (user_of l, l.session)
      else answer (ok (user_of l, l.session))

  -- `Authenticate`
  unfoldable pub authenticate : String → Call (User × Session)
  authenticate token = statement internal (load_live token) >=> λ l.
      require (can_authenticate l.user_status) user_not_active >=> λ x. refresh l

  -- `Logout`
  unfoldable pub logout : String → Call (Unit {0})
  logout token = statement internal (revoke_by_token_hash (env.hash token) env.now) >=> λ revoked.
      require revoked session_invalid

  -- `RevokeDevice`
  unfoldable pub revoke_device : String → String → Call ℕ
  revoke_device user device =
      statement internal (revoke_device_sessions user device env.now) >=> λ p.
      require p.1 device_not_found >=> λ x. answer (ok p.0)
