-- ===== src/Identity/Sessions/Book.antt =====
-- What the sessions promise, without rows: what each token stands for, and what each call of
-- internal/modules/identity/application/session_service.go makes of it.
use cv_agent.Base.{
  ℕ, ◌+◌, ◌<◌, String, ◌≡◌, Bool, true, false, ◌&&◌, Option, none, some, List, [], ◌∷◌, str_eq,
  if◌then◌else◌,
}
use cv_agent.Identity.Domain.{User, Session, active, is_none}
use cv_agent.Identity.Store.{AuthStore, Call}
use cv_agent.Db.Pool.{answer, ◌>=>◌}
use cv_agent.Db.{ok}
use cv_agent.Identity.Sessions.{
  DeviceInput, IssueEnv, IssuedSession, issue, authenticate, logout, revoke_device, session_ttl,
}

-- What the hash of a token stands for: nothing, a user on a device until a time, or what is revoked.
pub data Ticket : Type 0 where
  unused : Ticket
  granted : String → String → ℕ → Ticket
  revoked : Ticket

abbrev pub Book : Type 0
Book = String → Ticket

unfoldable pub find_hash : String → List Session → Option Session
find_hash h [] = none
find_hash h (r ∷ rs) = if str_eq r.token_hash h then some r else find_hash h rs

unfoldable pub ticket_of : Option Session → Ticket
ticket_of none = unused
ticket_of (some r) =
    if is_none r.revoked_at then granted r.user_id r.device_id r.expires_at else revoked

abbrev pub book : AuthStore → Book
book s h = ticket_of (find_hash h s.sessions)

-- UNIQUE (token_hash).
unfoldable pub has_hash : String → List Session → Bool
has_hash h [] = false
has_hash h (r ∷ rs) = if str_eq r.token_hash h then true else has_hash h rs

unfoldable pub NoTwin : List Session → Type 0
NoTwin [] = Unit {0}
NoTwin (r ∷ rs) = (has_hash r.token_hash rs ≡ false) × NoTwin rs

pub data SessionCall : Type 0 where
  issue_to : User → DeviceInput → SessionCall
  authenticate_by : String → SessionCall
  log_out : String → SessionCall
  revoke_on : String → String → SessionCall

pub data Answer : Type 0 where
  issued : IssuedSession → Answer
  known : User → Session → Answer
  logged_out : Answer
  revoked_sessions : ℕ → Answer

abbrev pub serve : IssueEnv → SessionCall → Call Answer
serve env (issue_to u d) = issue env u d >=> λ x. answer (ok (issued x))
serve env (authenticate_by t) = authenticate env t >=> λ p. answer (ok (known p.0 p.1))
serve env (log_out t) = logout env t >=> λ x. answer (ok logged_out)
serve env (revoke_on u d) = revoke_device env u d >=> λ n. answer (ok (revoked_sessions n))

-- Withdrawing a grant.
unfoldable pub withdrawn : Ticket → Ticket
withdrawn unused = unused
withdrawn (granted u d e) = revoked
withdrawn revoked = revoked

unfoldable pub withdrawn_from : String → String → Ticket → Ticket
withdrawn_from user device unused = unused
withdrawn_from user device (granted u d e) =
    if str_eq u user && str_eq d device then revoked else granted u d e
withdrawn_from user device revoked = revoked

-- Only a hash that stands for nothing is given out.
unfoldable pub claimed : Ticket → Ticket → Ticket
claimed x unused = x
claimed x (granted u d e) = granted u d e
claimed x revoked = revoked

abbrev pub with_ticket : Option String → (String → String) → Ticket → Book → Book
with_ticket none hash x b h = b h
with_ticket (some t) hash x b h = if str_eq (hash t) h then claimed x (b h) else b h

-- What a call makes of the book.
abbrev pub step : IssueEnv → SessionCall → Book → Book
step env (issue_to u d) b =
    with_ticket env.token env.hash (granted u.id d.id (env.now + session_ttl)) b
step env (authenticate_by t) b = b
step env (log_out t) b = λ h. if str_eq (env.hash t) h then withdrawn (b h) else b h
step env (revoke_on u d) b = λ h. withdrawn_from u d (b h)

-- What has to stand in the book for a call to give an answer.
abbrev pub Allowed : IssueEnv → SessionCall → Answer → Book → Type 0
Allowed env (issue_to u d) (issued x) b =
    (env.token ≡ some x.token) × (u.status ≡ active) × (b (env.hash x.token) ≡ unused)
Allowed env (authenticate_by t) (known u s) b =
    (b (env.hash t) ≡ granted u.id s.device_id s.expires_at)
    × (env.now < s.expires_at)
    × (u.status ≡ active)
Allowed env (log_out t) logged_out b =
    (u : String) × (d : String) × (e : ℕ) × (b (env.hash t) ≡ granted u d e)
Allowed env (revoke_on u d) (revoked_sessions n) b = Unit {0}
Allowed env c a b = ⊥
