-- ===== src/Identity/Sessions/Refines.antt =====
-- The session service keeps the book (internal/modules/identity/application/session_service.go).
use cv_agent.Base.{
  ◌+◌, str_eq_self, subst, String, ◌≡◌, refl, sym, ◌∙◌, inl, inr, Bool-cases, Option, none, some,
  List, [], ◌∷◌, str_eq,
}
use cv_agent.Db.{Result, ok, err}
use cv_agent.Db.Pool.{World}
use cv_agent.Db.Pool.Rules.{Returns-answered, Leaves-answered}
use cv_agent.Identity.Domain.{AuthError}
use cv_agent.Identity.Store.{AuthStore}
use cv_agent.Identity.Sessions.{IssueEnv, issue, authenticate, logout, revoke_device, session_ttl}
use cv_agent.Identity.Sessions.Book.{
  granted, revoked, Book, book, NoTwin, SessionCall, issue_to, authenticate_by, log_out, revoke_on,
  Answer, issued, known, logged_out, revoked_sessions, serve, step, with_ticket, claimed, Allowed,
  withdrawn, withdrawn_from,
}
use cv_agent.Identity.Sessions.Outcomes.{
  Moved, Served, logout-Moved, logout-Served, revoke-Moved, revoke-Served,
}
use cv_agent.Identity.Sessions.Lookups.{authenticate-Moved, authenticate-Served}
use cv_agent.Identity.Sessions.Issues.{issue-Moved, issue-Served}

-- Whatever happens to the statements of a call, token hashes stay unique, and the book is left as it
-- was or becomes what the call makes of it.
pub serve-Moved :
    (env : IssueEnv) (c : SessionCall) (w : World AuthStore)
    → NoTwin w.store.sessions
    → Moved env c (book w.store) (serve env c w).1.store
serve-Moved env (issue_to u d) w k =
    (Leaves-answered issued (issue env u d) w (issue-Moved env w k u d)).at
serve-Moved env (authenticate_by t) w k =
    (Leaves-answered (λ p. known p.0 p.1) (authenticate env t) w (authenticate-Moved env w k t)).at
serve-Moved env (log_out t) w k =
    (Leaves-answered (λ x. logged_out) (logout env t) w (logout-Moved env w k t)).at
serve-Moved env (revoke_on u d) w k =
    (Leaves-answered revoked_sessions (revoke_device env u d) w (revoke-Moved env w k u d)).at

-- The service implements the book, where token hashes are unique: an answer is one that the book
-- allows, and the book is then what the call makes of it. A token is issued to an active user and
-- its hash stood for nothing; a user is authenticated who is active and to whom the hash is granted, on
-- the session's device, until a time that has not come; logging out withdraws a grant.
pub serve-Served :
    (env : IssueEnv) (c : SessionCall) (w : World AuthStore)
    → NoTwin w.store.sessions
    → (a : Answer) → (serve env c w).0 ≡ ok a
    → Served env c (book w.store) a (serve env c w).1.store
serve-Served env (issue_to u d) w k =
    (Returns-answered issued (issue env u d) w {Q = Served env (issue_to u d) (book w.store)}
      (issue-Served env w k u d)).at
serve-Served env (authenticate_by t) w k =
    (Returns-answered (λ p. known p.0 p.1) (authenticate env t) w
      {Q = Served env (authenticate_by t) (book w.store)} (authenticate-Served env w k t)).at
serve-Served env (log_out t) w k =
    (Returns-answered (λ x. logged_out) (logout env t) w {Q = Served env (log_out t) (book w.store)}
      (logout-Served env w k t)).at
serve-Served env (revoke_on u d) w k =
    (Returns-answered revoked_sessions (revoke_device env u d) w
      {Q = Served env (revoke_on u d) (book w.store)} (revoke-Served env w k u d)).at

unfoldable pub serve_all : List (IssueEnv × SessionCall) → World AuthStore → World AuthStore
serve_all [] w = w
serve_all (c ∷ cs) w = serve_all cs (serve c.0 c.1 w).1

step_revoked :
    (env : IssueEnv) (c : SessionCall) (b : Book) (h : String)
    → b h ≡ revoked
    → step env c b h ≡ revoked
unfolding claimed withdrawn withdrawn_from
step_revoked env (issue_to u d) b h e = given env.token
  where
    given :
        (o : Option String)
        → with_ticket o env.hash (granted u.id d.id (env.now + session_ttl)) b h ≡ revoked
    given none = e
    given (some t) = elim (Bool-cases (str_eq (env.hash t) h)) [
      | inl p ↦ rw (p, e) refl
      | inr p ↦ rw p e
    ]
step_revoked env (authenticate_by t) b h e = e
step_revoked env (log_out t) b h e = elim (Bool-cases (str_eq (env.hash t) h)) [
  | inl p ↦ rw (p, e) refl
  | inr p ↦ rw p e
]
step_revoked env (revoke_on u d) b h e = rw e refl

module _ (h : String) where
  still_revoked :
      (cs : List (IssueEnv × SessionCall)) (w : World AuthStore)
      → NoTwin w.store.sessions
      → book w.store h ≡ revoked
      → NoTwin (serve_all cs w).store.sessions × (book (serve_all cs w).store h ≡ revoked)
  unfolding serve_all
  still_revoked [] w k e = (k, e)
  still_revoked (c ∷ cs) w k e =
      let m = serve-Moved c.0 c.1 w k in
      still_revoked cs (serve c.0 c.1 w).1 m.unique (elim m.moved [
        | inl same ↦ same h ∙ e
        | inr done ↦ done h ∙ step_revoked c.0 c.1 (book w.store) h e
      ])

-- A call that the book allows no answer is refused.
never-Allowed :
    (env : IssueEnv) (c : SessionCall) (w : World AuthStore)
    → NoTwin w.store.sessions
    → ((a : Answer) → Allowed env c a (book w.store) → ⊥)
    → (e : AuthError) × ((serve env c w).0 ≡ err e)
never-Allowed env c w k never =
    go (serve env c w).0 λ a h. never a (serve-Served env c w k a h).allowed
  where
    go :
        (r : Result AuthError Answer)
        → ((a : Answer) → r ≡ ok a → ⊥)
        → (e : AuthError) × (r ≡ err e)
    go (ok a) none_ok = absurd (none_ok a refl)
    go (err e) none_ok = (e, refl)

module _ (env : IssueEnv) (t : String) (b : Book) (e : b (env.hash t) ≡ revoked) where
  no_authentication : (a : Answer) → Allowed env (authenticate_by t) a b → ⊥
  no_authentication (issued x) h = h
  no_authentication (known u s) (h, later, works) = cc
  no_authentication logged_out h = h
  no_authentication (revoked_sessions n) h = h

  no_logout : (a : Answer) → Allowed env (log_out t) a b → ⊥
  no_logout (issued x) h = h
  no_logout (known u s) h = h
  no_logout logged_out (u, d, until, h) = cc
  no_logout (revoked_sessions n) h = h

logout_revokes :
    (env : IssueEnv) (t : String) (w : World AuthStore)
    → NoTwin w.store.sessions
    → (serve env (log_out t) w).0 ≡ ok logged_out
    → book (serve env (log_out t) w).1.store (env.hash t) ≡ revoked
unfolding withdrawn
logout_revokes env t w k done =
    let r = serve-Served env (log_out t) w k logged_out done in
    let (u, d, until, was) = r.allowed in
    r.done (env.hash t) ∙ rw (str_eq_self (env.hash t), was) refl

-- Logging out is final, where token hashes are unique: after a logout returned, no call with that
-- token authenticates anyone or logs out again, at any time and after any calls by anyone.
pub logged_out_forever :
    (env env' : IssueEnv) (t : String) (w : World AuthStore)
    → NoTwin w.store.sessions
    → (serve env (log_out t) w).0 ≡ ok logged_out
    → (calls : List (IssueEnv × SessionCall)) → env'.hash t ≡ env.hash t
    → let later = serve_all calls (serve env (log_out t) w).1 in
      ((e : AuthError) × ((serve env' (authenticate_by t) later).0 ≡ err e))
      × ((e : AuthError) × ((serve env' (log_out t) later).0 ≡ err e))
logged_out_forever env env' t w k done calls same =
    let first = serve-Moved env (log_out t) w k in
    let (unique, still) =
      still_revoked (env.hash t) calls (serve env (log_out t) w).1 first.unique
        (logout_revokes env t w k done) in
    let later = serve_all calls (serve env (log_out t) w).1 in
    let there : book later.store (env'.hash t) ≡ revoked =
      subst (λ x. book later.store x ≡ revoked) (sym same) still in
    (
      never-Allowed env' (authenticate_by t) later unique
          (no_authentication env' t (book later.store) there),
      never-Allowed env' (log_out t) later unique (no_logout env' t (book later.store) there),
    )
