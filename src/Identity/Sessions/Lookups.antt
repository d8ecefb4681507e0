-- ===== src/Identity/Sessions/Lookups.antt =====
-- Authenticating against the book (internal/modules/identity/application/session_service.go).
use cv_agent.Base.{
  ℕ, not, ◌-◌, ◌<◌, String, ◌≡◌, refl, sym, ◌∙◌, ap, subst, inl, inr, Bool, true, false, ◌&&◌, ltb,
  Bool-cases, Option, none, some, str_eq, arith,
}
use mathlib.Core.Option.{some-injective}
use cv_agent.Db.{Result, ok}
use cv_agent.Db.Ensures.{Ensures-bind, Ensures-exec_if, Ensures-query, Ensures-or_fail}
use cv_agent.Db.Pool.{World, statement, ◌>=>◌}
use cv_agent.Db.Pool.Rules.{
  Returns, Returns-bind, Returns-statement, Leaves, Leaves-answer, Leaves-statement, Leaves-bind,
}
use cv_agent.Identity.Domain.{
  AuthError, internal, user_not_active, session_invalid, User, Session, UserStatus, active,
  suspended, pending_deletion, deleted, can_authenticate, is_none,
}
use cv_agent.Identity.Store.{UserRow, find_user_row, find_email_of, AuthStore}
use cv_agent.Identity.Sessions.{
  device_active, find_live_session, looked_up, display_of, IssueEnv, require, authenticate, refresh,
  load_live, user_of, AuthLookup, find_live_by_token_hash, last_used_refresh_interval,
  touch_last_used, touched,
}
use cv_agent.Identity.Sessions.Moves.{touched-NoTwin, touched-book}
use cv_agent.Identity.Sessions.Book.{
  ticket_of, granted, book, NoTwin, authenticate_by, known, Allowed,
}
use cv_agent.Identity.Sessions.Rows.{first_live, found_live}
use cv_agent.Identity.Sessions.Outcomes.{
  SameBook, Moved, Served, Returns-require, Leaves-require, unmoved,
}

-- What the lookup finds is granted, and not yet over.
live_ticket :
    (hash : String) (now : ℕ) (s : AuthStore)
    → NoTwin s.sessions
    → (l : AuthLookup) → find_live_by_token_hash hash now s ≡ some l
    → (book s hash ≡ granted l.session.user_id l.session.device_id l.session.expires_at)
      × (now < l.session.expires_at)
unfolding find_live_by_token_hash find_live_session ticket_of
live_ticket hash now s k l e =
    let row = session_found (find_live_session hash now s s.sessions) e in
    let (open_row, fresh) =
      live_parts (str_eq l.session.token_hash hash) (is_none l.session.revoked_at)
        (device_active l.session.user_id l.session.device_id s.devices)
        (not (is_none (find_user_row l.session.user_id s.users)))
        (found_live hash now s s.sessions l.session row).0 in
    (rw (first_live hash now s s.sessions l.session k row) (rw open_row refl), fresh)
  where
    session_found : (o : Option Session) → looked_up s o ≡ some l → o ≡ some l.session
    session_found none e = cc
    session_found (some r) e = by_user (find_user_row r.user_id s.users) e
      where
        by_user :
            (u : Option UserRow)
            → elim u [
              | none ↦ none
              | some u ↦ some (record {
                session = r;
                user_status = u.status;
                email = display_of (find_email_of r.user_id s.emails);
              })
            ]
              ≡ some l
            → some r ≡ some l.session
        by_user none e = cc
        by_user (some u) e = ap (λ x. some x.session) (some-injective _ _ e)

    live_parts :
        (a b d f : Bool)
        → (a && b && ltb now l.session.expires_at && d && f) ≡ true
        → (b ≡ true) × (now < l.session.expires_at)
    live_parts a b d f e = ground arith

pub active_status : (s : UserStatus) → can_authenticate s ≡ true → s ≡ active
unfolding can_authenticate
active_status active e = refl
active_status suspended e = cc
active_status pending_deletion e = cc
active_status deleted e = cc

module _ (env : IssueEnv) (w : World AuthStore) (k : NoTwin w.store.sessions) where
  module _ (t : String) where
    touched_book :
        (l : AuthLookup) (v : World AuthStore)
        → v.store ≡ w.store
        → (id : String) (threshold : ℕ)
        → SameBook (book (touched id env.now threshold v.store).1) (book w.store)
    touched_book l v e id threshold h =
        touched-book env.now v.store h id threshold ∙ ap (λ s. book s h) e

    kept_by_touch :
        (l : AuthLookup) (v : World AuthStore)
        → v.store ≡ w.store
        → Leaves
            (Moved env (authenticate_by t) (book w.store))
            (statement internal
              (touch_last_used l.session.id env.now (env.now - last_used_refresh_interval)))
            v
    kept_by_touch l v e =
        Leaves-statement internal
          (touch_last_used l.session.id env.now (env.now - last_used_refresh_interval)) v
          (subst (Moved env (authenticate_by t) (book w.store)) (sym e)
            (unmoved env w k (authenticate_by t)))
          λ n.
            Ensures-exec_if internal internal _ (λ s. false)
              (touched l.session.id env.now (env.now - last_used_refresh_interval))
              λ m h. record {
                unique =
                    touched-NoTwin env.now v.store (subst (λ s. NoTwin s.sessions) (sym e) k)
                      l.session.id (env.now - last_used_refresh_interval);
                moved =
                    inl (touched_book l v e l.session.id (env.now - last_used_refresh_interval));
              }

    refresh-Moved :
        (l : AuthLookup) (v : World AuthStore)
        → v.store ≡ w.store
        → Leaves (Moved env (authenticate_by t) (book w.store)) (refresh env l) v
    refresh-Moved l v e =
        elim (Bool-cases (ltb l.session.last_used_at (env.now - last_used_refresh_interval))) [
          | inl p ↦ rw p (record { at = (kept_by_touch l v e).at })
          | inr p ↦ rw p (
              Leaves-answer _ v (
                subst (Moved env (authenticate_by t) (book w.store)) (sym e)
                  (unmoved env w k (authenticate_by t))))
        ]

    pub authenticate-Moved :
        Leaves (Moved env (authenticate_by t) (book w.store)) (authenticate env t) w
    unfolding authenticate
    authenticate-Moved =
        Leaves-bind {J = λ s. s ≡ w.store} (statement internal (load_live env t)) _ w
          (Leaves-statement internal (load_live env t) w refl λ n.
            Ensures-bind
              (Ensures-query internal _ _ λ m. Ensures-or_fail session_invalid _ _ λ a h. refl))
          (λ s e.
            subst (Moved env (authenticate_by t) (book w.store)) (sym e)
              (unmoved env w k (authenticate_by t)))
          λ l v e.
            Leaves-bind {J = λ s. s ≡ w.store}
              (require (can_authenticate l.user_status) user_not_active) _ v
              (Leaves-require _ user_not_active v e)
              (λ s e.
                subst (Moved env (authenticate_by t) (book w.store)) (sym e)
                  (unmoved env w k (authenticate_by t)))
              λ x u e'. refresh-Moved l u e'

    refresh-gives :
        (l : AuthLookup) (v : World AuthStore) (p : User × Session)
        → (refresh env l v).0 ≡ ok p
        → p ≡ (user_of env l, l.session)
    refresh-gives l v p h =
        elim (Bool-cases (ltb l.session.last_used_at (env.now - last_used_refresh_interval))) [
          | inl q ↦ ok-injective _ h (rw q refl)
          | inr q ↦ ok-injective _ h (rw q refl)
        ]
      where
        ok-injective :
            {x y : User × Session}
            → (r : Result AuthError (User × Session)) → r ≡ ok x
            → r ≡ ok y
            → x ≡ y
        ok-injective r e f = cc

    -- What the lookup has found.
    abbrev Found : AuthLookup → AuthStore → Type 0
    Found l s = (s ≡ w.store) × (find_live_by_token_hash (env.hash t) env.now w.store ≡ some l)

    pub authenticate-Served :
        Returns
          (λ p s. Served env (authenticate_by t) (book w.store) (known p.0 p.1) s)
          (authenticate env t)
          w
    unfolding authenticate
    authenticate-Served =
        Returns-bind _ (statement internal (load_live env t))
          (λ l. require (can_authenticate l.user_status) user_not_active >=> λ x. refresh env l) w
          (Returns-statement _ internal (load_live env t) w λ n. Ensures-bind (
            Ensures-query internal _ _ λ m. Ensures-or_fail session_invalid _ _ λ l found v e.
              Returns-bind _ (require (can_authenticate l.user_status) user_not_active)
                (λ x. refresh env l) v
                (Returns-require _ user_not_active v
                  λ can u e'. record { at = λ p h. served l u (e' ∙ e) found can p h })))
      where
        served :
            (l : AuthLookup) (u : World AuthStore)
            → u.store ≡ w.store
            → find_live_by_token_hash (env.hash t) env.now w.store ≡ some l
            → can_authenticate l.user_status ≡ true
            → (p : User × Session) → (refresh env l u).0 ≡ ok p
            → Served env
                (authenticate_by t)
                (book w.store)
                (known p.0 p.1)
                (refresh env l u).1.store
        served l u e found can p h = record {
          allowed =
              subst (λ q. Allowed env (authenticate_by t) (known q.0 q.1) (book w.store))
                (sym (refresh-gives l u p h))
                (
                  (live_ticket (env.hash t) env.now w.store k l found).0,
                  (live_ticket (env.hash t) env.now w.store k l found).1,
                  active_status l.user_status can,
                );
          done = elim (refresh-Moved l u e).at.moved [ inl m ↦ m | inr m ↦ m ];
        }
