-- ===== src/Identity/Sessions/Outcomes.antt =====
-- Logging out and revoking a device against the book
-- (internal/modules/identity/application/session_service.go).
use cv_agent.Base.{String, ◌≡◌, refl, sym, ◌∙◌, subst, ◌⊎◌, inl, inr, Bool, true, false, Bool-cases}
use cv_agent.Db.{ok}
use cv_agent.Db.Ensures.{Ensures-exec_if}
use cv_agent.Db.Pool.{World, answer, statement}
use cv_agent.Db.Pool.Rules.{
  Returns, Returns-bind, Returns-answer, Returns-statement, Leaves, Leaves-answer, Leaves-statement,
  Leaves-bind,
}
use cv_agent.Identity.Domain.{AuthError, internal, session_invalid, device_not_found}
use cv_agent.Identity.Store.{AuthStore}
use cv_agent.Identity.Sessions.{
  IssueEnv, require, logout, revoke_device, revoke_by_token_hash, token_revoked,
  revoke_device_sessions, device_revoked, owns_device, revoke_at,
}
use cv_agent.Identity.Sessions.Moves.{
  token-NoTwin, device-NoTwin, token-book, device-book, device-book_kept, counted_granted,
}
use cv_agent.Identity.Sessions.Book.{
  Book, book, NoTwin, SessionCall, log_out, revoke_on, Answer, logged_out, revoked_sessions, step,
  Allowed,
}

abbrev pub SameBook : Book → Book → Type 0
SameBook a b = (h : String) → a h ≡ b h

-- Token hashes stay unique, and the book is `b` or what the call makes of it.
pub record Moved (env : IssueEnv) (c : SessionCall) (b : Book) (s : AuthStore) : Type 0 where
  pub unique : NoTwin s.sessions
  pub moved : SameBook (book s) b ⊎ SameBook (book s) (step env c b)

-- The call gave an answer that the book allows, and did what the book says.
pub record Served (env : IssueEnv) (c : SessionCall) (b : Book) (a : Answer) (s : AuthStore)
    : Type 0 where
  pub allowed : Allowed env c a b
  pub done : SameBook (book s) (step env c b)

pub Returns-require :
    {Q : Unit {0} → AuthStore → Type 0} (b : Bool) (e : AuthError) (w : World AuthStore)
    → (b ≡ true → Q tt w.store)
    → Returns Q (require b e) w
Returns-require true e w k = record { at = λ a h. k refl }
Returns-require false e w k = record { at = λ a h. cc }

pub Leaves-require :
    {I : AuthStore → Type 0} (b : Bool) (e : AuthError) (w : World AuthStore)
    → I w.store
    → Leaves I (require b e) w
Leaves-require b e w i = record { at = i }

module _ (env : IssueEnv) (w : World AuthStore) (k : NoTwin w.store.sessions) where
  pub unmoved : (c : SessionCall) → Moved env c (book w.store) w.store
  unmoved c = record { unique = k; moved = inl (λ h. refl) }

  module _ (t : String) where
    pub logout-Moved : Leaves (Moved env (log_out t) (book w.store)) (logout env t) w
    unfolding logout
    logout-Moved =
        Leaves-bind {J = Moved env (log_out t) (book w.store)}
          (statement internal (revoke_by_token_hash (env.hash t) env.now)) _ w
          (Leaves-statement internal (revoke_by_token_hash (env.hash t) env.now) w
            (unmoved (log_out t))
            λ n.
              Ensures-exec_if internal internal _ (λ s. false) (token_revoked (env.hash t) env.now)
                λ m h. record {
                  unique = token-NoTwin env.now w.store k (env.hash t);
                  moved = inr (λ h. token-book env.now w.store h (env.hash t));
                })
          (λ s i. i) λ b v i. Leaves-require b session_invalid v i

    pub logout-Served :
        Returns (λ x s. Served env (log_out t) (book w.store) logged_out s) (logout env t) w
    unfolding logout
    logout-Served =
        Returns-bind _ (statement internal (revoke_by_token_hash (env.hash t) env.now))
          (λ b. require b session_invalid) w
          (Returns-statement _ internal (revoke_by_token_hash (env.hash t) env.now) w λ n.
            Ensures-exec_if internal internal _ (λ s. false) (token_revoked (env.hash t) env.now)
              λ m h v e. Returns-require _ session_invalid v λ some_rows.
                subst (Served env (log_out t) (book w.store) logged_out) (sym e) (record {
                  allowed =
                      counted_granted (env.hash t) (revoke_at env.now) w.store.sessions k some_rows;
                  done = λ h. token-book env.now w.store h (env.hash t);
                }))

  module _ (user device : String) where
    pub revoke-Moved :
        Leaves (Moved env (revoke_on user device) (book w.store)) (revoke_device env user device) w
    unfolding revoke_device
    revoke-Moved =
        Leaves-bind {J = Moved env (revoke_on user device) (book w.store)}
          (statement internal (revoke_device_sessions user device env.now)) _ w
          (Leaves-statement internal (revoke_device_sessions user device env.now) w
            (unmoved (revoke_on user device))
            λ n.
              Ensures-exec_if internal internal _ (λ s. false) (device_revoked user device env.now)
                λ m h. record {
                  unique = device-NoTwin env.now w.store k user device;
                  moved = elim (Bool-cases (owns_device user device w.store.devices)) [
                    | inl p ↦ inr (λ h. device-book env.now w.store h user device p)
                    | inr p ↦ inl (λ h. device-book_kept env.now w.store h user device p)
                  ];
                })
          (λ s i. i)
          λ p v i.
            Leaves-bind {J = Moved env (revoke_on user device) (book w.store)}
              (require p.1 device_not_found) _ v (Leaves-require p.1 device_not_found v i)
              (λ s i. i) λ x u i. Leaves-answer _ u i

    owned :
        (device_revoked user device env.now w.store).0.1 ≡ true
        → owns_device user device w.store.devices ≡ true
    owned h = elim (Bool-cases (owns_device user device w.store.devices)) [
      | inl p ↦ p
      | inr p ↦ sym (rw p refl) ∙ h
    ]

    pub revoke-Served :
        Returns
          (λ n s. Served env (revoke_on user device) (book w.store) (revoked_sessions n) s)
          (revoke_device env user device)
          w
    unfolding revoke_device
    revoke-Served =
        Returns-bind _ (statement internal (revoke_device_sessions user device env.now)) _ w (
          Returns-statement _ internal (revoke_device_sessions user device env.now) w λ n.
            Ensures-exec_if internal internal _ (λ s. false) (device_revoked user device env.now)
              λ m h v e.
                Returns-bind _
                  (require (device_revoked user device env.now w.store).0.1 device_not_found)
                  (λ x. answer (ok (device_revoked user device env.now w.store).0.0)) v
                  (Returns-require _ device_not_found v λ is_owner v' e'.
                    Returns-answer _ (ok (device_revoked user device env.now w.store).0.0) v'
                      λ a same.
                        subst
                          (Served env (revoke_on user device) (book w.store) (revoked_sessions a))
                          (sym (e' ∙ e))
                          (record {
                            allowed = tt;
                            done = λ h. device-book env.now w.store h user device (owned is_owner);
                          })))
