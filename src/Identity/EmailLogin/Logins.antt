-- ===== src/Identity/EmailLogin/Logins.antt =====
-- What a login by a code takes and leaves (internal/modules/identity/application/email_login.go).
use cv_agent.Base.{
  ℕ, ◌+◌, String, ◌≡◌, refl, sym, ◌∙◌, ap, subst, inl, inr, Bool, true, false, Bool-cases, Option,
  none, some, List, [], ◌∷◌, str_eq_self,
}
use cv_agent.Db.{ok}
use cv_agent.Db.Ensures.{Ensures-bind, Ensures-exec_if, Ensures-pure, Ensures-when}
use cv_agent.Db.Pool.{World, statement}
use cv_agent.Db.Pool.Rules.{Keeps, Keeps-answer, Keeps-bind, Keeps-statement, Returns-bind}
use cv_agent.Identity.Domain.{
  AuthError, internal, user_not_active, invalid_device_input, device_conflict, challenge_invalid,
  rate_limited, User, Device, EmailChallenge, can_authenticate, valid_platform,
}
use cv_agent.Identity.Store.{EmailRow, AuthStore, Call, find_challenge, find_email}
use cv_agent.Identity.Limiter.{RateLimitRule, run_script, any_full, invalid_rule, script, allow}
use cv_agent.Identity.Challenges.{user_of_email, joined, consume, verify_and_resolve_user}
use cv_agent.Identity.Challenges.Rows.{find-update_self}
use cv_agent.Identity.Challenges.Verdicts.{IsOpen, IsAccepted, verify_and_resolve_user-IsAccepted}
use cv_agent.Identity.Sessions.{
  DeviceInput, IssueEnv, IssuedSession, require, made, issue, upsert_device, device_of,
  device_written, upserted, find_device, insert_session, session_of, has_session, session_added,
  issued_by, session_ttl,
}
use cv_agent.Identity.Sessions.Book.{granted, book, NoTwin, claimed}
use cv_agent.Identity.Sessions.Issues.{issue-Served}
use cv_agent.Identity.Sessions.Outcomes.{Returns-require}
use cv_agent.Identity.EmailLogin.{
  Library, EmailLoginConfig, VerifyEnv, VerifyRequest, is_verifiable, verify_rules, code_hash,
  verify,
}

-- The tables that sessions and counters do not touch.
pub record Aside (s t : AuthStore) : Type 0 where
  pub users : t.users ≡ s.users
  pub emails : t.emails ≡ s.emails
  pub challenges : t.challenges ≡ s.challenges

Aside-refl : (s : AuthStore) → Aside s s
Aside-refl s = record { users = refl; emails = refl; challenges = refl }

Aside-then : {s t u : AuthStore} → Aside s t → t ≡ u → Aside s u
Aside-then {s} a e = subst (Aside s) e a

owner-Aside :
    (email : String) (s t : AuthStore) → Aside s t → user_of_email email t ≡ user_of_email email s
unfolding user_of_email
owner-Aside email s t a = rw a.emails (go (find_email email s.emails))
  where
    go : (o : Option EmailRow) → joined t o ≡ joined s o
    go none = refl
    go (some e) = rw a.users refl

device-Aside : (d : Device) (s t : AuthStore) → Aside s t → Aside s (device_written d t).1
device-Aside d s t a = go (upserted d (find_device d.id t.devices) t.devices)
  where
    go :
        (o : Option (List Device))
        → Aside s
            (elim o as (λ x. Bool × AuthStore) [
              | none ↦ (false, t)
              | some ds ↦ (true, record t { devices = ds })
            ]).1
    go none = a
    go (some ds) = record { users = a.users; emails = a.emails; challenges = a.challenges }

module _ (s : AuthStore) where
  Keeps-require : (b : Bool) (e : AuthError) → Keeps (Aside s) (require b e)
  Keeps-require b e = record { at = λ w i. i }

  Keeps-made : (o : Option String) → Keeps (Aside s) (made o)
  Keeps-made none = record { at = λ w i. i }
  Keeps-made (some x) = record { at = λ w i. i }

  -- Issuing a session writes devices and sessions alone.
  issue-Aside : (env : IssueEnv) (u : User) (d : DeviceInput) → Keeps (Aside s) (issue env u d)
  unfolding issue
  issue-Aside env u d =
      Keeps-bind (Aside s) (require (can_authenticate u.status) user_not_active) _
        (Keeps-require _ _)
        λ x1.
          Keeps-bind (Aside s) (require (valid_platform d.platform) invalid_device_input) _
            (Keeps-require _ _)
            λ x2.
              Keeps-bind (Aside s) (statement internal (upsert_device (device_of env u d))) _
                (Keeps-statement (Aside s) internal (upsert_device (device_of env u d)) λ t n a.
                  Ensures-bind (
                    Ensures-exec_if internal internal _ (λ s. false)
                      (device_written (device_of env u d))
                      λ m h.
                        Ensures-when _ device_conflict _ _
                          λ q. Ensures-pure tt _ (device-Aside (device_of env u d) s t a)))
                λ x3. Keeps-bind (Aside s) (made env.token) _ (Keeps-made env.token) λ token.
                  Keeps-bind (Aside s) (made env.session_id) _ (Keeps-made env.session_id) λ id.
                    Keeps-bind (Aside s)
                      (statement internal (insert_session (session_of env u d token id))) _
                      (Keeps-statement (Aside s) internal
                        (insert_session (session_of env u d token id))
                        λ t n a.
                          Ensures-exec_if internal internal _
                            (λ s. has_session (session_of env u d token id) s.sessions)
                            (session_added (session_of env u d token id))
                            λ m h. record {
                              users = a.users;
                              emails = a.emails;
                              challenges = a.challenges;
                            })
                      λ x4. Keeps-answer (Aside s) (ok (issued_by env u d token))

-- The tables that a verification reads, where only counters differ.
CountersOnly : AuthStore → AuthStore → Type 0
CountersOnly s t = (t.challenges ≡ s.challenges) × (t.sessions ≡ s.sessions)

allow-CountersOnly :
    (s : AuthStore) (now : ℕ) (rules : List RateLimitRule)
    → Keeps (CountersOnly s) (allow now rules)
unfolding allow CountersOnly
allow-CountersOnly s now [] = Keeps-answer (CountersOnly s) (ok true)
allow-CountersOnly s now (r ∷ rs) = elim (Bool-cases (invalid_rule (r ∷ rs))) [
  | inl p ↦ record { at = λ w i. rw p i }
  | inr p ↦ record { at = λ w i. rw p (by_script.at w i) }
]
  where
    by_script : Keeps (CountersOnly s) (statement internal (script now (r ∷ rs)))
    by_script = Keeps-statement (CountersOnly s) internal (script now (r ∷ rs)) λ t n i.
        Ensures-exec_if internal internal _ (λ s. false) (run_script now (r ∷ rs))
          λ m h. (elim (Bool-cases (any_full now (r ∷ rs) t.counters)) [
            | inl p ↦ rw p i
            | inr p ↦ rw p i
          ])

module _ (lib : Library) (cfg : EmailLoginConfig) (env : VerifyEnv) (req : VerifyRequest) where
  -- What a login has found and what it leaves: the challenge, open and with the hash of the code, is
  -- consumed; the user of its address holds a session on the device, under the hash of the token,
  -- that ends thirty days after it was issued.
  pub record LoggedIn (before : AuthStore) (x : IssuedSession) (after : AuthStore) : Type 0 where
    pub challenge : EmailChallenge
    pub user : User
    pub row : find_challenge req.challenge_id before.challenges ≡ some challenge
    pub tried : IsOpen env.now challenge
    pub right : challenge.code_hash ≡ code_hash lib cfg req.challenge_id req.code
    pub consumed :
        find_challenge req.challenge_id after.challenges ≡ some (consume env.now challenge)
    pub owner : user_of_email challenge.email_normalized after ≡ some user
    pub session :
        book after (env.issuing.hash x.token)
        ≡ granted user.id req.device.id (env.issuing.now + session_ttl)

  -- The last step, after a code was accepted on tables that differ from the first in counters alone.
  issue-LoggedIn :
      (before middle : AuthStore) (c : EmailChallenge) (u : User) (v : World AuthStore)
      → NoTwin before.sessions
      → CountersOnly before middle
      → IsAccepted req.challenge_id
          (code_hash lib cfg req.challenge_id req.code)
          env.now
          middle
          c
          u
          v.store
      → (x : IssuedSession) → (issue env.issuing u req.device v).0 ≡ ok x
      → LoggedIn before x (issue env.issuing u req.device v).1.store
  unfolding CountersOnly claimed
  issue-LoggedIn before middle c u v k (same_challenges, same_sessions) a x h =
      let aside = (issue-Aside v.store env.issuing u req.device).at v (Aside-refl v.store) in
      let k' : NoTwin v.store.sessions = subst NoTwin (sym (a.sessions ∙ same_sessions)) k in
      let served = (issue-Served env.issuing v k' u req.device).at x h in
      let after = (issue env.issuing u req.device v).1.store in
      let (token, is_active, was) = served.allowed in
      record {
        challenge = c;
        user = u;
        row = subst (λ rows. find_challenge req.challenge_id rows ≡ some c) same_challenges a.row;
        tried = a.tried;
        right = a.right;
        consumed =
            ap (find_challenge req.challenge_id) (aside.challenges ∙ a.consumed)
            ∙ find-update_self (consume env.now) (λ c. refl) req.challenge_id middle.challenges
                a.row;
        owner = owner-Aside c.email_normalized v.store after aside ∙ a.owner;
        session =
            served.done (env.issuing.hash x.token)
            ∙ rw (token, str_eq_self (env.issuing.hash x.token), was) refl;
      }

  -- A login that returns a session has used up the challenge it names: the challenge was open and the
  -- code was its code, it is now consumed, and the user of its address holds the session on the device
  -- for thirty days. The token hashes are unique, and the provisioner writes none of these tables.
  pub verify-LoggedIn :
      (ensure_default : String → Call (Unit {0})) (w : World AuthStore)
      → NoTwin w.store.sessions
      → ((user : String) (v : World AuthStore) → (ensure_default user v).1.store ≡ v.store)
      → (x : IssuedSession) → (verify lib cfg ensure_default env req w).0 ≡ ok x
      → LoggedIn w.store x (verify lib cfg ensure_default env req w).1.store
  unfolding verify CountersOnly
  verify-LoggedIn ensure_default w k quiet x done =
      let hash = code_hash lib cfg req.challenge_id req.code in
      (Returns-bind (LoggedIn w.store) (require (is_verifiable lib cfg req) challenge_invalid) _ w (
          Returns-require _ challenge_invalid w λ fit v1 e1.
            Returns-bind _ (allow env.redis_ms (verify_rules lib cfg req)) _ v1 (record {
              at = λ b hb v2 e2. Returns-bind _ (require b rate_limited) _ v2 (
                  Returns-require b rate_limited v2 λ may v3 e3.
                    Returns-bind _ (verify_and_resolve_user env.ids req.challenge_id hash env.now) _
                      v3
                      (record {
                        at = λ u hu v4 e4. Returns-bind _ (ensure_default u.id) _ v4 (record {
                          at = λ y hy v5 e5. record {
                            at = λ z hz.
                                let (c, a) =
                                  verify_and_resolve_user-IsAccepted env.ids req.challenge_id hash
                                    env.now v3 u hu in
                                let counters =
                                  (allow-CountersOnly w.store env.redis_ms
                                      (verify_rules lib cfg req)).at
                                    v1 (subst (CountersOnly w.store) (sym e1) (refl, refl)) in
                                issue-LoggedIn w.store v3.store c u v5 k
                                  (subst (CountersOnly w.store) (sym (e3 ∙ e2)) counters)
                                  (subst (IsAccepted req.challenge_id hash env.now v3.store c u)
                                    (sym (e5 ∙ quiet u.id v4 ∙ e4)) a)
                                  z hz;
                          };
                        });
                      }));
            }))).at
        x done
