-- ===== src/Identity/Sessions/Issues.antt =====
-- Issuing against the book (internal/modules/identity/application/session_service.go).
use cv_agent.Base.{
  ℕ, String, ◌≡◌, refl, sym, ◌∙◌, ap, subst, inl, inr, Bool, true, false, Bool-cases, Option, none,
  some, List, ◌∷◌, str_eq, str_eq→eq,
}
use cv_agent.Db.{Result, ok}
use cv_agent.Db.Ensures.{
  Ensures, Ensures-bind, Ensures-exec_if, Ensures-pure, Ensures-weaken, Ensures-when,
}
use cv_agent.Db.Pool.{World, statement, ◌>=>◌}
use cv_agent.Db.Pool.Rules.{
  Returns, Returns-bind, Returns-answer, Returns-statement, Leaves, Leaves-answer, Leaves-statement,
  Leaves-bind,
}
use cv_agent.Identity.Domain.{
  AuthError, internal, user_not_active, invalid_device_input, device_conflict, User, Device,
  can_authenticate, valid_platform,
}
use cv_agent.Identity.Store.{AuthStore, Call}
use cv_agent.Identity.Sessions.{
  DeviceInput, IssueEnv, IssuedSession, require, made, issue, upsert_device, device_of, upserted,
  find_device, device_written, insert_session, session_of, issued_by, has_session, session_added,
}
use cv_agent.Identity.Sessions.Book.{
  find_hash, ticket_of, unused, book, NoTwin, issue_to, issued, step, claimed,
}
use cv_agent.Identity.Sessions.Rows.{free_hash, unused_hash}
use cv_agent.Identity.Sessions.Lookups.{active_status}
use cv_agent.Identity.Sessions.Outcomes.{SameBook, Moved, Served, Returns-require, Leaves-require}

Returns-made :
    {Q : String → AuthStore → Type 0} (o : Option String) (w : World AuthStore)
    → ((a : String) → o ≡ some a → Q a w.store)
    → Returns Q (made o) w
Returns-made none w k = record { at = λ a h. cc }
Returns-made (some x) w k = record { at = λ a h. k a (cc) }

Leaves-made :
    {A : Type 0} {I : AuthStore → Type 0} (o : Option String) (f : String → Call A)
    (w : World AuthStore)
    → I w.store
    → ((a : String) → o ≡ some a → Leaves I (f a) w)
    → Leaves I (made o >=> f) w
Leaves-made none f w i k = record { at = i }
Leaves-made (some x) f w i k = record { at = (k x refl).at }

module _ (d : Device) (s : AuthStore) where
  -- Writing a device leaves the sessions.
  device-sessions : (device_written d s).1.sessions ≡ s.sessions
  device-sessions = go (upserted d (find_device d.id s.devices) s.devices)
    where
      go :
          (o : Option (List Device))
          → ((elim o as (λ x. Bool × AuthStore) [
            | none ↦ (false, s)
            | some ds ↦ (true, record s { devices = ds })
          ]).1
            ).sessions
            ≡ s.sessions
      go none = refl
      go (some ds) = refl

module _ (env : IssueEnv) (w : World AuthStore) (k : NoTwin w.store.sessions) (user : User)
    (input : DeviceInput) where
  abbrev Held : AuthStore → Type 0
  Held s = s.sessions ≡ w.store.sessions

  Held-Moved : (s : AuthStore) → Held s → Moved env (issue_to user input) (book w.store) s
  Held-Moved s e = record {
    unique = subst NoTwin (sym e) k;
    moved = inl (λ h. ap (λ rows. ticket_of (find_hash h rows)) e);
  }

  -- A row that is added is the ticket of its hash, which was unused.
  added :
      (token id : String) (s : AuthStore)
      → env.token ≡ some token
      → Held s
      → has_session (session_of env user input token id) s.sessions ≡ false
      → NoTwin (session_of env user input token id ∷ s.sessions)
        × SameBook
            (book (session_added (session_of env user input token id) s).1)
            (step env (issue_to user input) (book w.store))
        × (book w.store (env.hash token) ≡ unused)
  unfolding NoTwin find_hash ticket_of claimed
  added token id s is_token e fresh =
      let free = free_hash (session_of env user input token id) s.sessions fresh in
      let was : ticket_of (find_hash (env.hash token) w.store.sessions) ≡ unused =
        ap ticket_of (
          ap (find_hash (env.hash token)) (sym e) ∙ unused_hash (env.hash token) s.sessions free) in
      (
        (free, subst NoTwin (sym e) k),
        (λ h. rw is_token (elim (Bool-cases (str_eq (env.hash token) h)) [
          | inl p ↦
              let none_there : ticket_of (find_hash h w.store.sessions) ≡ unused =
                subst (λ x. ticket_of (find_hash x w.store.sessions) ≡ unused)
                  (str_eq→eq (env.hash token) h p) was in
              rw (p, none_there) refl
          | inr p ↦ rw p (ap (λ rows. ticket_of (find_hash h rows)) e)
        ])),
        was,
      )

  device-Held :
      (v : World AuthStore) (n : ℕ)
      → Held v.store
      → Ensures
          (λ x u. Held u.store)
          (upsert_device (device_of env user input))
          (record { store = v.store; budget = n })
  device-Held v n e = Ensures-bind (
      Ensures-exec_if internal internal _ (λ s. false) (device_written (device_of env user input))
        λ m h.
          Ensures-when _ device_conflict _ _
            λ q. Ensures-pure tt _ (device-sessions (device_of env user input) v.store ∙ e))

  pub issue-Moved : Leaves (Moved env (issue_to user input) (book w.store)) (issue env user input) w
  unfolding issue
  issue-Moved =
      Leaves-bind {J = Held} (require (can_authenticate user.status) user_not_active) _ w
        (Leaves-require _ user_not_active w refl) Held-Moved
        λ x1 v1 e1.
          Leaves-bind {J = Held} (require (valid_platform input.platform) invalid_device_input) _ v1
            (Leaves-require _ invalid_device_input v1 e1) Held-Moved
            λ x2 v2 e2.
              Leaves-bind {J = Held} (statement internal (upsert_device (device_of env user input)))
                _ v2 (Leaves-statement internal _ v2 e2 λ n. device-Held v2 n e2) Held-Moved
                λ x3 v3 e3. Leaves-made env.token _ v3 (Held-Moved v3.store e3) λ token is_token.
                  Leaves-made env.session_id _ v3 (Held-Moved v3.store e3) λ id is_id.
                    Leaves-bind {J = Moved env (issue_to user input) (book w.store)}
                      (statement internal (insert_session (session_of env user input token id))) _
                      v3
                      (Leaves-statement internal _ v3 (Held-Moved v3.store e3) λ n.
                        Ensures-exec_if internal internal _
                          (λ s. has_session (session_of env user input token id) s.sessions)
                          (session_added (session_of env user input token id))
                          λ m fresh.
                            let (unique, moves, was) = added token id v3.store is_token e3 fresh in
                            record { unique = unique; moved = inr moves })
                      (λ s i. i) λ x4 v4 i. Leaves-answer _ v4 i

  pub issue-Served :
      Returns
        (λ x s. Served env (issue_to user input) (book w.store) (issued x) s)
        (issue env user input)
        w
  unfolding issue
  issue-Served = Returns-bind _ (require (can_authenticate user.status) user_not_active) _ w (
      Returns-require _ user_not_active w λ can v1 e1.
        Returns-bind _ (require (valid_platform input.platform) invalid_device_input) _ v1 (
          Returns-require _ invalid_device_input v1 λ valid v2 e2.
            Returns-bind _ (statement internal (upsert_device (device_of env user input))) _ v2 (
              Returns-statement _ internal (upsert_device (device_of env user input)) v2 λ n.
                Ensures-weaken (device-Held v2 n (ap (λ s. s.sessions) (e2 ∙ e1)))
                  λ x3 u held v3 e3. Returns-bind _ (made env.token) _ v3 (
                    Returns-made env.token v3 λ token is_token v4 e4.
                      Returns-bind _ (made env.session_id) _ v4 (
                        Returns-made env.session_id v4 λ id is_id v5 e5.
                          Returns-bind _
                            (statement internal
                              (insert_session (session_of env user input token id)))
                            _ v5
                            (Returns-statement _ internal
                              (insert_session (session_of env user input token id)) v5
                              λ n.
                                Ensures-exec_if internal internal _
                                  (λ s. has_session (session_of env user input token id) s.sessions)
                                  (session_added (session_of env user input token id))
                                  λ m fresh v6 e6.
                                    Returns-answer _ (ok (issued_by env user input token)) v6
                                      λ x same.
                                        let (unique, moves, was) =
                                          added token id v5.store is_token
                                            (ap (λ s. s.sessions) (e5 ∙ e4 ∙ e3) ∙ held) fresh in
                                        subst
                                          (λ y.
                                            Served env (issue_to user input) (book w.store)
                                              (issued y) v6.store)
                                          (ok-injective same)
                                          (record {
                                            allowed =
                                                (is_token, active_status user.status can, was);
                                            done = λ h. ap (λ s. book s h) e6 ∙ moves h;
                                          })))))))
    where
      ok-injective :
          {x y : IssuedSession} → Path (Result AuthError IssuedSession) (ok x) (ok y) → x ≡ y
      ok-injective e = cc
