-- ===== src/Identity/Challenges/Verdicts.antt =====
-- What `VerifyAndResolveUser` can come to
-- (internal/modules/identity/postgres/challenge_repo.go).
use cv_agent.Base.{
  ℕ, ◌+◌, ◌<◌, String, ◌≡◌, refl, ◌∙◌, ap, subst, Bool, true, false, not, ◌&&◌, ltb, leb, ltb→lt,
  none, some, List, str_eq, str_eq→eq, arith, if◌then◌else◌,
}
use cv_agent.Db.{◌>>=◌, Result, ok, err}
use cv_agent.Db.Ensures.{
  Ensures, Ensures-bind, Ensures-pure, Ensures-query, Ensures-exec_if, Ensures-or_fail,
  Ensures-when, Ensures-weaken,
}
use cv_agent.Db.Pool.{World}
use cv_agent.Db.Pool.Rules.{Returns-atomically}
use cv_agent.Identity.Domain.{
  AuthError, challenge_invalid, challenge_expired, challenge_attempts, internal, can_authenticate,
  User, EmailChallenge, is_none,
}
use cv_agent.Identity.Store.{AuthStore, find_challenge, update_challenge}
use cv_agent.Identity.Challenges.{
  NewIds, count_attempt, consume, is_sent, reject_code, accept_code, judge, load_challenge,
  user_of_email, verify_and_resolve_user,
}
use cv_agent.Identity.Challenges.Accounts.{resolve-IsAdmitted}
use cv_agent.Identity.Challenges.Rows.{find_challenge-id}

-- The owner of an address does not depend on the challenges.
owner_kept :
    (email : String) (s : AuthStore) (u : User) (cs : List EmailChallenge)
    → user_of_email email s ≡ some u
    → user_of_email email (record s { challenges = cs }) ≡ some u
unfolding user_of_email
owner_kept email s u cs h = h

-- A challenge whose code may still be tried at `now`.
abbrev pub IsOpen : ℕ → EmailChallenge → Type 0
IsOpen now c =
    (is_sent c ≡ true)
    × (c.consumed_at ≡ none)
    × (now < c.expires_at)
    × (c.attempt_count < c.max_attempts)

module _ (id hash : String) (now : ℕ) (before : AuthStore) where
  -- The code was the challenge's: the challenge is consumed, and the user of its address may hold
  -- sessions.
  pub record IsAccepted (c : EmailChallenge) (u : User) (after : AuthStore) : Type 0 where
    pub row : find_challenge id before.challenges ≡ some c
    pub tried : IsOpen now c
    pub right : c.code_hash ≡ hash
    pub may : can_authenticate u.status ≡ true
    pub owner : user_of_email c.email_normalized after ≡ some u
    pub consumed : after.challenges ≡ update_challenge (consume now) id before.challenges
    pub devices : after.devices ≡ before.devices
    pub sessions : after.sessions ≡ before.sessions

  -- It was not: the attempt is counted, and nothing else changes.
  pub record IsRejected (c : EmailChallenge) (e : AuthError) (after : AuthStore) : Type 0 where
    pub row : find_challenge id before.challenges ≡ some c
    pub tried : IsOpen now c
    pub wrong : str_eq c.code_hash hash ≡ false
    pub counted : after ≡ record before {
      challenges = update_challenge (count_attempt (c.attempt_count + 1)) id before.challenges;
    }
    pub error : e ≡ (
        if leb c.max_attempts (c.attempt_count + 1) then challenge_attempts else challenge_invalid)

  abbrev pub Judged : Result AuthError User → AuthStore → Type 0
  Judged (ok u) after = (c : EmailChallenge) × IsAccepted c u after
  Judged (err e) after = (c : EmailChallenge) × IsRejected c e after

  module _ (ids : NewIds) (c : EmailChallenge) (row : find_challenge id before.challenges ≡ some c)
      (tried : IsOpen now c) where
    rejected :
        (n : ℕ)
        → str_eq c.code_hash hash ≡ false
        → Ensures (λ r v. Judged r v.store) (reject_code c) (record { store = before; budget = n })
    rejected n wrong = Ensures-bind (
        Ensures-exec_if internal internal _ (λ s. ltb c.max_attempts (c.attempt_count + 1))
          (λ s. (
            tt,
            record s {
              challenges = update_challenge (count_attempt (c.attempt_count + 1)) c.id s.challenges;
            },
          ))
          λ m h. Ensures-pure _ _ (
            c,
            record {
              row = row;
              tried = tried;
              wrong = wrong;
              counted =
                  ap
                    (λ i. record before {
                      challenges =
                          update_challenge (count_attempt (c.attempt_count + 1)) i
                            before.challenges;
                    })
                    (find_challenge-id id before.challenges row);
              error = refl;
            },
          ))

    accepted :
        (n : ℕ)
        → str_eq c.code_hash hash ≡ true
        → Ensures
            (λ r v. Judged r v.store)
            (accept_code ids now c)
            (record { store = before; budget = n })
    accepted n right = Ensures-bind (
        Ensures-query internal (λ s. tt) _
          λ n1. Ensures-bind (
            Ensures-weaken (resolve-IsAdmitted ids c.email_normalized now _) λ u v a. Ensures-bind (
              Ensures-exec_if internal internal v (λ s. false)
                (λ s.
                  (tt, record s { challenges = update_challenge (consume now) c.id s.challenges }))
                λ n3 h. Ensures-pure (ok u) _ (
                  c,
                  record {
                    row = row;
                    tried = tried;
                    right = str_eq→eq c.code_hash hash right;
                    may = a.may;
                    owner = owner_kept c.email_normalized v.store u _ a.found;
                    consumed =
                        ap (λ x. update_challenge (consume now) c.id x) a.challenges
                        ∙ ap (λ x. update_challenge (consume now) x before.challenges)
                            (find_challenge-id id before.challenges row);
                    devices = a.devices;
                    sessions = a.sessions;
                  },
                ))))

    compared :
        (n : ℕ) (b : Bool)
        → str_eq c.code_hash hash ≡ b
        → Ensures
            (λ r v. Judged r v.store)
            (if not b then reject_code c else accept_code ids now c)
            (record { store = before; budget = n })
    compared n true e = accepted n e
    compared n false e = rejected n e

opened :
    (now : ℕ) (c : EmailChallenge)
    → (is_sent c && is_none c.consumed_at) ≡ true
    → ltb now c.expires_at ≡ true
    → ltb c.attempt_count c.max_attempts ≡ true
    → IsOpen now c
opened now c p q r = (ground arith, ground arith, ltb→lt _ _ q, ltb→lt _ _ r)

module _ (ids : NewIds) (id hash : String) (now : ℕ) (before : AuthStore) where
  judged :
      (n : ℕ) (c : EmailChallenge)
      → find_challenge id before.challenges ≡ some c
      → Ensures
          (λ r v. Judged id hash now before r v.store)
          (judge ids now hash c)
          (record { store = before; budget = n })
  unfolding judge
  judged n c row = Ensures-when (is_sent c && is_none c.consumed_at) challenge_invalid _ _ λ p.
      Ensures-when (ltb now c.expires_at) challenge_expired _ _ λ q.
        Ensures-when (ltb c.attempt_count c.max_attempts) challenge_attempts _ _ λ r.
          compared id hash now before ids c row (opened now c p q r) n (str_eq c.code_hash hash)
            refl

  -- The body of the transaction, where it returns.
  pub body-Judged :
      (n : ℕ)
      → Ensures
          (λ r v. Judged id hash now before r v.store)
          (load_challenge id >>= judge ids now hash)
          (record { store = before; budget = n })
  body-Judged n = Ensures-bind (
      Ensures-bind (
        Ensures-query internal (λ s. find_challenge id s.challenges) _
          λ m. Ensures-or_fail challenge_invalid _ _ λ c row. judged m c row))

-- A verification that returns a user: the challenge was sent, unused, unexpired and had attempts left,
-- and the code was its own; now it is consumed, the user is the one of its address and may hold
-- sessions, and no device and no session has changed.
pub verify_and_resolve_user-IsAccepted :
    (ids : NewIds) (id hash : String) (now : ℕ) (w : World AuthStore) (u : User)
    → (verify_and_resolve_user ids id hash now w).0 ≡ ok u
    → (c : EmailChallenge) × IsAccepted id hash now w.store c u
        (verify_and_resolve_user ids id hash now w).1.store
unfolding verify_and_resolve_user
verify_and_resolve_user-IsAccepted ids id hash now w u done =
    (Returns-atomically (λ u s. (c : EmailChallenge) × IsAccepted id hash now w.store c u s)
        internal (load_challenge id >>= judge ids now hash) w
        λ n.
          Ensures-weaken (body-Judged ids id hash now w.store n)
            λ r v j b e. subst (λ x. Judged id hash now w.store x v.store) e j).at
      u done
