-- ===== src/Identity/Challenges/Accounts.antt =====
-- The account that a right code leads to (`resolveOrCreateUser`).
use cv_agent.Base.{ℕ, String, ◌≡◌, refl, true, Option, none, some, str_eq_self, arith}
use cv_agent.Db.{Tx}
use cv_agent.Db.Ensures.{
  Ensures, Ensures-bind, Ensures-pure, Ensures-query, Ensures-exec, Ensures-or_fail, Ensures-when,
}
use cv_agent.Identity.Domain.{user_not_active, internal, active, can_authenticate, User}
use cv_agent.Identity.Store.{AuthStore, find_user_row, find_email}
use cv_agent.Identity.Challenges.{
  NewIds, user_row_inserted, email_inserted, profile_inserted, new_email, create_account, admit,
  user_of_email, resolve_or_create_user,
}

-- What signing a user in does: the user may hold sessions and is the one of the address, and no
-- challenge, device, session or counter is touched.
pub record IsAdmitted (email : String) (before : AuthStore) (u : User) (after : AuthStore)
    : Type 0 where
  pub may : can_authenticate u.status ≡ true
  pub found : user_of_email email after ≡ some u
  pub challenges : after.challenges ≡ before.challenges
  pub devices : after.devices ≡ before.devices
  pub sessions : after.sessions ≡ before.sessions

module _ (ids : NewIds) (email : String) (now : ℕ) where
  -- The tables after the three rows of a new account.
  created_IsAdmitted :
      (before s s2 s3 : AuthStore) (uid eid : String) (x x2 x3 : Unit {0})
      → user_row_inserted uid now before ≡ some (x, s)
      → email_inserted (new_email eid uid email now) s ≡ some (x2, s2)
      → profile_inserted uid s2 ≡ some (x3, s3)
      → IsAdmitted email before (record { id = uid; status = active; email = email }) s3
  unfolding user_of_email find_email find_user_row can_authenticate
  created_IsAdmitted before s s2 s3 uid eid x x2 x3 one two three = record {
    may = refl;
    found = ground (arith, str_eq_self email, str_eq_self uid);
    challenges = ground arith;
    devices = ground arith;
    sessions = ground arith;
  }

  account :
      (t : Tx AuthStore)
      → Ensures (λ u v. IsAdmitted email t.store u v.store) (create_account ids email now) t
  account t = Ensures-bind (
      Ensures-or_fail internal ids.user _ λ uid e1. Ensures-bind (
        Ensures-exec internal internal _ t λ n x s one. Ensures-bind (
          Ensures-or_fail internal ids.email _ λ eid e2. Ensures-bind (
            Ensures-exec internal internal _ _ λ n2 x2 s2 two. Ensures-bind (
              Ensures-exec internal internal _ _ λ n3 x3 s3 three.
                Ensures-pure _ _
                  (created_IsAdmitted t.store s s2 s3 uid eid x x2 x3 one two three))))))

  admitted :
      (t : Tx AuthStore) (o : Option User)
      → user_of_email email t.store ≡ o
      → Ensures (λ u v. IsAdmitted email t.store u v.store) (admit ids email now o) t
  admitted t none e = account t
  admitted t (some u) e = Ensures-when (can_authenticate u.status) user_not_active _ t λ may.
      Ensures-pure _ _
        (record { may = may; found = e; challenges = refl; devices = refl; sessions = refl })

  pub resolve-IsAdmitted :
      (t : Tx AuthStore)
      → Ensures (λ u v. IsAdmitted email t.store u v.store) (resolve_or_create_user ids email now) t
  unfolding resolve_or_create_user
  resolve-IsAdmitted t = Ensures-bind (
      Ensures-query internal (user_of_email email) t
        λ n. admitted (record { store = t.store; budget = n }) (user_of_email email t.store) refl)
