-- ===== src/Identity/PasswordLogin/Passwords.antt =====
-- What a refused password login shows (internal/modules/identity/application/login_dev.go).
use cv_agent.Base.{ℕ, String, ◌≡◌, refl, ◌⊎◌, inl, inr, Bool-cases, none, some, List, ◌∷◌}
use cv_agent.Db.{err}
use cv_agent.Db.Pool.{Fate, sound}
use cv_agent.Identity.Domain.{invalid_credentials, User}
use cv_agent.Identity.Store.{AuthStore, Call, Credential, find_credential}
use cv_agent.Identity.Challenges.{user_of_email}
use cv_agent.Identity.Sessions.{IssueEnv}
use cv_agent.Identity.PasswordLogin.{
  DevLoginInput, DevLoginService, mismatch, invalid_hash, if_active, find_active_by_email,
  find_password_hash, normalized, not_blank, login,
}

module _ (service : DevLoginService) (ensure_default : String → Call (Unit {0}))
    (env : IssueEnv) where
  -- Three ways in which credentials are wrong.
  pub data Wrong (s : AuthStore) (req : DevLoginInput) : Type 0 where
    no_account :
        if_active (user_of_email (normalized service ensure_default env req.email) s) ≡ none
        → Wrong s req
    no_password :
        (u : User)
        → if_active (user_of_email (normalized service ensure_default env req.email) s) ≡ some u
        → find_credential u.id s.credentials ≡ none
        → Wrong s req
    wrong_password :
        (u : User) (c : Credential)
        → if_active (user_of_email (normalized service ensure_default env req.email) s) ≡ some u
        → find_credential u.id s.credentials ≡ some c
        → (service.verify_password req.password c.password_hash ≡ mismatch)
          ⊎ (service.verify_password req.password c.password_hash ≡ invalid_hash)
        → Wrong s req

  -- A login with wrong credentials, by two statements that do not fail, is refused with the same error
  -- and changes nothing: whether the account is missing or not active, has no password, or has another
  -- one, cannot be told from the answer.
  pub login_hides :
      (req : DevLoginInput) (s : AuthStore) (m n : ℕ) (rest : List Fate)
      → Wrong s req
      → let r =
          login service ensure_default env req
            (record { store = s; fates = sound m ∷ sound n ∷ rest }) in
        (r.0 ≡ err invalid_credentials) × (r.1.store ≡ s)
  unfolding login find_active_by_email find_password_hash
  login_hides req s m n rest (no_account e) =
      elim (Bool-cases (not_blank service ensure_default env req)) [
        | inl p ↦ rw (p, e) (refl, refl)
        | inr p ↦ rw p (refl, refl)
      ]
  login_hides req s m n rest (no_password u e h) =
      elim (Bool-cases (not_blank service ensure_default env req)) [
        | inl p ↦ rw (p, e, h) (refl, refl)
        | inr p ↦ rw p (refl, refl)
      ]
  login_hides req s m n rest (wrong_password u c e h (inl x)) =
      elim (Bool-cases (not_blank service ensure_default env req)) [
        | inl p ↦ rw (p, e, h, x) (refl, refl)
        | inr p ↦ rw p (refl, refl)
      ]
  login_hides req s m n rest (wrong_password u c e h (inr x)) =
      elim (Bool-cases (not_blank service ensure_default env req)) [
        | inl p ↦ rw (p, e, h, x) (refl, refl)
        | inr p ↦ rw p (refl, refl)
      ]
