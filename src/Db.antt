-- ===== src/Db.antt =====
-- A database transaction as a state monad with errors: `pgx.Tx` as the services use it.
-- A statement after a failed one fails too (PostgreSQL aborts the transaction), and the
-- connection can be lost before any statement: both are the budget of statements that still
-- succeed, which a failed statement empties. What a handler wrote before it returned an error
-- stays in the transaction, since the caller may still commit.
pub mod Clean
pub mod Ensures
pub mod Keeps
pub mod Pool
use cv_agent.Base.{ℕ, zero, suc, Bool, true, false, Option, none, some}

pub data Result {ℓ} (E A : Type ℓ) : Type ℓ where
  ok : A → Result E A
  err : E → Result E A

pub record Tx {ℓ} (S : Type ℓ) : Type ℓ where
  pub store : S
  pub budget : ℕ

abbrev pub M {ℓ} : Type ℓ → Type ℓ → Type ℓ → Type ℓ
M S E A = Tx S → Result E A × Tx S

module _ {ℓ} {S E A B : Type ℓ} where
  abbrev pub continue : Result E A → (A → M S E B) → M S E B
  continue (ok a) f t = f a t
  continue (err e) f t = (err e, t)

  infixl 5 ◌>>=◌ ◌>>◌
  abbrev pub ◌>>=◌ : M S E A → (A → M S E B) → M S E B
  ◌>>=◌ m f t = continue (m t).0 f (m t).1

  abbrev pub ◌>>◌ : M S E A → M S E B → M S E B
  m >> n = m >>= λ _. n

module _ {ℓ} {S E A : Type ℓ} where
  abbrev pub pure : A → M S E A
  pure a t = (ok a, t)

  abbrev pub fail : E → M S E A
  fail e t = (err e, t)

  -- A statement that only reads; `lost` is the error of a statement that could not run.
  abbrev pub query : E → (S → A) → M S E A
  query lost f t = elim t.budget [
    | zero ↦ (err lost, t)
    | suc n ↦ (ok (f t.store), record { store = t.store; budget = n })
  ]

  abbrev pub written : E → S → ℕ → Option (A × S) → Result E A × Tx S
  written refused s n none = (err refused, record { store = s; budget = 0 })
  written refused s n (some (a, s')) = (ok a, record { store = s'; budget = n })

  -- A statement that writes. `none`: a constraint refuses the row with the error `refused`, and
  -- the transaction is aborted.
  abbrev pub exec : E → E → (S → Option (A × S)) → M S E A
  exec lost refused f t = elim t.budget [
    | zero ↦ (err lost, t)
    | suc n ↦ written refused t.store n (f t.store)
  ]

module _ {ℓ} {S E A : Type ℓ} where
  -- A row that has to be there.
  abbrev pub or_fail : E → Option A → M S E A
  or_fail e none = fail e
  or_fail e (some a) = pure a

  -- `m`, if a test holds.
  abbrev pub when : Bool → E → M S E A → M S E A
  when true e m = m
  when false e m = fail e
