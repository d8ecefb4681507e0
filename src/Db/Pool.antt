-- ===== src/Db/Pool.antt =====
-- Calls of a connection pool: each one statement, or one transaction with its commit. A single
-- statement is a transaction of one statement.
pub mod Rules
use cv_agent.Base.{
  ℕ, zero, suc, ◌≡◌, ◌≢◌, refl, sym, ap, ◌∙◌, subst, ◌⊎◌, inl, inr, Bool, true, false, Option, none,
  some, List, [], ◌∷◌, arith, if◌then◌else◌,
}
use cv_agent.Db.{Result, ok, err, Tx, M, pure, fail, query, exec, ◌>>=◌}
use cv_agent.Db.Ensures.{Ensures}

-- How a commit ends: durable, refused, or durable with the answer lost on the way.
pub data CommitOutcome : Type 0 where
  acknowledged refused lost : CommitOutcome

-- What the environment does during one call: whether a transaction begins, how many of its
-- statements succeed, and how its commit ends.
pub record Fate : Type 0 where
  pub begins : Bool
  pub budget : ℕ
  pub commit : CommitOutcome

-- A call that does not fail, if it has two statements or less.
abbrev pub sound : ℕ → Fate
sound n = record { begins = true; budget = suc (suc n); commit = acknowledged }

-- The tables, and the fates of the calls to come; with none left every call fails.
pub record World (S : Type 0) : Type 0 where
  pub store : S
  pub fates : List Fate

abbrev pub P : Type 0 → Type 0 → Type 0 → Type 0
P S E A = World S → Result E A × World S

module _ {S E A B : Type 0} where
  abbrev pub proceed : Result E A → (A → P S E B) → P S E B
  proceed (ok a) f w = f a w
  proceed (err e) f w = (err e, w)

  -- `m`, and what follows it if it returns no error.
  infixl 5 ◌>=>◌
  abbrev pub ◌>=>◌ : P S E A → (A → P S E B) → P S E B
  ◌>=>◌ m f w = proceed (m w).0 f (m w).1

module _ {S E A : Type 0} where
  abbrev pub answer : Result E A → P S E A
  answer r w = (r, w)

  -- The end of a transaction whose statements returned `r`: one that is aborted is rolled back with
  -- an error.
  abbrev pub settle : CommitOutcome → ℕ → E → Result E A → S → S → Result E A × S
  settle c zero e r before after = (err e, before)
  settle acknowledged (suc n) e r before after = (r, after)
  settle refused (suc n) e r before after = (err e, before)
  settle lost (suc n) e r before after = (err e, after)

  -- A body that fails is rolled back.
  abbrev pub close : CommitOutcome → E → S → Result E (Result E A) × Tx S → Result E A × S
  close c e before (err d, t) = (err d, before)
  close c e before (ok r, t) = settle c t.budget e r before t.store

  abbrev pub run_body : E → M S E (Result E A) → Fate → S → Result E A × S
  run_body e body f s =
      if f.begins
      then close f.commit e s (body (record { store = s; budget = f.budget }))
      else (err e, s)

  abbrev pub with_fates : E → M S E (Result E A) → S → List Fate → Result E A × World S
  with_fates e body s [] = (err e, record { store = s; fates = [] })
  with_fates e body s (f ∷ rest) =
      let (r, s') = run_body e body f s in (r, record { store = s'; fates = rest })

  -- A transaction. What its body returns is committed, an error among it too; `e` is the error of
  -- the connection.
  abbrev pub atomically : E → M S E (Result E A) → P S E A
  atomically e body w = with_fates e body w.store w.fates

  abbrev pub returned : A → M S E (Result E A)
  returned a = pure (ok a)

  -- A single statement.
  abbrev pub statement : E → M S E A → P S E A
  statement e m = atomically e (m >>= returned)
