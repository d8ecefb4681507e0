-- ===== src/Db/Clean.antt =====
-- What a transaction holds after a statement, or a handler, has failed: rules that prove it of a
-- `do` block by its steps.
use cv_agent.Base.{◌≡◌, refl, ◌∙◌, ◌⊎◌, inl, inr, Option, arith}
use cv_agent.Db.{Result, ok, err, Tx, M, continue, ◌>>=◌, pure, fail, query, exec}

-- `m` never writes.
pub record Reads {ℓ} {S E A : Type ℓ} (m : M S E A) : Type ℓ where
  pub at : (t : Tx S) → (m t).1.store ≡ t.store

-- An error of `m` has aborted the transaction.
pub record Aborts {ℓ} {S E A : Type ℓ} (m : M S E A) : Type ℓ where
  pub at : (t : Tx S) (e : E) → (m t).0 ≡ err e → (m t).1.budget ≡ 0

-- After an error of `m` there is nothing to commit: nothing was written, or the transaction is
-- aborted.
pub record IsClean {ℓ} {S E A : Type ℓ} (m : M S E A) : Type ℓ where
  pub at : (t : Tx S) (e : E) → (m t).0 ≡ err e → ((m t).1.store ≡ t.store) ⊎ ((m t).1.budget ≡ 0)

module _ {ℓ} {S E A : Type ℓ} where
  pub Reads-pure : (a : A) → Reads (pure {S = S} {E = E} a)
  Reads-pure a = record { at = λ t. refl }

  pub Reads-fail : (e : E) → Reads (fail {S = S} {A = A} e)
  Reads-fail e = record { at = λ t. refl }

  pub Reads-query : (lost : E) (f : S → A) → Reads (query lost f)
  Reads-query lost f = record { at = λ t. ground arith }

  pub Aborts-pure : (a : A) → Aborts (pure {S = S} {E = E} a)
  Aborts-pure a = record { at = λ t e h. cc }

  pub Aborts-exec : (lost refused : E) (f : S → Option (A × S)) → Aborts (exec lost refused f)
  Aborts-exec lost refused f = record { at = λ t e h. ground arith }

  pub Reads-IsClean : {m : M S E A} → Reads m → IsClean m
  Reads-IsClean r = record { at = λ t e h. inl (r.at t) }

  pub Aborts-IsClean : {m : M S E A} → Aborts m → IsClean m
  Aborts-IsClean r = record { at = λ t e h. inr (r.at t e h) }

module _ {ℓ} {S E A B : Type ℓ} (m : M S E A) (f : A → M S E B) where
  pub Reads-bind : Reads m → ((a : A) → Reads (f a)) → Reads (m >>= f)
  Reads-bind km kf = record { at = λ t. go t (m t).0 (m t).1 (km.at t) }
    where
      go :
          (t : Tx S) (r : Result E A) (u : Tx S)
          → u.store ≡ t.store
          → (continue r f u).1.store ≡ t.store
      go t (ok a) u k = (kf a).at u ∙ k
      go t (err e) u k = k

  pub Aborts-bind : Aborts m → ((a : A) → Aborts (f a)) → Aborts (m >>= f)
  Aborts-bind km kf = record { at = λ t e h. go e (m t).0 (m t).1 (km.at t) h }
    where
      go :
          (e : E) (r : Result E A) (u : Tx S)
          → ((d : E) → r ≡ err d → u.budget ≡ 0)
          → (continue r f u).0 ≡ err e
          → (continue r f u).1.budget ≡ 0
      go e (ok a) u k h = (kf a).at u e h
      go e (err d) u k h = k d refl

  -- Until the first write an error leaves nothing written.
  pub IsClean-bind_Reads : Reads m → ((a : A) → IsClean (f a)) → IsClean (m >>= f)
  IsClean-bind_Reads km kf = record { at = λ t e h. go t e (m t).0 (m t).1 (km.at t) h }
    where
      go :
          (t : Tx S) (e : E) (r : Result E A) (u : Tx S)
          → u.store ≡ t.store
          → (continue r f u).0 ≡ err e
          → ((continue r f u).1.store ≡ t.store) ⊎ ((continue r f u).1.budget ≡ 0)
      go t e (ok a) u k h = elim ((kf a).at u e h) [ inl p ↦ inl (p ∙ k) | inr q ↦ inr q ]
      go t e (err d) u k h = inl k

  -- After it every error has to abort.
  pub IsClean-bind_Aborts : IsClean m → ((a : A) → Aborts (f a)) → IsClean (m >>= f)
  IsClean-bind_Aborts km kf = record { at = λ t e h. go t e (m t).0 (m t).1 (km.at t) h }
    where
      go :
          (t : Tx S) (e : E) (r : Result E A) (u : Tx S)
          → ((d : E) → r ≡ err d → (u.store ≡ t.store) ⊎ (u.budget ≡ 0))
          → (continue r f u).0 ≡ err e
          → ((continue r f u).1.store ≡ t.store) ⊎ ((continue r f u).1.budget ≡ 0)
      go t e (ok a) u k h = inr ((kf a).at u e h)
      go t e (err d) u k h = k d refl
