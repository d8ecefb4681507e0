-- ===== src/Db/Keeps.antt =====
-- Properties of the tables that a handler keeps, whether or not it fails: a rule for each way to
-- build one.
use cv_agent.Base.{
  ℕ, subst, sym, if◌then◌else◌, zero, suc, ◌≡◌, refl, Option, none, some, Bool, false, ◌⊎◌, inl,
  inr,
}
use cv_agent.Db.{Result, ok, err, Tx, M, continue, ◌>>=◌, exec, written}
use cv_agent.Db.Clean.{Reads, IsClean}
use cv_agent.Db.Ensures.{Ensures, guarded, matched}

pub record Keeps {ℓ} {S E A : Type ℓ} (P : S → Type ℓ) (m : M S E A) : Type ℓ where
  pub at : (t : Tx S) → P t.store → P (m t).1.store

module _ {ℓ} {S E A : Type ℓ} {P : S → Type ℓ} where
  pub Reads-Keeps : {m : M S E A} → Reads m → Keeps P m
  Reads-Keeps r = record { at = λ t p. subst P (sym (r.at t)) p }

-- A property that holds after each success, and a failure that leaves nothing to commit.
module _ {ℓ} {S E A : Type ℓ} (P : S → Type ℓ) (m : M S E A) (t : Tx S) where
  pub settled :
      IsClean m
      → P t.store
      → Ensures (λ a u. P u.store) m t
      → P (m t).1.store ⊎ ((m t).1.budget ≡ 0)
  settled clean p good = go (m t).0 refl
    where
      go : (r : Result E A) → (m t).0 ≡ r → P (m t).1.store ⊎ ((m t).1.budget ≡ 0)
      go (ok a) h = inl (good.at a h)
      go (err e) h = elim (clean.at t e h) [
        | inl same ↦ inl (subst P (sym same) p)
        | inr dead ↦ inr dead
      ]

module _ {ℓ} {S E A : Type ℓ} (P : S → Type ℓ) (lost refused : E) where
  written_keeps :
      (s : S) (n : ℕ) (o : Option (A × S))
      → P s
      → ((a : A) (s' : S) → o ≡ some (a, s') → P s')
      → P (written refused s n o).1.store
  written_keeps s n none p k = p
  written_keeps s n (some (a, s')) p k = k a s' refl

  exec_keeps :
      (f : S → Option (A × S)) (s : S) (n : ℕ)
      → P s
      → ((a : A) (s' : S) → f s ≡ some (a, s') → P s')
      → P (exec lost refused f (record { store = s; budget = n })).1.store
  exec_keeps f s zero p k = p
  exec_keeps f s (suc n) p k = written_keeps s n (f s) p k

module _ {ℓ} {S E A : Type ℓ} {P : S → Type ℓ} where
  pub Keeps-exec :
      (lost refused : E) (f : S → Option (A × S))
      → ((s : S) (a : A) (s' : S) → P s → f s ≡ some (a, s') → P s')
      → Keeps P (exec lost refused f)
  Keeps-exec lost refused f k = record {
    at = λ t p. exec_keeps P lost refused f t.store t.budget p (λ a s' h. k t.store a s' p h);
  }

  pub Keeps-exec_if :
      (lost refused : E) (b : S → Bool) (x : S → A × S)
      → ((s : S) → b s ≡ false → P s → P (x s).1)
      → Keeps P (exec lost refused (λ s. if b s then none else some (x s)))
  Keeps-exec_if lost refused b x k =
      Keeps-exec lost refused _
        λ s a s' p h. guarded (λ y. P y.1) (b s) (x s) (a, s') (λ e. k s e p) h

  pub Keeps-exec_option {κ} :
      {L : Type κ} (lost refused : E) (o : S → Option L) (x : S → L → A × S)
      → ((s : S) (l : L) → P s → P (x s l).1)
      → Keeps P (exec lost refused (λ s. elim (o s) [ none ↦ none | some l ↦ some (x s l) ]))
  Keeps-exec_option lost refused o x k =
      Keeps-exec lost refused _
        λ s a s' p h. matched (λ y. P y.1) (o s) (x s) (a, s') (λ l e. k s l p) h

module _ {ℓ} {S E A B : Type ℓ} {P : S → Type ℓ} where
  pub Keeps-bind :
      (m : M S E A) (f : A → M S E B) → Keeps P m → ((a : A) → Keeps P (f a)) → Keeps P (m >>= f)
  Keeps-bind m f km kf = record { at = λ t p. go (m t).0 (m t).1 (km.at t p) }
    where
      go : (r : Result E A) (u : Tx S) → P u.store → P (continue r f u).1.store
      go (ok a) u p = (kf a).at u p
      go (err e) u p = p
