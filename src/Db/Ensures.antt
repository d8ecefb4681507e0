-- ===== src/Db/Ensures.antt =====
-- What a handler that returns no error has done: a rule for each way to build one.
use cv_agent.Base.{
  ℕ, subst, if◌then◌else◌, zero, suc, ◌≡◌, refl, Option, none, some, Bool, true, false,
}
use cv_agent.Db.{
  Result, ok, err, Tx, M, continue, ◌>>=◌, pure, fail, query, exec, written, or_fail, when,
}

-- If `m` on `t` returns a value then `Q` holds of it and of the transaction after it.
pub record Ensures {ℓ} {S E A : Type ℓ} (Q : A → Tx S → Type ℓ) (m : M S E A) (t : Tx S)
    : Type ℓ where
  pub at : (a : A) → (m t).0 ≡ ok a → Q a (m t).1

module _ {ℓ} {S E A : Type ℓ} {Q : A → Tx S → Type ℓ} where
  pub Ensures-pure : (a : A) (t : Tx S) → Q a t → Ensures {E = E} Q (pure a) t
  Ensures-pure a t q = record { at = λ b h. subst (λ x. Q x t) (cc) q }

  pub Ensures-fail : (e : E) (t : Tx S) → Ensures Q (fail e) t
  Ensures-fail e t = record { at = λ a h. cc }

module _ {ℓ} {S E A : Type ℓ} (Q : A → Tx S → Type ℓ) (lost refused : E) where
  written_at :
      (s : S) (n : ℕ) (o o' : Option (A × S))
      → ((a : A) (s' : S) → o ≡ some (a, s') → Q a (record { store = s'; budget = n }))
      → (b : A) → o ≡ o'
      → (written refused s n o').0 ≡ ok b
      → Q b (written refused s n o').1
  written_at s n o none k b e h = cc
  written_at s n o (some (a, s')) k b e h =
      subst (λ x. Q x (record { store = s'; budget = n })) (cc) (k a s' e)

  exec_at :
      (f : S → Option (A × S)) (s : S) (n : ℕ)
      → ((m : ℕ) (a : A) (s' : S) → f s ≡ some (a, s') → Q a (record { store = s'; budget = m }))
      → (b : A) → (exec lost refused f (record { store = s; budget = n })).0 ≡ ok b
      → Q b (exec lost refused f (record { store = s; budget = n })).1
  exec_at f s zero k b h = cc
  exec_at f s (suc n) k b h = written_at s n (f s) (f s) (k n) b refl h

  query_at :
      (f : S → A) (s : S) (n : ℕ)
      → ((m : ℕ) → Q (f s) (record { store = s; budget = m }))
      → (b : A) → (query lost f (record { store = s; budget = n })).0 ≡ ok b
      → Q b (query lost f (record { store = s; budget = n })).1
  query_at f s zero k b h = cc
  query_at f s (suc n) k b h = subst (λ x. Q x (record { store = s; budget = n })) (cc) (k n)

module _ {ℓ} {S E A : Type ℓ} {Q : A → Tx S → Type ℓ} where
  pub Ensures-exec :
      (lost refused : E) (f : S → Option (A × S)) (t : Tx S)
      → ((n : ℕ) (a : A) (s : S) → f t.store ≡ some (a, s) → Q a (record { store = s; budget = n }))
      → Ensures Q (exec lost refused f) t
  Ensures-exec lost refused f t k = record {
    at = λ b h. exec_at Q lost refused f t.store t.budget k b h;
  }

  pub Ensures-query :
      (lost : E) (f : S → A) (t : Tx S)
      → ((n : ℕ) → Q (f t.store) (record { store = t.store; budget = n }))
      → Ensures Q (query lost f) t
  Ensures-query lost f t k = record { at = λ b h. query_at Q lost lost f t.store t.budget k b h }

module _ {ℓ} {S E A B : Type ℓ} {Q : B → Tx S → Type ℓ} where
  pub Ensures-bind :
      {m : M S E A} {f : A → M S E B} {t : Tx S}
      → Ensures (λ a u. Ensures Q (f a) u) m t
      → Ensures Q (m >>= f) t
  Ensures-bind {m} {f} {t} k = record { at = λ b h. go (m t).0 (m t).1 k.at b h }
    where
      go :
          (r : Result E A) (u : Tx S)
          → ((a : A) → r ≡ ok a → Ensures Q (f a) u)
          → (b : B) → (continue r f u).0 ≡ ok b
          → Q b (continue r f u).1
      go (ok a) u k b h = (k a refl).at b h
      go (err e) u k b h = cc

-- The two forms of a write: behind a test, and of what a computation gives.
module _ {ℓ} {A : Type ℓ} (P : A → Type ℓ) where
  pub guarded :
      (b : Bool) (x y : A) → (b ≡ false → P x) → (if b then none else some x) ≡ some y → P y
  guarded true x y k h = cc
  guarded false x y k h = subst P (cc) (k refl)

  pub matched {κ} :
      {L : Type κ} (o : Option L) (x : L → A) (y : A)
      → ((l : L) → o ≡ some l → P (x l))
      → elim o [ none ↦ none | some l ↦ some (x l) ] ≡ some y
      → P y
  matched none x y k h = cc
  matched (some l) x y k h = subst P (cc) (k l refl)

module _ {ℓ} {S E A : Type ℓ} {Q : A → Tx S → Type ℓ} (lost refused : E) (t : Tx S) where
  pub Ensures-exec_if :
      (b : S → Bool) (x : S → A × S)
      → ((n : ℕ)
          → b t.store ≡ false
          → Q (x t.store).0 (record { store = (x t.store).1; budget = n }))
      → Ensures Q (exec lost refused (λ s. if b s then none else some (x s))) t
  Ensures-exec_if b x k = Ensures-exec lost refused _ t λ n a s h.
      guarded (λ y. Q y.0 (record { store = y.1; budget = n })) (b t.store) (x t.store) (a, s) (k n)
        h

  pub Ensures-exec_option {κ} :
      {L : Type κ} (o : S → Option L) (x : S → L → A × S)
      → ((n : ℕ) (l : L)
          → o t.store ≡ some l
          → Q (x t.store l).0 (record { store = (x t.store l).1; budget = n }))
      → Ensures Q (exec lost refused (λ s. elim (o s) [ none ↦ none | some l ↦ some (x s l) ])) t
  Ensures-exec_option o x k = Ensures-exec lost refused _ t λ n a s h.
      matched (λ y. Q y.0 (record { store = y.1; budget = n })) (o t.store) (x t.store) (a, s) (k n)
        h

module _ {ℓ} {S E A : Type ℓ} {Q : A → Tx S → Type ℓ} where
  pub Ensures-or_fail :
      (e : E) (o : Option A) (t : Tx S) → ((a : A) → o ≡ some a → Q a t) → Ensures Q (or_fail e o) t
  Ensures-or_fail e none t k = Ensures-fail e t
  Ensures-or_fail e (some a) t k = Ensures-pure a t (k a refl)

  pub Ensures-when :
      (b : Bool) (e : E) (m : M S E A) (t : Tx S)
      → (b ≡ true → Ensures Q m t)
      → Ensures Q (when b e m) t
  Ensures-when true e m t k = k refl
  Ensures-when false e m t k = Ensures-fail e t

  -- What holds of everything holds after a value.
  pub Ensures-weaken :
      {P : A → Tx S → Type ℓ} {m : M S E A} {t : Tx S}
      → Ensures P m t
      → ((a : A) (u : Tx S) → P a u → Q a u)
      → Ensures Q m t
  Ensures-weaken {m = m} {t = t} e k = record { at = λ a h. k a (m t).1 (e.at a h) }
