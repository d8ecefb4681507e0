-- ===== src/Db/Pool/Rules.antt =====
-- What a call of the pool leaves: rules for invariants of the tables, and for calls that return.
use cv_agent.Base.{
  ℕ, zero, suc, ◌≡◌, refl, sym, subst, Bool, true, false, List, [], ◌∷◌, Bool-cases, inl, inr,
  if◌then◌else◌,
}
use cv_agent.Db.{Result, ok, err, Tx, M, ◌>>=◌}
use cv_agent.Db.Ensures.{Ensures, Ensures-bind, Ensures-pure}
use cv_agent.Db.Pool.{
  CommitOutcome, acknowledged, refused, lost, Fate, World, P, proceed, ◌>=>◌, answer, settle, close,
  with_fates, atomically, statement, returned,
}

-- `m` keeps a property of the tables, whatever happens to its calls.
pub record Keeps {S E A : Type 0} (I : S → Type 0) (m : P S E A) : Type 0 where
  pub at : (w : World S) → I w.store → I (m w).1.store

-- If `m` on `w` returns a value then `Q` holds of it and of the tables after it.
pub record Returns {S E A : Type 0} (Q : A → S → Type 0) (m : P S E A) (w : World S) : Type 0 where
  pub at : (a : A) → (m w).0 ≡ ok a → Q a (m w).1.store

module _ {S E A : Type 0} (I : S → Type 0) where
  pub Keeps-answer : (r : Result E A) → Keeps {S = S} I (answer r)
  Keeps-answer r = record { at = λ w i. i }

  settle-keeps :
      (c : CommitOutcome) (n : ℕ) (e : E) (r : Result E A) (s u : S)
      → I s
      → I u
      → I (settle c n e r s u).1
  settle-keeps c zero e r s u i j = i
  settle-keeps acknowledged (suc n) e r s u i j = j
  settle-keeps refused (suc n) e r s u i j = i
  settle-keeps lost (suc n) e r s u i j = j

  close-keeps :
      (c : CommitOutcome) (e : E) (s : S) (x : Result E (Result E A)) (t : Tx S)
      → I s
      → ((r : Result E A) → x ≡ ok r → I t.store)
      → I (close c e s (x, t)).1
  close-keeps c e s (err d) t i k = i
  close-keeps c e s (ok r) t i k = settle-keeps c t.budget e r s t.store i (k r refl)

  fates-keep :
      (e : E) (body : M S E (Result E A)) (s : S) (fates : List Fate)
      → I s
      → ((n : ℕ) → Ensures (λ r u. I u.store) body (record { store = s; budget = n }))
      → I (with_fates e body s fates).1.store
  fates-keep e body s [] i k = i
  fates-keep e body s (f ∷ rest) i k = elim (Bool-cases f.begins) [
    | inl p ↦ rw p (
        close-keeps f.commit e s (body (record { store = s; budget = f.budget })).0
          (body (record { store = s; budget = f.budget })).1 i ((k f.budget).at))
    | inr p ↦ rw p i
  ]

  -- A transaction keeps what its body keeps where the body returns.
  pub Keeps-atomically :
      (e : E) (body : M S E (Result E A))
      → ((s : S) (n : ℕ) → I s → Ensures (λ r u. I u.store) body (record { store = s; budget = n }))
      → Keeps I (atomically e body)
  Keeps-atomically e body k = record {
    at = λ w i. fates-keep e body w.store w.fates i (λ n. k w.store n i);
  }

  pub Keeps-statement :
      (e : E) (m : M S E A)
      → ((s : S) (n : ℕ) → I s → Ensures (λ a u. I u.store) m (record { store = s; budget = n }))
      → Keeps I (statement e m)
  Keeps-statement e m k =
      Keeps-atomically e (m >>= returned)
        λ s n i. Ensures-bind (record { at = λ a h. Ensures-pure (ok a) _ ((k s n i).at a h) })

module _ {S E A B : Type 0} (I : S → Type 0) (m : P S E A) (f : A → P S E B) where
  pub Keeps-bind : Keeps I m → ((a : A) → Keeps I (f a)) → Keeps I (m >=> f)
  Keeps-bind km kf = record { at = λ w i. go (m w).0 (m w).1 (km.at w i) }
    where
      go : (r : Result E A) (v : World S) → I v.store → I (proceed r f v).1.store
      go (ok a) v i = (kf a).at v i
      go (err e) v i = i

module _ {S E A : Type 0} (Q : A → S → Type 0) where
  settle-returns :
      (c : CommitOutcome) (n : ℕ) (e : E) (r : Result E A) (s u : S) (a : A)
      → (settle c n e r s u).0 ≡ ok a
      → ((b : A) → r ≡ ok b → Q b u)
      → Q a (settle c n e r s u).1
  settle-returns c zero e r s u a h k = cc
  settle-returns acknowledged (suc n) e r s u a h k = k a h
  settle-returns refused (suc n) e r s u a h k = cc
  settle-returns lost (suc n) e r s u a h k = cc

  close-returns :
      (c : CommitOutcome) (e : E) (s : S) (x : Result E (Result E A)) (t : Tx S) (a : A)
      → (close c e s (x, t)).0 ≡ ok a
      → ((r : Result E A) → x ≡ ok r → (b : A) → r ≡ ok b → Q b t.store)
      → Q a (close c e s (x, t)).1
  close-returns c e s (err d) t a h k = cc
  close-returns c e s (ok r) t a h k = settle-returns c t.budget e r s t.store a h (k r refl)

  run-returns :
      (b : Bool) (x : Result E A × S) (e : E) (s : S) (a : A)
      → (if b then x else (err e, s)).0 ≡ ok a
      → (x.0 ≡ ok a → Q a x.1)
      → Q a (if b then x else (err e, s)).1
  run-returns true x e s a h k = k h
  run-returns false x e s a h k = cc

  fates-return :
      (e : E) (body : M S E (Result E A)) (s : S) (fates : List Fate)
      → ((n : ℕ)
          → Ensures
              (λ r u. (b : A) → r ≡ ok b → Q b u.store)
              body
              (record { store = s; budget = n }))
      → (a : A) → (with_fates e body s fates).0 ≡ ok a
      → Q a (with_fates e body s fates).1.store
  fates-return e body s [] k a h = cc
  fates-return e body s (f ∷ rest) k a h =
      let p = body (record { store = s; budget = f.budget }) in
      run-returns f.begins (close f.commit e s p) e s a h
        λ g. close-returns f.commit e s p.0 p.1 a g ((k f.budget).at)

  -- A transaction that returns `a` has left what its body leaves where it returns `a`.
  pub Returns-atomically :
      (e : E) (body : M S E (Result E A)) (w : World S)
      → ((n : ℕ)
          → Ensures
              (λ r u. (b : A) → r ≡ ok b → Q b u.store)
              body
              (record { store = w.store; budget = n }))
      → Returns Q (atomically e body) w
  Returns-atomically e body w k = record { at = fates-return e body w.store w.fates k }

  pub Returns-statement :
      (e : E) (m : M S E A) (w : World S)
      → ((n : ℕ) → Ensures (λ a u. Q a u.store) m (record { store = w.store; budget = n }))
      → Returns Q (statement e m) w
  Returns-statement e m w k = Returns-atomically e (m >>= returned) w λ n. Ensures-bind (record {
    at = λ a h. Ensures-pure (ok a) _ λ b g.
        subst (λ x. Q x (m (record { store = w.store; budget = n })).1.store) (cc g) ((k n).at a h);
  })

  pub Returns-answer :
      (r : Result E A) (w : World S) → ((a : A) → r ≡ ok a → Q a w.store) → Returns Q (answer r) w
  Returns-answer r w k = record { at = k }

module _ {S E A B : Type 0} (Q : B → S → Type 0) (m : P S E A) (f : A → P S E B) (w : World S) where
  pub Returns-bind :
      Returns (λ a s. (v : World S) → v.store ≡ s → Returns Q (f a) v) m w → Returns Q (m >=> f) w
  Returns-bind k = record { at = λ b h. go (m w).0 (m w).1 k.at b h }
    where
      go :
          (r : Result E A) (v : World S)
          → ((a : A) → r ≡ ok a → (u : World S) → u.store ≡ v.store → Returns Q (f a) u)
          → (b : B) → (proceed r f v).0 ≡ ok b
          → Q b (proceed r f v).1.store
      go (ok a) v k b h = (k a refl v refl).at b h
      go (err e) v k b h = cc

module _ {S E A : Type 0} (e : E) (body : M S E (Result E A)) where
  never_at :
      (s : S) (fates : List Fate)
      → ((n : ℕ) → Ensures (λ r u. ⊥) body (record { store = s; budget = n }))
      → (d : E) × ((with_fates e body s fates).0 ≡ err d)
        × ((with_fates e body s fates).1.store ≡ s)
  never_at s [] k = (e, refl, refl)
  never_at s (f ∷ rest) k = elim (Bool-cases f.begins) [
    | inl p ↦ rw p (
        undone (body (record { store = s; budget = f.budget })).0
          (body (record { store = s; budget = f.budget })).1 ((k f.budget).at))
    | inr p ↦ rw p (e, refl, refl)
  ]
    where
      undone :
          (x : Result E (Result E A)) (t : Tx S)
          → ((r : Result E A) → x ≡ ok r → ⊥)
          → (d : E) × ((close f.commit e s (x, t)).0 ≡ err d) × ((close f.commit e s (x, t)).1 ≡ s)
      undone (err d) t never = (d, refl, refl)
      undone (ok r) t never = absurd (never r refl)

  -- A transaction whose body never returns fails and changes nothing.
  pub never-atomically :
      (w : World S)
      → ((n : ℕ) → Ensures (λ r u. ⊥) body (record { store = w.store; budget = n }))
      → (d : E) × ((atomically e body w).0 ≡ err d) × ((atomically e body w).1.store ≡ w.store)
  never-atomically w k = never_at w.store w.fates k

-- What holds of the tables after `m` on `w`, whatever happened to its calls.
pub record Leaves {S E A : Type 0} (I : S → Type 0) (m : P S E A) (w : World S) : Type 0 where
  pub at : I (m w).1.store

module _ {S E A : Type 0} {I : S → Type 0} where
  pub Leaves-answer : (r : Result E A) (w : World S) → I w.store → Leaves I (answer r) w
  Leaves-answer r w i = record { at = i }

  pub Leaves-statement :
      (e : E) (m : M S E A) (w : World S)
      → I w.store
      → ((n : ℕ) → Ensures (λ a u. I u.store) m (record { store = w.store; budget = n }))
      → Leaves I (statement e m) w
  Leaves-statement e m w i k = record {
    at =
        fates-keep I e (m >>= returned) w.store w.fates i
          λ n. Ensures-bind (record { at = λ a h. Ensures-pure (ok a) _ ((k n).at a h) });
  }

module _ {S E A B : Type 0} {J I : S → Type 0} (m : P S E A) (f : A → P S E B) (w : World S) where
  pub Leaves-bind :
      Leaves J m w
      → ((s : S) → J s → I s)
      → ((a : A) (v : World S) → J v.store → Leaves I (f a) v)
      → Leaves I (m >=> f) w
  Leaves-bind l weaken k = record { at = go (m w).0 (m w).1 l.at }
    where
      go : (r : Result E A) (v : World S) → J v.store → I (proceed r f v).1.store
      go (ok a) v j = (k a v j).at
      go (err e) v j = weaken v.store j

-- A call whose value is only renamed.
module _ {S E A B : Type 0} (g : A → B) (m : P S E A) (w : World S) where
  pub Returns-answered :
      {Q : B → S → Type 0}
      → Returns (λ a s. Q (g a) s) m w
      → Returns Q (m >=> λ a. answer (ok (g a))) w
  Returns-answered {Q} k =
      Returns-bind Q m (λ a. answer (ok (g a))) w
        (record {
          at = λ a h v e. record {
            at = λ b same. subst (λ x. Q x v.store) (cc) (subst (Q (g a)) (sym e) (k.at a h));
          };
        })

  pub Leaves-answered : {I : S → Type 0} → Leaves I m w → Leaves I (m >=> λ a. answer (ok (g a))) w
  Leaves-answered {I} l =
      Leaves-bind {J = I} m (λ a. answer (ok (g a))) w l (λ s i. i) λ a v i. record { at = i }
