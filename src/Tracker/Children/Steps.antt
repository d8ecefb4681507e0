-- ===== src/Tracker/Children/Steps.antt =====
-- What the steps of a command on a child have done when they return
-- (internal/modules/tracker/postgres/interview_repo.go, note_repo.go and reminder_repo.go).
use cv_agent.Base.{
  ℕ, String, ◌≡◌, refl, Bool, true, false, Option, none, some, List, ◌∷◌, below_one, inc64, arith,
  is_empty, if◌then◌else◌,
}
use cv_agent.Db.{Result, ok, err, Tx}
use cv_agent.Db.Ensures.{
  Ensures-or_fail, Ensures, Ensures-pure, Ensures-fail, Ensures-exec_if, Ensures-query,
  Ensures-bind,
}
use cv_agent.Tracker.Domain.{Error, internal}
use cv_agent.Tracker.Validate.{is_some}
use cv_agent.Tracker.Store.{Store, Act, find_live}
use cv_agent.Tracker.Application.{choose_id}
use cv_agent.Tracker.Application.Steps.{Ensures-require}
use cv_agent.Tracker.Children.{
  Kind, belongs_to, validate_link, application_exists, validated, find_child, load_child, has_clash,
  insert_child, rewrite_child, clash_elsewhere, refuses_update, rewrite_table, updated_row,
  update_child,
}
use cv_agent.Tracker.Children.Rows.{replace_row, rewrite-find_child}

-- The round that a link names is a live one of the application.
abbrev pub LinkHolds : String → String → Option String → Store → Type 0
LinkHolds user app none s = Unit
LinkHolds user app (some round) s = belongs_to user app round s.interviews ≡ true

module _ {Q : Unit {0} → Tx Store → Type 0} where
  pub Ensures-link :
      (user app : String) (link : Option String) (t : Tx Store)
      → ((n : ℕ) → LinkHolds user app link t.store → Q tt (record { store = t.store; budget = n }))
      → Ensures Q (validate_link user app link) t
  unfolding validate_link
  Ensures-link user app none t k = Ensures-pure tt t (k t.budget tt)
  Ensures-link user app (some round) t k =
      Ensures-bind (Ensures-query internal _ t λ n. Ensures-require _ _ _ λ holds. k n holds)

  pub Ensures-exists :
      (user app : String) (t : Tx Store)
      → ((n : ℕ)
          → is_some (find_live user app t.store.applications) ≡ true
          → Q tt (record { store = t.store; budget = n }))
      → Ensures Q (application_exists user app) t
  Ensures-exists user app t k =
      Ensures-bind (Ensures-query internal _ t λ n. Ensures-require _ _ _ λ there. k n there)

module _ {Q : String → Tx Store → Type 0} where
  Ensures-if :
      (b : Bool) (m n : Act String) (t : Tx Store)
      → Ensures Q m t
      → Ensures Q n t
      → Ensures Q (if b then m else n) t
  Ensures-if true m n t x y = x
  Ensures-if false m n t x y = y

  pub Ensures-choose_id :
      (fresh : Option String) (given : String) (t : Tx Store)
      → ((id : String) → Q id t)
      → Ensures Q (choose_id fresh given) t
  Ensures-choose_id none given t k =
      Ensures-if (is_empty given) _ _ t (Ensures-fail internal t) (Ensures-pure given t (k given))
  Ensures-choose_id (some i) given t k =
      Ensures-if (is_empty given) _ _ t (Ensures-pure i t (k i)) (Ensures-pure given t (k given))

module _ {W : Type 0} {Q : W → Tx Store → Type 0} where
  pub Ensures-validated :
      (r : Result Error W) (t : Tx Store) → ((w : W) → r ≡ ok w → Q w t) → Ensures Q (validated r) t
  Ensures-validated (ok w) t k = Ensures-pure w t (k w refl)
  Ensures-validated (err e) t k = Ensures-fail e t

module _ {A W : Type 0} (k : Kind A W) where
  no_refusal :
      (f : A → A) (a : A) (s : Store) {rows : List A}
      → refuses_update k f a s ≡ false
      → rewrite_child k f a (k.rows s) ≡ some rows
      → (below_one (k.base a).entity_version ≡ false) × (clash_elsewhere k a (k.rows s) ≡ false)
  no_refusal f a s h hit = ground arith

  module _ {Q : A → Tx Store → Type 0} where
    pub Ensures-load_child :
        (user id : String) (t : Tx Store)
        → ((n : ℕ) (cur : A)
            → find_child k user id (k.rows t.store) ≡ some cur
            → Q cur (record { store = t.store; budget = n }))
        → Ensures Q (load_child k user id) t
    Ensures-load_child user id t h =
        Ensures-bind (Ensures-query internal _ t λ n. Ensures-or_fail _ _ _ (h n))

  module _ {Q : Unit {0} → Tx Store → Type 0} where
    pub Ensures-insert_child :
        (a : A) (t : Tx Store)
        → ((n : ℕ)
            → has_clash k a (k.rows t.store) ≡ false
            → Q tt (record { store = k.with_rows (a ∷ k.rows t.store) t.store; budget = n }))
        → Ensures Q (insert_child k a) t
    Ensures-insert_child a t h = Ensures-bind (
        Ensures-require (k.encodes a) internal t λ fits.
          Ensures-exec_if internal internal t (λ s. has_clash k a (k.rows s))
            (λ s. (tt, k.with_rows (a ∷ k.rows s) s)) h)

    -- The row that was loaded is the one that is written.
    pub Ensures-rewrite_table :
        (f : A → A) (a : A) (user id : String) (t : Tx Store) {cur : A}
        → find_child k user id (k.rows t.store) ≡ some cur
        → (k.base a).user_id ≡ user
        → (k.base a).id ≡ id
        → (k.base a).entity_version ≡ inc64 (k.base cur).entity_version
        → ((n : ℕ)
            → below_one (k.base a).entity_version ≡ false
            → clash_elsewhere k a (k.rows t.store) ≡ false
            → Q tt (record {
              store = k.with_rows (replace_row k f user id (k.rows t.store)) t.store;
              budget = n;
            }))
        → Ensures Q (rewrite_table k f a) t
    Ensures-rewrite_table f a user id t found u i v h =
        let hit = rewrite-find_child k f a user id (k.rows t.store) found u i v in
        Ensures-bind (
          Ensures-exec_if internal internal t (refuses_update k f a)
            (λ s. elim (rewrite_child k f a (k.rows s)) [
              | none ↦ (false, s)
              | some rows ↦ (true, k.with_rows rows s)
            ])
            λ n fine.
              let (low, clear) = no_refusal f a t.store fine hit in
              rw hit (Ensures-pure _ _ (h n low clear)))

    -- An update of the loaded row by a row of its key and the next version.
    pub Ensures-update_child :
        (a : A) (user id : String) (t : Tx Store) {cur : A}
        → find_child k user id (k.rows t.store) ≡ some cur
        → (k.base a).user_id ≡ user
        → (k.base a).id ≡ id
        → (k.base a).entity_version ≡ inc64 (k.base cur).entity_version
        → ((n : ℕ)
            → below_one (k.base a).entity_version ≡ false
            → clash_elsewhere k a (k.rows t.store) ≡ false
            → Q tt (record {
              store =
                  k.with_rows (replace_row k (updated_row k a) user id (k.rows t.store)) t.store;
              budget = n;
            }))
        → Ensures Q (update_child k a) t
    Ensures-update_child a user id t found u i v h =
        Ensures-bind {f = λ _. rewrite_table k (updated_row k a) a} (
          Ensures-require (k.encodes a) internal t
            λ fits. Ensures-rewrite_table (updated_row k a) a user id t found u i v h)
