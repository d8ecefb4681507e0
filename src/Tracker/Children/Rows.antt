-- ===== src/Tracker/Children/Rows.antt =====
-- Rows of the children's tables under their updates
-- (internal/modules/tracker/postgres/interview_repo.go, note_repo.go and reminder_repo.go).
use cv_agent.Tracker.Domain.{ChildMeta}
use cv_agent.Tracker.Cascade.{is_child, delete_child, delete_children, any_overflow}
use cv_agent.Base.{
  ℕ, Option, subst, inl, inr, Bool-cases, All, sym, String, ◌≡◌, refl, true, false, none, some,
  List, [], ◌∷◌, arith, inc64, eqb_ℤ_iff, str_eq→eq, below_one, if◌then◌else◌,
}
use cv_agent.Tracker.Children.{Kind, is_live_child, find_child, rewrite_child}

module _ {A W : Type 0} (k : Kind A W) where
  -- The first live row of a user and an id, replaced.
  unfoldable pub replace_row : (A → A) → String → String → List A → List A
  replace_row f user id [] = []
  replace_row f user id (x ∷ rest) =
      if is_live_child k user id x then f x ∷ rest else x ∷ replace_row f user id rest

  pub find_child-is_live :
      (user id : String) (rows : List A) {cur : A}
      → find_child k user id rows ≡ some cur
      → is_live_child k user id cur ≡ true
  unfolding find_child
  find_child-is_live user id [] h = cc
  find_child-is_live user id (a ∷ rest) {cur} h =
      ground (arith, find_child-is_live user id rest {cur = cur})

  pub find_child-key :
      (user id : String) (rows : List A) {cur : A}
      → find_child k user id rows ≡ some cur
      → ((k.base cur).user_id ≡ user) × ((k.base cur).id ≡ id) × ((k.base cur).deleted_at ≡ none)
  find_child-key user id rows {cur} h = ground (
    arith,
    find_child-is_live user id rows h,
    str_eq→eq (k.base cur).user_id user,
    str_eq→eq (k.base cur).id id,
  )

  -- An update of the version after the loaded row's writes that row.
  pub rewrite-find_child :
      (f : A → A) (a : A) (user id : String) (rows : List A) {cur : A}
      → find_child k user id rows ≡ some cur
      → (k.base a).user_id ≡ user
      → (k.base a).id ≡ id
      → (k.base a).entity_version ≡ inc64 (k.base cur).entity_version
      → rewrite_child k f a rows ≡ some (replace_row f user id rows)
  unfolding find_child rewrite_child replace_row
  rewrite-find_child f a user id [] h u i v = cc
  rewrite-find_child f a user id (row ∷ rest) {cur} h u i v = ground (
    arith,
    rewrite-find_child f a user id rest {cur = cur},
    str_eq→eq (k.base row).id id,
    eqb_ℤ_iff (inc64 (k.base row).entity_version) (k.base a).entity_version,
  )

  -- A replacement that leaves the key and the row's life alone is what the key then finds.
  pub find_child-replace_row :
      (f : A → A) (user id : String) (rows : List A) {cur : A}
      → find_child k user id rows ≡ some cur
      → is_live_child k user id (f cur) ≡ true
      → find_child k user id (replace_row f user id rows) ≡ some (f cur)
  unfolding find_child replace_row
  find_child-replace_row f user id [] h l = cc
  find_child-replace_row f user id (a ∷ rest) {cur} h l =
      ground (arith, find_child-replace_row f user id rest {cur = cur})

  -- The rows of every other key are found as before.
  pub find_child-replace_row_ne :
      (f : A → A) (user id u i : String) (rows : List A)
      → ((a : A)
          → is_live_child k user id a ≡ true
          → (is_live_child k u i a ≡ false) × (is_live_child k u i (f a) ≡ false))
      → find_child k u i (replace_row f user id rows) ≡ find_child k u i rows
  unfolding find_child replace_row
  find_child-replace_row_ne f user id u i [] h = refl
  find_child-replace_row_ne f user id u i (a ∷ rest) h =
      ground (arith, find_child-replace_row_ne f user id u i rest h, h a)

  -- What holds of every row holds after one is replaced, if it holds of the new row.
  pub All-replace_row :
      (P : A → Type 0) (f : A → A) (user id : String) (xs : List A) {cur : A}
      → find_child k user id xs ≡ some cur
      → (P cur → P (f cur))
      → All P xs
      → All P (replace_row f user id xs)
  unfolding find_child replace_row
  All-replace_row P f user id [] e g h = tt
  All-replace_row P f user id (x ∷ xs) {cur} e g h = elim (Bool-cases (is_live_child k user id x)) [
    | inl p ↦
        let same : x ≡ cur = ground arith in
        rw p (subst (λ y. P (f y)) (sym same) (g (subst P same h.0)), h.1)
    | inr p ↦
        let later : find_child k user id xs ≡ some cur = ground arith in
        rw p (h.0, All-replace_row P f user id xs later g h.1)
  ]

module _ {A : Type 0} (meta_of : A → ChildMeta) (with_meta : A → ChildMeta → A) (P : A → Type 0)
    (user app : String) (device : Option String) (now : ℕ)
    (step : (x : A) → P x → P (with_meta x (delete_child device now (meta_of x)))) where
  -- What holds of every child and of its deleted row holds after the cascade.
  pub All-delete_children :
      (xs : List A) → All P xs → All P (delete_children meta_of with_meta user app device now xs).0
  unfolding delete_children
  All-delete_children [] h = tt
  All-delete_children (x ∷ xs) h = elim (Bool-cases (is_child user app (meta_of x))) [
    | inl e ↦ rw e (step x h.0, All-delete_children xs h.1)
    | inr e ↦ rw e (h.0, All-delete_children xs h.1)
  ]

module _ {A : Type 0} (meta_of : A → ChildMeta) (with_meta : A → ChildMeta → A) (P : A → Type 0)
    (user app : String) (device : Option String) (now : ℕ)
    (step : (x : A)
      → below_one (inc64 (meta_of x).entity_version) ≡ false
      → P x
      → P (with_meta x (delete_child device now (meta_of x)))) where
  -- And so with a property of versions, if those of the deleted rows fit their column.
  pub All-delete_fitting :
      (xs : List A)
      → any_overflow (delete_children meta_of with_meta user app device now xs).1 ≡ false
      → All P xs
      → All P (delete_children meta_of with_meta user app device now xs).0
  unfolding delete_children
  All-delete_fitting [] fits h = tt
  All-delete_fitting (x ∷ xs) fits h = elim (Bool-cases (is_child user app (meta_of x))) [
    | inl e ↦
        let low : below_one (inc64 (meta_of x).entity_version) ≡ false = ground arith in
        let rest : any_overflow (delete_children meta_of with_meta user app device now xs).1
            ≡ false =
          ground arith in
        rw e (step x low h.0, All-delete_fitting xs rest h.1)
    | inr e ↦
        let rest : any_overflow (delete_children meta_of with_meta user app device now xs).1
            ≡ false =
          ground arith in
        rw e (h.0, All-delete_fitting xs rest h.1)
  ]
