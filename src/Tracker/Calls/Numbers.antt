-- ===== src/Tracker/Calls/Numbers.antt =====
-- The keys of the interview rounds: their identifiers, and the numbers of the live rounds of an
-- application (internal/modules/tracker/postgres/interview_repo.go,
-- migrations/00004_application_tracker.sql).
use cv_agent.Base.{
  ℕ, sym, subst, ◌∙◌, String, ◌≡◌, inl, inr, Bool-cases, false, Option, some, List, [], ◌∷◌, All, ℤ,
  arith, str_eq, str_eq→eq, str_eq_self, eqb_ℤ, eqb_ℤ_iff, All-imp,
}
use cv_agent.Tracker.Domain.{InterviewRound}
use cv_agent.Tracker.Cascade.{delete_children, is_child, with_interview}
use cv_agent.Tracker.Children.{is_live_child, find_child, has_clash, clash_elsewhere}
use cv_agent.Tracker.Children.Rows.{replace_row, All-replace_row, All-delete_children}
use cv_agent.Tracker.Children.Kinds.{interviews, same_round}

-- Two rows with other identifiers, that are not live rounds of one application and one number.
abbrev pub Apart : InterviewRound → InterviewRound → Type 0
Apart i j = (str_eq j.id i.id ≡ false) × (same_round i j ≡ false)

abbrev pub Distinct : List InterviewRound → Type 0
Distinct [] = Unit
Distinct (i ∷ rest) = All (Apart i) rest × Distinct rest

str_eq_comm : (s t : String) → str_eq s t ≡ str_eq t s
str_eq_comm s t = ground (arith, str_eq→eq s t, str_eq→eq t s, str_eq_self s, str_eq_self t)

eqb_ℤ_comm : (a b : ℤ) → eqb_ℤ a b ≡ eqb_ℤ b a
eqb_ℤ_comm a b = ground (arith, eqb_ℤ_iff a b, eqb_ℤ_iff b a)

same_round_comm : (i j : InterviewRound) → same_round i j ≡ false → same_round j i ≡ false
same_round_comm i j h =
    ground (
      arith,
      str_eq_comm i.application_id j.application_id,
      eqb_ℤ_comm i.round_number j.round_number,
    )

pub has_clash-Apart :
    (a : InterviewRound) (rows : List InterviewRound)
    → has_clash interviews a rows ≡ false
    → All (Apart a) rows
unfolding has_clash
has_clash-Apart a [] h = tt
has_clash-Apart a (x ∷ rest) h =
    ((ground arith, ground arith), has_clash-Apart a rest (ground arith))

-- The rows of other identifiers that a new version of a row does not clash with.
abbrev pub Clear : String → InterviewRound → InterviewRound → Type 0
Clear id new y = str_eq y.id id ≡ false → same_round new y ≡ false

pub clash_elsewhere-Clear :
    (a : InterviewRound) (rows : List InterviewRound)
    → clash_elsewhere interviews a rows ≡ false
    → All (Clear a.id a) rows
unfolding clash_elsewhere
clash_elsewhere-Clear a [] h = tt
clash_elsewhere-Clear a (x ∷ rest) h =
    ((λ ne. ground arith), clash_elsewhere-Clear a rest (ground arith))

module _ (f : InterviewRound → InterviewRound) (user id : String) {cur : InterviewRound}
    (same_id : (f cur).id ≡ cur.id) (id_of : cur.id ≡ id) where
  replaced-Apart :
      (rest : List InterviewRound)
      → All (Apart cur) rest
      → All (Clear id (f cur)) rest
      → All (Apart (f cur)) rest
  replaced-Apart [] h c = tt
  replaced-Apart (y ∷ rest) h c =
      let other : str_eq y.id (f cur).id ≡ false =
        subst (λ s. str_eq y.id s ≡ false) (sym same_id) h.0.0 in
      ((other, c.0 (subst (λ s. str_eq y.id s ≡ false) id_of h.0.0)), replaced-Apart rest h.1 c.1)

  pub Distinct-replace_row :
      (rows : List InterviewRound)
      → find_child interviews user id rows ≡ some cur
      → All (Clear id (f cur)) rows
      → Distinct rows
      → Distinct (replace_row interviews f user id rows)
  unfolding find_child replace_row
  Distinct-replace_row [] e c h = tt
  Distinct-replace_row (x ∷ rest) e c h = elim (Bool-cases (is_live_child interviews user id x)) [
    | inl p ↦
        let same : x ≡ cur = ground arith in
        rw p (
          subst (λ y. All (Apart (f y)) rest) (sym same)
              (replaced-Apart rest (subst (λ y. All (Apart y) rest) same h.0) c.1),
          h.1,
        )
    | inr p ↦
        let later : find_child interviews user id rest ≡ some cur = ground arith in
        rw p (
          All-replace_row interviews (Apart x) f user id rest later
              (λ q. (
                subst (λ s. str_eq s x.id ≡ false) (sym same_id) q.0,
                same_round_comm (f cur) x (
                    c.0 (
                      subst (λ s. str_eq x.id s ≡ false) id_of
                        (sym (str_eq_comm cur.id x.id) ∙ q.0))),
              ))
              h.0,
          Distinct-replace_row rest later c.1 h.1,
        )
  ]

pub Distinct-delete_children :
    (user app : String) (device : Option String) (now : ℕ) (rows : List InterviewRound)
    → Distinct rows
    → Distinct
        (delete_children (λ (i : InterviewRound). i.base) with_interview user app device now rows).0
unfolding delete_children
Distinct-delete_children user app device now [] h = tt
Distinct-delete_children user app device now (i ∷ rest) h =
    let after = Distinct-delete_children user app device now rest h.1 in
    let apart =
      All-delete_children (λ (j : InterviewRound). j.base) with_interview (Apart i) user app device
        now (λ j q. (q.0, ground arith)) rest h.0 in
    elim (Bool-cases (is_child user app i.base)) [
      | inl e ↦ rw e (All-imp (λ j q. (q.0, ground arith)) _ apart, after)
      | inr e ↦ rw e (apart, after)
    ]
