-- ===== src/Sync/Pull/Select.antt =====
-- The rows of `sync_changes` after a position (internal/modules/sync/postgres/change_repository.go).
use cv_agent.Base.{
  ℕ, zero, suc, ◌<◌, ◌≤◌, ◌≡◌, refl, subst, sym, ap, ◌∙◌, inl, inr, Bool-cases, lt→ltb, String,
  true, false, ◌&&◌, List, [], ◌∷◌, ◌++◌, take, ltb, str_eq, All, arith,
}
use cv_agent.Sync.Changes.{ChangeRow, select_after}
use cv_agent.Sync.Pull.{last_sequence}

-- The rows stand in the order of their sequence numbers, which are distinct.
abbrev pub AreAscending : List ChangeRow → Type 0
AreAscending [] = Unit {0}
AreAscending (r ∷ rs) = All (λ s. r.sequence < s.sequence) rs × AreAscending rs

-- Every row is after a position.
abbrev pub AreAfter : ℕ → List ChangeRow → Type 0
AreAfter q rs = All (λ s. q < s.sequence) rs

pub AreAfter-take : (q n : ℕ) (rs : List ChangeRow) → AreAfter q rs → AreAfter q (take n rs)
AreAfter-take q zero rs h = tt
AreAfter-take q (suc n) [] h = tt
AreAfter-take q (suc n) (r ∷ rs) (h, k) = (h, AreAfter-take q n rs k)

pub AreAfter-select :
    (user : String) (q : ℕ) (rs : List ChangeRow) → AreAfter q (select_after user q rs)
unfolding select_after
AreAfter-select user q [] = tt
AreAfter-select user q (r ∷ rs) = elim (Bool-cases (str_eq r.user_id user && ltb q r.sequence)) [
  | inl p ↦ rw p (ground arith, AreAfter-select user q rs)
  | inr p ↦ rw p (AreAfter-select user q rs)
]

pub last-after : (q p : ℕ) (rs : List ChangeRow) → q < p → AreAfter q rs → q < last_sequence p rs
last-after q p [] lt h = lt
last-after q p (r ∷ rs) lt (h, k) = last-after q r.sequence rs h k

last-at_least : (q : ℕ) (rs : List ChangeRow) → AreAfter q rs → q ≤ last_sequence q rs
last-at_least q [] h = omega arith
last-at_least q (r ∷ rs) (h, k) = omega (arith, last-after q r.sequence rs h k)

-- Rows that are after both positions are selected alike.
select-alike :
    (user : String) (p q : ℕ) (rs : List ChangeRow)
    → AreAfter p rs
    → AreAfter q rs
    → select_after user p rs ≡ select_after user q rs
unfolding select_after
select-alike user p q [] h k = refl
select-alike user p q (r ∷ rs) (h, hs) (k, ks) =
    rw (lt→ltb p r.sequence h, lt→ltb q r.sequence k, select-alike user p q rs hs ks)

AreAfter-trans : (p q : ℕ) (rs : List ChangeRow) → p ≤ q → AreAfter q rs → AreAfter p rs
AreAfter-trans p q [] le h = tt
AreAfter-trans p q (r ∷ rs) le (h, k) = (omega arith, AreAfter-trans p q rs le k)

-- The position after the first `n` of the rows after `q`.
abbrev pub last_of : String → ℕ → ℕ → List ChangeRow → ℕ
last_of user q n rs = last_sequence q (take n (select_after user q rs))

last_of-at_least : (user : String) (q n : ℕ) (rs : List ChangeRow) → q ≤ last_of user q n rs
last_of-at_least user q n rs =
    last-at_least q (take n (select_after user q rs))
      (AreAfter-take q n (select_after user q rs) (AreAfter-select user q rs))

module _ (user : String) (r : ChangeRow) (rs : List ChangeRow) where
  select-hit :
      (q : ℕ)
      → (str_eq r.user_id user && ltb q r.sequence) ≡ true
      → select_after user q (r ∷ rs) ≡ r ∷ select_after user q rs
  unfolding select_after
  select-hit q h = rw h

  select-miss :
      (q : ℕ)
      → (str_eq r.user_id user && ltb q r.sequence) ≡ false
      → select_after user q (r ∷ rs) ≡ select_after user q rs
  unfolding select_after
  select-miss q h = rw h

  select-past : (q : ℕ) → r.sequence ≤ q → select_after user q (r ∷ rs) ≡ select_after user q rs
  select-past q le = select-miss q (ground arith)

  select-later :
      (q l : ℕ)
      → (str_eq r.user_id user && ltb q r.sequence) ≡ false
      → q ≤ l
      → select_after user l (r ∷ rs) ≡ select_after user l rs
  select-later q l h le = select-miss l (ground arith)

  hit-before : (q : ℕ) → (str_eq r.user_id user && ltb q r.sequence) ≡ true → q ≤ r.sequence
  hit-before q h = ground arith

-- What comes after the last of the first `n` is the rest.
pub splits :
    (user : String) (q n : ℕ) (rs : List ChangeRow)
    → AreAscending rs
    → take n (select_after user q rs) ++ select_after user (last_of user q n rs) rs
      ≡ select_after user q rs
splits user q zero rs h = refl
splits user q (suc n) [] h = unfold select_after in refl
splits user q (suc n) (r ∷ rs) (h, hs) =
    elim (Bool-cases (str_eq r.user_id user && ltb q r.sequence)) [
      | inl p ↦
          let s = select_after user r.sequence rs in
          let e : select_after user q (r ∷ rs) ≡ r ∷ s =
            select-hit user r rs q p
            ∙ ap (λ x. r ∷ x)
                (select-alike user q r.sequence rs
                  (AreAfter-trans q r.sequence rs (hit-before user r rs q p) h) h) in
          subst
            (λ x.
              take (suc n) x ++ select_after user (last_sequence q (take (suc n) x)) (r ∷ rs) ≡ x)
            (sym e)
            (ap (λ x. r ∷ x)
              (ap (λ x. take n s ++ x)
                  (select-past user r rs (last_of user r.sequence n rs)
                    (last_of-at_least user r.sequence n rs))
                ∙ splits user r.sequence n rs hs))
      | inr p ↦
          let s = select_after user q rs in
          let e : select_after user q (r ∷ rs) ≡ s = select-miss user r rs q p in
          subst
            (λ x.
              take (suc n) x ++ select_after user (last_sequence q (take (suc n) x)) (r ∷ rs) ≡ x)
            (sym e)
            (ap (λ x. take (suc n) s ++ x)
                (select-later user r rs q (last_of user q (suc n) rs) p
                  (last_of-at_least user q (suc n) rs))
              ∙ splits user q (suc n) rs hs)
    ]
