-- ===== src/Sync/Pull/Pages.antt =====
-- The pages of the feed (internal/modules/sync/pull.go) over the rows of `sync_changes`.
use cv_agent.Base.{
  ℕ, zero, suc, ◌+◌, ◌<◌, ◌≤◌, ◌≡◌, refl, subst, sym, ap, ◌∙◌, ◌⊎◌, inl, inr, Bool-cases, String,
  true, false, List, [], ◌∷◌, ◌++◌, length, length-append, length-take, take, ltb, arith,
  if◌then◌else◌,
}
use cv_agent.Sync.Changes.{ChangeRow, select_after, list_after}
use cv_agent.Sync.Pull.{last_sequence, page_after}
use cv_agent.Sync.Pull.Select.{
  AreAscending, AreAfter, AreAfter-take, AreAfter-select, last-after, splits,
}

module _ {A : Type 0} where
  take-take : (n : ℕ) (xs : List A) → take n (take (suc n) xs) ≡ take n xs
  take-take zero xs = refl
  take-take (suc n) [] = refl
  take-take (suc n) (x ∷ xs) = ap (λ y. x ∷ y) (take-take n xs)

  take-all : (n : ℕ) (xs : List A) → ltb n (length (take (suc n) xs)) ≡ false → take n xs ≡ xs
  take-all zero [] h = refl
  take-all zero (x ∷ xs) h = ground arith
  take-all (suc n) [] h = refl
  take-all (suc n) (x ∷ xs) h = ap (λ y. x ∷ y) (take-all n xs (ground arith))

  take-full :
      (n : ℕ) (xs : List A) → ltb n (length (take (suc n) xs)) ≡ true → length (take n xs) ≡ n
  take-full zero xs h = refl
  take-full (suc n) [] h = ground arith
  take-full (suc n) (x ∷ xs) h = ap suc (take-full n xs (ground arith))

  append_self : (xs ys : List A) → xs ++ ys ≡ xs → ys ≡ []
  append_self xs [] h = refl
  append_self xs (y ∷ ys) h = absurd (omega (arith, length-append xs (y ∷ ys), ap length h))

after-last : (q : ℕ) (rs : List ChangeRow) → AreAfter q rs → 0 < length rs → q < last_sequence q rs
after-last q [] h pos = absurd (omega arith)
after-last q (r ∷ rs) (h, k) pos = last-after q r.sequence rs h k

plus_one : (n : ℕ) → n + 1 ≡ suc n
plus_one n = omega arith

module _ (user : String) (position limit : ℕ) (rows : List ChangeRow) where
  abbrev rest : List ChangeRow
  rest = select_after user position rows

  pub page_keys : (page_after user position limit rows).keys ≡ take limit rest
  unfolding page_after list_after
  page_keys = ap (λ n. take limit (take n rest)) (plus_one limit) ∙ take-take limit rest

  page_next :
      (page_after user position limit rows).next_position ≡ last_sequence position (take limit rest)
  unfolding page_after
  page_next = ap (last_sequence position) page_keys

  page_more :
      (page_after user position limit rows).has_more ≡ ltb limit (length (take (suc limit) rest))
  unfolding page_after list_after
  page_more = ap (λ n. ltb limit (length (take n rest))) (plus_one limit)

  pub page_splits :
      AreAscending rows
      → (page_after user position limit rows).keys
          ++ select_after user (page_after user position limit rows).next_position rows
        ≡ select_after user position rows
  page_splits asc =
      ap (λ k. k ++ select_after user (page_after user position limit rows).next_position rows)
        page_keys
      ∙ ap (λ n. take limit rest ++ select_after user n rows) page_next
      ∙ splits user position limit rows asc

  -- Over rows in ascending order, and with a positive limit: a page and what its next position
  -- selects are what its own position selects, so nothing is skipped and nothing is repeated; and
  -- the page says that more follow and moves the position on, or nothing follows.
  pub page_continues :
      AreAscending rows
      → 0 < limit
      → let s = page_after user position limit rows in
        (s.keys ++ select_after user s.next_position rows ≡ select_after user position rows)
        × (((s.has_more ≡ true) × (position < s.next_position))
            ⊎ ((s.has_more ≡ false) × (select_after user s.next_position rows ≡ [])))
  page_continues asc positive = (
    page_splits asc,
    elim (Bool-cases (ltb limit (length (take (suc limit) rest)))) [
      | inl more ↦ inl (
        page_more ∙ more,
        subst (λ n. position < n) (sym page_next)
            (after-last position (take limit rest)
              (AreAfter-take position limit rest (AreAfter-select user position rows))
              (omega (arith, take-full limit rest more))),
      )
      | inr last ↦ inr (
        page_more ∙ last,
        append_self rest _ (
            ap
              (λ k. k ++ select_after user (page_after user position limit rows).next_position rows)
              (sym (page_keys ∙ take-all limit rest last))
            ∙ page_splits asc),
      )
    ],
  )

-- The rows of the pages that are followed, for at most so many of them, before `collapse`.
unfoldable pub drain_keys : ℕ → String → ℕ → ℕ → List ChangeRow → List ChangeRow
drain_keys zero user position limit rows = []
drain_keys (suc n) user position limit rows =
    let s = page_after user position limit rows in
    let later = drain_keys n user s.next_position limit rows in
    s.keys ++ (if s.has_more then later else [])

shorter :
    (user : String) (position limit : ℕ) (rows : List ChangeRow) (n : ℕ)
    → AreAscending rows
    → 0 < limit
    → (page_after user position limit rows).has_more ≡ true
    → length (select_after user position rows) ≤ suc n
    → length (select_after user (page_after user position limit rows).next_position rows) ≤ n
shorter user position limit rows n asc positive more le = omega (
  arith,
  length-append (page_after user position limit rows).keys
      (select_after user (page_after user position limit rows).next_position rows),
  ap length (page_splits user position limit rows asc),
  ap length (page_keys user position limit rows),
  take-full limit (select_after user position rows)
      (sym (page_more user position limit rows) ∙ more),
)

never_more :
    (user : String) (position limit : ℕ) (rows : List ChangeRow)
    → 0 < limit
    → (page_after user position limit rows).has_more ≡ true
    → length (select_after user position rows) ≤ 0
    → ⊥
never_more user position limit rows positive more le = omega (
  arith,
  length-take limit (select_after user position rows),
  take-full limit (select_after user position rows)
      (sym (page_more user position limit rows) ∙ more),
)

-- The rows of the pages from a position, of one page more than there are rows after it, are those
-- rows.
pub drain_keys-all :
    (n : ℕ) (user : String) (position limit : ℕ) (rows : List ChangeRow)
    → AreAscending rows
    → 0 < limit
    → length (select_after user position rows) ≤ n
    → drain_keys (suc n) user position limit rows ≡ select_after user position rows
unfolding drain_keys
drain_keys-all zero user position limit rows asc positive le =
    let s = page_after user position limit rows in
    let (split, end) = page_continues user position limit rows asc positive in
    elim end [
      | inr (last, none_left) ↦ rw last (ap (λ x. s.keys ++ x) (sym none_left) ∙ split)
      | inl (more, on) ↦ absurd (never_more user position limit rows positive more le)
    ]
drain_keys-all (suc m) user position limit rows asc positive le =
    let s = page_after user position limit rows in
    let (split, end) = page_continues user position limit rows asc positive in
    elim end [
      | inr (last, none_left) ↦ rw last (ap (λ x. s.keys ++ x) (sym none_left) ∙ split)
      | inl (more, on) ↦ rw more (
          ap (λ x. s.keys ++ x)
            (drain_keys-all m user s.next_position limit rows asc positive
              (shorter user position limit rows m asc positive more le))
          ∙ split)
    ]
