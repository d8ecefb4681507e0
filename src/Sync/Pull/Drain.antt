-- ===== src/Sync/Pull/Drain.antt =====
-- What a device that follows the pages learns (internal/modules/sync/pull.go): a page holds the last
-- change of each entity among its rows.
use cv_agent.Base.{
  ℕ, zero, suc, ◌<◌, ◌≤◌, ◌≡◌, refl, sym, ap, ◌∙◌, subst, inl, inr, Bool-cases, String, Bool, true,
  false, ◌&&◌, Option, none, some, List, [], ◌∷◌, ◌++◌, length, take, ltb, str_eq, str_eq→eq, All,
  arith, if◌then◌else◌,
}
use cv_agent.Sync.Types.{EntityType}
use cv_agent.Sync.Changes.{ChangeRow, select_after}
use cv_agent.Sync.Pull.{
  same_key, has_key, latest, insert_by_sequence, sort_by_sequence, collapse, page_after,
}
use cv_agent.Sync.Pull.Select.{AreAscending}
use cv_agent.Sync.Pull.Pages.{drain_keys, drain_keys-all, page_keys}

-- The second if there is one, or else the first.
abbrev pub newer : Option ChangeRow → Option ChangeRow → Option ChangeRow
newer old none = old
newer old (some r) = some r

-- The last row of an entity.
unfoldable pub last_row : EntityType → String → List ChangeRow → Option ChangeRow
last_row e id [] = none
last_row e id (r ∷ rs) = newer (if same_key e id r then some r else none) (last_row e id rs)

module _ (e : EntityType) (id : String) where
  newer_assoc : (a b c : Option ChangeRow) → newer (newer a b) c ≡ newer a (newer b c)
  newer_assoc a b none = refl
  newer_assoc a b (some r) = refl

  last_row-append :
      (xs ys : List ChangeRow)
      → last_row e id (xs ++ ys) ≡ newer (last_row e id xs) (last_row e id ys)
  unfolding last_row
  last_row-append [] ys = ground arith
  last_row-append (x ∷ xs) ys =
      rw (last_row-append xs ys) (sym (newer_assoc _ (last_row e id xs) (last_row e id ys)))

  newer-none : (o : Option ChangeRow) → newer none o ≡ o
  newer-none none = refl
  newer-none (some r) = refl

  newer-some :
      (old o : Option ChangeRow) (r : ChangeRow) → newer old (newer (some r) o) ≡ newer (some r) o
  newer-some old none r = refl
  newer-some old (some x) r = refl

  -- Nothing is newer than the last row, if there is one.
  newer-last_row :
      (rs : List ChangeRow) (old : Option ChangeRow)
      → has_key e id rs ≡ true
      → newer old (last_row e id rs) ≡ last_row e id rs
  unfolding has_key last_row
  newer-last_row [] old h = cc
  newer-last_row (r ∷ rs) old h = elim (Bool-cases (has_key e id rs)) [
    | inl p ↦
        let later : (o : Option ChangeRow) → newer o (last_row e id rs) ≡ last_row e id rs =
          λ o. newer-last_row rs o p in
        rw (later (if same_key e id r then some r else none)) (later old)
    | inr p ↦
        let same : same_key e id r ≡ true = ground arith in
        rw same (newer-some old (last_row e id rs) r)
  ]

  last_row-latest : (rs : List ChangeRow) → last_row e id (latest rs) ≡ last_row e id rs
  unfolding latest last_row
  last_row-latest [] = refl
  last_row-latest (r ∷ rs) = elim (Bool-cases (has_key r.entity_type r.entity_id rs)) [
    | inl p ↦ rw p (
        last_row-latest rs
        ∙ sym (elim (Bool-cases (same_key e id r)) [
          | inl q ↦ rw q (newer-last_row rs (some r) (there q p))
          | inr q ↦ rw q (newer-none (last_row e id rs))
        ]))
    | inr p ↦ rw p (ap (newer (if same_key e id r then some r else none)) (last_row-latest rs))
  ]
    where
      there :
          same_key e id r ≡ true
          → has_key r.entity_type r.entity_id rs ≡ true
          → has_key e id rs ≡ true
      there q p =
          let (t, i) = parts (str_eq r.entity_type e) (str_eq r.entity_id id) q in
          ap (λ x. has_key x id rs) (sym (str_eq→eq r.entity_type e t))
          ∙ ap (λ x. has_key r.entity_type x rs) (sym (str_eq→eq r.entity_id id i))
          ∙ p
        where
          parts : (a b : Bool) → (a && b) ≡ true → (a ≡ true) × (b ≡ true)
          parts a b h = ground arith

-- A list of rows in order stays so without some of them.
AllLater-latest :
    (n : ℕ) (rs : List ChangeRow)
    → All (λ s. n < s.sequence) rs
    → All (λ s. n < s.sequence) (latest rs)
unfolding latest
AllLater-latest n [] h = tt
AllLater-latest n (r ∷ rs) h = elim (Bool-cases (has_key r.entity_type r.entity_id rs)) [
  | inl p ↦ rw p (AllLater-latest n rs h.1)
  | inr p ↦ rw p (h.0, AllLater-latest n rs h.1)
]

latest-AreAscending : (rs : List ChangeRow) → AreAscending rs → AreAscending (latest rs)
unfolding latest
latest-AreAscending [] h = tt
latest-AreAscending (r ∷ rs) h = elim (Bool-cases (has_key r.entity_type r.entity_id rs)) [
  | inl p ↦ rw p (latest-AreAscending rs h.1)
  | inr p ↦ rw p (AllLater-latest r.sequence rs h.0, latest-AreAscending rs h.1)
]

-- Sorting leaves a list in order as it is.
insert_before :
    (r : ChangeRow) (rs : List ChangeRow)
    → All (λ s. r.sequence < s.sequence) rs
    → insert_by_sequence r rs ≡ r ∷ rs
unfolding insert_by_sequence
insert_before r [] h = refl
insert_before r (s ∷ rs) h = ground arith

sort_ascending : (rs : List ChangeRow) → AreAscending rs → sort_by_sequence rs ≡ rs
unfolding sort_by_sequence
sort_ascending [] h = refl
sort_ascending (r ∷ rs) h = rw (sort_ascending rs h.1) (insert_before r rs h.0)

-- `collapse` keeps the last row of every entity.
last_row-collapse :
    (e : EntityType) (id : String) (rs : List ChangeRow)
    → AreAscending rs
    → last_row e id (collapse rs) ≡ last_row e id rs
unfolding collapse
last_row-collapse e id rs h =
    ap (last_row e id) (sort_ascending (latest rs) (latest-AreAscending rs h))
    ∙ last_row-latest e id rs

AllLater-take :
    (q n : ℕ) (rs : List ChangeRow)
    → All (λ s. q < s.sequence) rs
    → All (λ s. q < s.sequence) (take n rs)
AllLater-take q zero rs h = tt
AllLater-take q (suc n) [] h = tt
AllLater-take q (suc n) (r ∷ rs) h = (h.0, AllLater-take q n rs h.1)

take-AreAscending : (n : ℕ) (rs : List ChangeRow) → AreAscending rs → AreAscending (take n rs)
take-AreAscending zero rs h = tt
take-AreAscending (suc n) [] h = tt
take-AreAscending (suc n) (r ∷ rs) h =
    (AllLater-take r.sequence n rs h.0, take-AreAscending n rs h.1)

module _ (user : String) (position : ℕ) where
  AllLater-select :
      (q : ℕ) (rs : List ChangeRow)
      → All (λ s. q < s.sequence) rs
      → All (λ s. q < s.sequence) (select_after user position rs)
  unfolding select_after
  AllLater-select q [] h = tt
  AllLater-select q (r ∷ rs) h =
      elim (Bool-cases (str_eq r.user_id user && ltb position r.sequence)) [
        | inl p ↦ rw p (h.0, AllLater-select q rs h.1)
        | inr p ↦ rw p (AllLater-select q rs h.1)
      ]

  select-AreAscending :
      (rs : List ChangeRow) → AreAscending rs → AreAscending (select_after user position rs)
  unfolding select_after
  select-AreAscending [] h = tt
  select-AreAscending (r ∷ rs) h =
      elim (Bool-cases (str_eq r.user_id user && ltb position r.sequence)) [
        | inl p ↦ rw p (AllLater-select r.sequence rs h.0, select-AreAscending rs h.1)
        | inr p ↦ rw p (select-AreAscending rs h.1)
      ]

-- The rows that `Pull` hydrates for a device that follows the pages, for at most so many of them.
unfoldable pub drain : ℕ → String → ℕ → ℕ → List ChangeRow → List ChangeRow
drain zero user position limit rows = []
drain (suc n) user position limit rows =
    let s = page_after user position limit rows in
    let later = drain n user s.next_position limit rows in
    collapse s.keys ++ (if s.has_more then later else [])

module _ (e : EntityType) (id : String) where
  last_row-drain :
      (n : ℕ) (user : String) (position limit : ℕ) (rows : List ChangeRow)
      → AreAscending rows
      → last_row e id (drain n user position limit rows)
        ≡ last_row e id (drain_keys n user position limit rows)
  unfolding drain drain_keys
  last_row-drain zero user position limit rows asc = refl
  last_row-drain (suc n) user position limit rows asc =
      let s = page_after user position limit rows in
      let ordered : AreAscending s.keys =
        subst AreAscending (sym (page_keys user position limit rows)) (
          take-AreAscending limit (select_after user position rows)
            (select-AreAscending user position rows asc)) in
      let later = drain n user s.next_position limit rows in
      let plain = drain_keys n user s.next_position limit rows in
      last_row-append e id (collapse s.keys) (if s.has_more then later else [])
      ∙ ap (λ x. newer x (last_row e id (if s.has_more then later else [])))
          (last_row-collapse e id s.keys ordered)
      ∙ ap (newer (last_row e id s.keys))
          (alike s.has_more later plain (last_row-drain n user s.next_position limit rows asc))
      ∙ sym (last_row-append e id s.keys (if s.has_more then plain else []))
    where
      alike :
          (more : Bool) (xs ys : List ChangeRow)
          → last_row e id xs ≡ last_row e id ys
          → last_row e id (if more then xs else []) ≡ last_row e id (if more then ys else [])
      alike true xs ys h = h
      alike false xs ys h = refl

  -- Over rows in ascending order, and with a positive limit: among the rows that are hydrated for a
  -- device that follows the pages from a position, for one page more than there are rows after it,
  -- the last row of any entity is its last row after the position, and there is none if there is none
  -- there, although a page leaves out all but the last row of an entity.
  pub drain-last_row :
      (n : ℕ) (user : String) (position limit : ℕ) (rows : List ChangeRow)
      → AreAscending rows
      → 0 < limit
      → length (select_after user position rows) ≤ n
      → last_row e id (drain (suc n) user position limit rows)
        ≡ last_row e id (select_after user position rows)
  drain-last_row n user position limit rows asc positive le =
      last_row-drain (suc n) user position limit rows asc
      ∙ ap (last_row e id) (drain_keys-all n user position limit rows asc positive le)
