-- ===== src/Identity/Sessions/Rows.antt =====
-- The rows of `auth_sessions` and what the book reads from them.
use cv_agent.Base.{
  ℕ, String, ◌≡◌, refl, sym, ◌∙◌, ap, subst, Bool, true, false, ◌&&◌, ◌||◌, Bool-cases, inl, inr,
  Option, none, some, List, [], ◌∷◌, str_eq, str_eq→eq, arith, if◌then◌else◌,
}
use mathlib.Core.Option.{some-injective}
use cv_agent.Identity.Domain.{Session, is_none}
use cv_agent.Identity.Store.{AuthStore}
use cv_agent.Identity.Sessions.{has_session, is_live_row, find_live_session, update_sessions}
use cv_agent.Identity.Sessions.Book.{find_hash, has_hash, NoTwin}

-- What an UPDATE makes of one row.
abbrev pub update_row : (Session → Bool) → (Session → Session) → Session → Session
update_row test f r = if is_none r.revoked_at && test r then f r else r

abbrev pub map_row : (Session → Session) → Option Session → Option Session
map_row f none = none
map_row f (some r) = some (f r)

module _ (test : Session → Bool) (f : Session → Session)
    (same : (r : Session) → (f r).token_hash ≡ r.token_hash) where
  pub update_hash : (r : Session) → (update_row test f r).token_hash ≡ r.token_hash
  update_hash r = elim (Bool-cases (is_none r.revoked_at && test r)) [
    | inl p ↦ rw p (same r)
    | inr p ↦ rw p refl
  ]

  update_head :
      (r : Session) (rs : List Session)
      → (update_sessions test f (r ∷ rs)).0 ≡ update_row test f r ∷ (update_sessions test f rs).0
  unfolding update_sessions
  update_head r rs = elim (Bool-cases (is_none r.revoked_at && test r)) [
    | inl p ↦ rw p refl
    | inr p ↦ rw p refl
  ]

  pub find_hash-update :
      (h : String) (rows : List Session)
      → find_hash h (update_sessions test f rows).0 ≡ map_row (update_row test f) (find_hash h rows)
  unfolding find_hash update_sessions
  find_hash-update h [] = refl
  find_hash-update h (r ∷ rs) = ap (find_hash h) (update_head r rs) ∙ rest (find_hash-update h rs)
    where
      rest :
          find_hash h (update_sessions test f rs).0 ≡ map_row (update_row test f) (find_hash h rs)
          → find_hash h (update_row test f r ∷ (update_sessions test f rs).0)
            ≡ map_row (update_row test f) (find_hash h (r ∷ rs))
      rest e = elim (Bool-cases (str_eq r.token_hash h)) [
        | inl p ↦ rw (update_hash r, p) refl
        | inr p ↦ rw (update_hash r, p) e
      ]

  has_hash-update :
      (h : String) (rows : List Session)
      → has_hash h (update_sessions test f rows).0 ≡ has_hash h rows
  unfolding has_hash update_sessions
  has_hash-update h [] = refl
  has_hash-update h (r ∷ rs) = ap (has_hash h) (update_head r rs) ∙ rest (has_hash-update h rs)
    where
      rest :
          has_hash h (update_sessions test f rs).0 ≡ has_hash h rs
          → has_hash h (update_row test f r ∷ (update_sessions test f rs).0) ≡ has_hash h (r ∷ rs)
      rest e = elim (Bool-cases (str_eq r.token_hash h)) [
        | inl p ↦ rw (update_hash r, p) refl
        | inr p ↦ rw (update_hash r, p) e
      ]

  pub NoTwin-update : (rows : List Session) → NoTwin rows → NoTwin (update_sessions test f rows).0
  unfolding NoTwin update_sessions
  NoTwin-update [] k = tt
  NoTwin-update (r ∷ rs) (apart, k) = subst NoTwin (sym (update_head r rs)) (
    ap (λ h. has_hash h (update_sessions test f rs).0) (update_hash r)
        ∙ has_hash-update r.token_hash rs
        ∙ apart,
    NoTwin-update rs k,
  )

-- A hash that no row has stands for nothing.
pub unused_hash :
    (h : String) (rows : List Session) → has_hash h rows ≡ false → find_hash h rows ≡ none
unfolding has_hash find_hash
unused_hash h [] k = refl
unused_hash h (r ∷ rs) k =
    by_cases (str_eq r.token_hash h) (has_hash h rs) (find_hash h rs) r k (unused_hash h rs)
  where
    by_cases :
        (b c : Bool) (o : Option Session) (r : Session)
        → (if b then true else c) ≡ false
        → (c ≡ false → o ≡ none)
        → (if b then some r else o) ≡ none
    by_cases true c o r k rest = cc
    by_cases false c o r k rest = rest k

pub free_hash :
    (x : Session) (rows : List Session)
    → has_session x rows ≡ false
    → has_hash x.token_hash rows ≡ false
unfolding has_hash has_session
free_hash x [] k = refl
free_hash x (r ∷ rs) k =
    by_cases (str_eq r.id x.id) (str_eq r.token_hash x.token_hash) (has_session x rs)
      (has_hash x.token_hash rs) k (free_hash x rs)
  where
    by_cases :
        (a b c d : Bool)
        → (a || b || c) ≡ false
        → (c ≡ false → d ≡ false)
        → (if b then true else d) ≡ false
    by_cases true b c d k rest = cc
    by_cases false true c d k rest = cc
    by_cases false false c d k rest = rest k

module _ (h : String) (now : ℕ) (s : AuthStore) where
  -- What is found is a live row, and of the hash.
  pub found_live :
      (rows : List Session) (r : Session)
      → find_live_session h now s rows ≡ some r
      → (is_live_row h now s r ≡ true) × (has_hash h rows ≡ true)
  unfolding find_live_session has_hash
  found_live [] r k = cc
  found_live (q ∷ rs) r k = elim (Bool-cases (is_live_row h now s q)) [
    | inl p ↦ ground arith
    | inr p ↦ ground (arith, found_live rs r)
  ]

  live_hash : (r : Session) → is_live_row h now s r ≡ true → str_eq r.token_hash h ≡ true
  live_hash r e = head (str_eq r.token_hash h) _ _ _ _ e
    where
      head : (a b c d f : Bool) → (a && b && c && d && f) ≡ true → a ≡ true
      head true b c d f e = refl
      head false b c d f e = cc

  -- One row has a hash, so the first one that has it is the one that is found.
  pub first_live :
      (rows : List Session) (r : Session)
      → NoTwin rows
      → find_live_session h now s rows ≡ some r
      → find_hash h rows ≡ some r
  unfolding find_live_session find_hash NoTwin
  first_live [] r k e = cc
  first_live (q ∷ rs) r (apart, k) e = elim (Bool-cases (is_live_row h now s q)) [
    | inl p ↦
        let same : q ≡ r = some-injective _ _ (sym (rw p refl) ∙ e) in
        rw (live_hash q p) (ap some same)
    | inr p ↦
        let later : find_live_session h now s rs ≡ some r = sym (rw p refl) ∙ e in
        elim (Bool-cases (str_eq q.token_hash h)) [
          | inl twin ↦
              let there = (found_live rs r later).1 in
              absurd (
                true-false (
                  sym there
                  ∙ ap (λ x. has_hash x rs) (sym (str_eq→eq q.token_hash h twin))
                  ∙ apart))
          | inr other ↦ rw other (first_live rs r k later)
        ]
  ]
    where
      true-false : true ≡ false → ⊥
      true-false e = cc
