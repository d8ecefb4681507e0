-- ===== src/Identity/Sessions/Moves.antt =====
-- What the statements of internal/modules/identity/postgres/session_repo.go make of the book.
use cv_agent.Base.{
  ℕ, zero, suc, String, ◌≡◌, refl, sym, ◌∙◌, ap, subst, Bool, true, false, ◌&&◌, ltb, Bool-cases,
  inl, inr, Option, none, some, List, [], ◌∷◌, str_eq, str_eq→eq, arith, if◌then◌else◌,
}
use cv_agent.Identity.Domain.{Session, is_none}
use cv_agent.Identity.Store.{AuthStore}
use cv_agent.Identity.Sessions.{
  update_sessions, revoke_at, touched, touch_at, is_positive, token_revoked, device_revoked,
  owns_device,
}
use cv_agent.Identity.Sessions.Book.{
  granted, find_hash, ticket_of, book, has_hash, NoTwin, withdrawn, withdrawn_from,
}
use cv_agent.Identity.Sessions.Rows.{update_row, map_row, find_hash-update, NoTwin-update}

pub find_hash-eq :
    (h : String) (rows : List Session) (r : Session)
    → find_hash h rows ≡ some r
    → str_eq r.token_hash h ≡ true
unfolding find_hash
find_hash-eq h [] r e = cc
find_hash-eq h (q ∷ rs) r e = elim (Bool-cases (str_eq q.token_hash h)) [
  | inl p ↦ ground arith
  | inr p ↦ find_hash-eq h rs r (sym (rw p refl) ∙ e)
]

-- Revoking what a test holds of, on the ticket of a row.
revoked_ticket :
    (test : Session → Bool) (now : ℕ) (o : Option Session)
    → ((r : Session) → o ≡ some r → test r ≡ true)
    → ticket_of (map_row (update_row test (revoke_at now)) o) ≡ withdrawn (ticket_of o)
unfolding ticket_of withdrawn
revoked_ticket test now none k = refl
revoked_ticket test now (some r) k = elim (Bool-cases (is_none r.revoked_at)) [
  | inl p ↦ rw (p, k r refl) refl
  | inr p ↦ rw p (rw p refl)
]

kept_ticket :
    (test : Session → Bool) (now : ℕ) (o : Option Session)
    → ((r : Session) → o ≡ some r → test r ≡ false)
    → ticket_of (map_row (update_row test (revoke_at now)) o) ≡ ticket_of o
unfolding ticket_of
kept_ticket test now none k = refl
kept_ticket test now (some r) k = elim (Bool-cases (is_none r.revoked_at)) [
  | inl p ↦ rw (p, k r refl) (rw p refl)
  | inr p ↦ rw p (rw p refl)
]

device_ticket :
    (user device : String) (now : ℕ) (o : Option Session)
    → ticket_of (
        map_row
          (update_row (λ r. str_eq r.user_id user && str_eq r.device_id device) (revoke_at now))
          o)
      ≡ withdrawn_from user device (ticket_of o)
unfolding ticket_of withdrawn_from
device_ticket user device now none = refl
device_ticket user device now (some r) = elim (Bool-cases (is_none r.revoked_at)) [
  | inl p ↦ elim (Bool-cases (str_eq r.user_id user && str_eq r.device_id device)) [
    | inl q ↦ rw (p, q) refl
    | inr q ↦ rw (p, q) (rw p refl)
  ]
  | inr p ↦ rw p (rw p refl)
]

touched_ticket :
    (test : Session → Bool) (now : ℕ) (o : Option Session)
    → ticket_of (map_row (update_row test (touch_at now)) o) ≡ ticket_of o
unfolding ticket_of
touched_ticket test now none = refl
touched_ticket test now (some r) = elim (Bool-cases (is_none r.revoked_at && test r)) [
  | inl p ↦ rw p refl
  | inr p ↦ rw p refl
]

module _ (now : ℕ) (s : AuthStore) (k : NoTwin s.sessions) where
  pub token-NoTwin : (hash : String) → NoTwin (token_revoked hash now s).1.sessions
  token-NoTwin hash =
      NoTwin-update (λ r. str_eq r.token_hash hash) (revoke_at now) (λ r. refl) s.sessions k

  pub touched-NoTwin :
      (id : String) (threshold : ℕ) → NoTwin (touched id now threshold s).1.sessions
  touched-NoTwin id threshold =
      NoTwin-update (λ r. str_eq r.id id && ltb r.last_used_at threshold) (touch_at now) (λ r. refl)
        s.sessions k

  pub device-NoTwin : (user device : String) → NoTwin (device_revoked user device now s).1.sessions
  device-NoTwin user device = elim (Bool-cases (owns_device user device s.devices)) [
    | inl p ↦ rw p (
        NoTwin-update (λ r. str_eq r.user_id user && str_eq r.device_id device) (revoke_at now)
          (λ r. refl) s.sessions k)
    | inr p ↦ rw p k
  ]

-- A text that is one of two different texts is not the other.
apart : (x h hash : String) → str_eq x h ≡ true → str_eq hash h ≡ false → str_eq x hash ≡ false
apart x h hash p q = elim (Bool-cases (str_eq x hash)) [
  | inl e ↦ absurd (true-false (sym (subst (λ y. str_eq y h ≡ true) (str_eq→eq x hash e) p) ∙ q))
  | inr e ↦ e
]
  where
    true-false : true ≡ false → ⊥
    true-false e = cc

module _ (now : ℕ) (s : AuthStore) (h : String) where
  pub token-book :
      (hash : String)
      → book (token_revoked hash now s).1 h
        ≡ (if str_eq hash h then withdrawn (book s h) else book s h)
  token-book hash = elim (Bool-cases (str_eq hash h)) [
    | inl p ↦
        let all : (r : Session)
            → find_hash h s.sessions ≡ some r
            → str_eq r.token_hash hash ≡ true =
          λ r e.
            subst (λ x. str_eq r.token_hash x ≡ true) (sym (str_eq→eq hash h p))
              (find_hash-eq h s.sessions r e) in
        let after =
          moved hash
          ∙ revoked_ticket (λ r. str_eq r.token_hash hash) now (find_hash h s.sessions) all in
        rw p after
    | inr p ↦
        let after =
          moved hash
          ∙ kept_ticket (λ r. str_eq r.token_hash hash) now (find_hash h s.sessions)
              (λ r e. apart r.token_hash h hash (find_hash-eq h s.sessions r e) p) in
        rw p after
  ]
    where
      moved :
          (hash : String)
          → book (token_revoked hash now s).1 h
            ≡ ticket_of (
                map_row
                  (update_row (λ r. str_eq r.token_hash hash) (revoke_at now))
                  (find_hash h s.sessions))
      moved hash = ap ticket_of (
          find_hash-update (λ r. str_eq r.token_hash hash) (revoke_at now) (λ r. refl) h s.sessions)

  pub touched-book :
      (id : String) (threshold : ℕ) → book (touched id now threshold s).1 h ≡ book s h
  touched-book id threshold =
      ap ticket_of (
        find_hash-update (λ r. str_eq r.id id && ltb r.last_used_at threshold) (touch_at now)
          (λ r. refl) h s.sessions)
      ∙ touched_ticket (λ r. str_eq r.id id && ltb r.last_used_at threshold) now
          (find_hash h s.sessions)

  pub device-book :
      (user device : String)
      → owns_device user device s.devices ≡ true
      → book (device_revoked user device now s).1 h ≡ withdrawn_from user device (book s h)
  device-book user device p = rw p (
      ap ticket_of (
        find_hash-update (λ r. str_eq r.user_id user && str_eq r.device_id device) (revoke_at now)
          (λ r. refl) h s.sessions)
      ∙ device_ticket user device now (find_hash h s.sessions))

  pub device-book_kept :
      (user device : String)
      → owns_device user device s.devices ≡ false
      → book (device_revoked user device now s).1 h ≡ book s h
  device-book_kept user device p = rw p refl

-- Nothing is revoked where no row has the hash.
none_counted :
    (hash : String) (f : Session → Session) (rows : List Session)
    → has_hash hash rows ≡ false
    → (update_sessions (λ r. str_eq r.token_hash hash) f rows).1 ≡ 0
unfolding has_hash update_sessions
none_counted hash f [] k = refl
none_counted hash f (r ∷ rs) k = elim (Bool-cases (str_eq r.token_hash hash)) [
  | inl p ↦ ground arith
  | inr p ↦
      let rest = none_counted hash f rs (sym (rw p refl) ∙ k) in
      elim (Bool-cases (is_none r.revoked_at)) [ inl q ↦ rw (q, p) rest | inr q ↦ rw q rest ]
]

-- What is revoked was granted.
pub counted_granted :
    (hash : String) (f : Session → Session) (rows : List Session)
    → NoTwin rows
    → is_positive (update_sessions (λ r. str_eq r.token_hash hash) f rows).1 ≡ true
    → (u : String) × (d : String) × (e : ℕ) × (ticket_of (find_hash hash rows) ≡ granted u d e)
unfolding NoTwin update_sessions find_hash ticket_of
counted_granted hash f [] k n = cc
counted_granted hash f (r ∷ rs) (alone, k) n = elim (Bool-cases (str_eq r.token_hash hash)) [
  | inl p ↦ elim (Bool-cases (is_none r.revoked_at)) [
    | inl q ↦ (r.user_id, r.device_id, r.expires_at, rw (p, q) refl)
    | inr q ↦
        let zero_rest =
          none_counted hash f rs
            (subst (λ x. has_hash x rs ≡ false) (str_eq→eq r.token_hash hash p) alone) in
        absurd (nothing _ zero_rest (sym (rw q refl) ∙ n))
  ]
  | inr p ↦ elim (Bool-cases (is_none r.revoked_at)) [
    | inl q ↦ rw p (counted_granted hash f rs k (sym (rw (q, p) refl) ∙ n))
    | inr q ↦ rw p (counted_granted hash f rs k (sym (rw q refl) ∙ n))
  ]
]
  where
    nothing : (n : ℕ) → n ≡ 0 → is_positive n ≡ true → ⊥
    nothing zero e h = cc
    nothing (suc n) e h = ground arith
