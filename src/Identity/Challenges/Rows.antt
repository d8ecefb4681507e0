-- ===== src/Identity/Challenges/Rows.antt =====
-- Rows of `email_login_challenges` found by their identifier, and changed.
use cv_agent.Base.{String, ◌≡◌, refl, false, some, List, [], ◌∷◌, str_eq, str_eq→eq, arith}
use cv_agent.Identity.Domain.{EmailChallenge}
use cv_agent.Identity.Store.{find_challenge, update_challenge}

pub find_challenge-id :
    (id : String) (rows : List EmailChallenge) {c : EmailChallenge}
    → find_challenge id rows ≡ some c
    → c.id ≡ id
unfolding find_challenge
find_challenge-id id [] h = cc
find_challenge-id id (r ∷ rs) {c} h =
    ground (arith, find_challenge-id id rs {c = c}, str_eq→eq r.id id)

module _ (f : EmailChallenge → EmailChallenge)
    (same_id : (c : EmailChallenge) → (f c).id ≡ c.id) where
  -- The row of the identifier that is updated is the changed one.
  pub find-update_self :
      (id : String) (rows : List EmailChallenge) {c : EmailChallenge}
      → find_challenge id rows ≡ some c
      → find_challenge id (update_challenge f id rows) ≡ some (f c)
  unfolding find_challenge update_challenge
  find-update_self id [] h = cc
  find-update_self id (r ∷ rs) {c} h = ground (arith, find-update_self id rs {c = c}, same_id r)

  -- Every other identifier finds what it found.
  pub find-update_other :
      (id id' : String) (rows : List EmailChallenge)
      → str_eq id id' ≡ false
      → find_challenge id (update_challenge f id' rows) ≡ find_challenge id rows
  unfolding find_challenge update_challenge
  find-update_other id id' [] ne = refl
  find-update_other id id' (r ∷ rs) ne =
      ground (arith, find-update_other id id' rs, same_id r, str_eq→eq r.id id, str_eq→eq r.id id')
