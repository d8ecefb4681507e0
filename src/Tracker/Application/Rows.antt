-- ===== src/Tracker/Application/Rows.antt =====
-- Rows of `applications` under the updates of
-- internal/modules/tracker/postgres/application_repo.go.
use cv_agent.Base.{
  String, ◌≡◌, refl, true, false, none, some, List, [], ◌∷◌, arith, inc64, eqb_ℤ_iff, str_eq→eq,
  if◌then◌else◌,
}
use cv_agent.Tracker.Domain.{Application}
use cv_agent.Tracker.Store.{is_live, find_live, rewrite}

-- The first live row of a user and an id, replaced.
pub replace_live :
    (Application → Application) → String → String → List Application → List Application
replace_live f user id [] = []
replace_live f user id (a ∷ rest) =
    if is_live user id a then f a ∷ rest else a ∷ replace_live f user id rest

pub find_live-is_live :
    (user id : String) (rows : List Application) {cur : Application}
    → find_live user id rows ≡ some cur
    → is_live user id cur ≡ true
unfolding find_live
find_live-is_live user id [] h = cc
find_live-is_live user id (a ∷ rest) {cur} h =
    ground (arith, find_live-is_live user id rest {cur = cur})

pub find_live-key :
    (user id : String) (rows : List Application) {cur : Application}
    → find_live user id rows ≡ some cur
    → (cur.user_id ≡ user) × (cur.id ≡ id) × (cur.deleted_at ≡ none)
find_live-key user id rows {cur} h =
    ground
      (arith, find_live-is_live user id rows h, str_eq→eq cur.user_id user, str_eq→eq cur.id id)

-- An update of the version after the loaded row's writes that row.
pub rewrite-find_live :
    (f : Application → Application) (a : Application) (user id : String) (rows : List Application)
    {cur : Application}
    → find_live user id rows ≡ some cur
    → a.user_id ≡ user
    → a.id ≡ id
    → a.entity_version ≡ inc64 cur.entity_version
    → rewrite f a rows ≡ some (replace_live f user id rows)
unfolding find_live rewrite replace_live
rewrite-find_live f a user id [] h u i v = cc
rewrite-find_live f a user id (row ∷ rest) {cur} h u i v = ground (
  arith,
  rewrite-find_live f a user id rest {cur = cur},
  str_eq→eq row.id id,
  eqb_ℤ_iff (inc64 row.entity_version) a.entity_version,
)

-- A replacement that leaves the key and the row's life alone is what the key then finds.
pub find_live-replace_live :
    (f : Application → Application) (user id : String) (rows : List Application) {cur : Application}
    → find_live user id rows ≡ some cur
    → is_live user id (f cur) ≡ true
    → find_live user id (replace_live f user id rows) ≡ some (f cur)
unfolding find_live replace_live
find_live-replace_live f user id [] h l = cc
find_live-replace_live f user id (a ∷ rest) {cur} h l =
    ground (arith, find_live-replace_live f user id rest {cur = cur})

-- The rows of every other key are found as before.
pub find_live-replace_live_ne :
    (f : Application → Application) (user id u i : String) (rows : List Application)
    → ((a : Application)
        → is_live user id a ≡ true
        → (is_live u i a ≡ false) × (is_live u i (f a) ≡ false))
    → find_live u i (replace_live f user id rows) ≡ find_live u i rows
unfolding find_live replace_live
find_live-replace_live_ne f user id u i [] h = refl
find_live-replace_live_ne f user id u i (a ∷ rest) h =
    ground (arith, find_live-replace_live_ne f user id u i rest h, h a)
