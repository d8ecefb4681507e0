-- ===== src/Sync/Pull.antt =====
-- internal/modules/sync/pull.go: one page of the feed after a cursor.
pub mod Select
pub mod Pages
pub mod Drain
use cv_agent.Base.{
  ℕ, ◌+◌, String, Bool, true, false, not, ◌&&◌, ◌||◌, Option, none, some, List, [], ◌∷◌, ◌++◌, map,
  str_eq, ltb, length, take, if◌then◌else◌,
}
use cv_agent.Db.{Result, ok, err}
use cv_agent.Sync.Types.{EntityType}
use cv_agent.Sync.Changes.{ChangeRow, list_after}
use cv_agent.Sync.Feed.{
  FeedError, projector_missing, projection_missing, backend, Projection, ProjectedChange, Page,
  Projector, to_projected_change, projector_of,
}
use cv_agent.Sync.Cursor.{CursorCodec, encode_pull, decode_pull}

-- `projectionKey` joins the two texts by a zero byte, which neither can hold in its column.
abbrev pub same_key : EntityType → String → ChangeRow → Bool
same_key e id r = str_eq r.entity_type e && str_eq r.entity_id id

unfoldable pub has_key : EntityType → String → List ChangeRow → Bool
has_key e id [] = false
has_key e id (r ∷ rs) = same_key e id r || has_key e id rs

-- The map of `collapse`: of each entity the last row.
unfoldable pub latest : List ChangeRow → List ChangeRow
unfolding has_key
latest [] = []
latest (r ∷ rs) =
    let rest = latest rs in if has_key r.entity_type r.entity_id rs then rest else r ∷ rest

-- `sort.Slice` by the sequence number.
unfoldable pub insert_by_sequence : ChangeRow → List ChangeRow → List ChangeRow
insert_by_sequence r [] = r ∷ []
insert_by_sequence r (s ∷ rest) =
    let later = insert_by_sequence r rest in
    if ltb r.sequence s.sequence then r ∷ s ∷ rest else s ∷ later

unfoldable pub sort_by_sequence : List ChangeRow → List ChangeRow
unfolding insert_by_sequence
sort_by_sequence [] = []
sort_by_sequence (r ∷ rs) = insert_by_sequence r (sort_by_sequence rs)

unfoldable pub collapse : List ChangeRow → List ChangeRow
unfolding latest sort_by_sequence
collapse keys = sort_by_sequence (latest keys)

-- The rows of a page, whether more follow, and the position after it.
pub record Slice : Type 0 where
  pub keys : List ChangeRow
  pub has_more : Bool
  pub next_position : ℕ

-- `keys[len(keys)-1].Sequence`, or the old position if there is no key.
abbrev pub last_sequence : ℕ → List ChangeRow → ℕ
last_sequence position [] = position
last_sequence position (r ∷ rs) = last_sequence r.sequence rs

-- The part of `Pull` between the cursor and the hydration.
unfoldable pub page_after : String → ℕ → ℕ → List ChangeRow → Slice
unfolding list_after
page_after user position limit rows =
    let keys = list_after user position (limit + 1) rows in
    record {
      keys = take limit keys;
      has_more = ltb limit (length keys);
      next_position = last_sequence position (take limit keys);
    }

module _ {Payload : Type 0} (projectors : List (Projector Payload)) (tombstone : ℕ → Payload) where
  -- The identifiers that `grouped` holds for a type.
  unfoldable pub ids_of : EntityType → List ChangeRow → List String
  ids_of e [] = []
  ids_of e (r ∷ rs) =
      let rest = ids_of e rs in if str_eq r.entity_type e then r.entity_id ∷ rest else rest

  abbrev pub find_projection :
      String → List (String × Projection Payload) → Option (Projection Payload)
  find_projection id [] = none
  find_projection id ((i, p) ∷ rest) = if str_eq i id then some p else find_projection id rest

  abbrev pub projected :
      String
      → Option (List (String × Projection Payload))
      → Result FeedError (ProjectedChange Payload)
  projected id none = err backend
  projected id (some ps) = elim (find_projection id ps) [
    | none ↦ err projection_missing
    | some p ↦ ok (to_projected_change tombstone p)
  ]

  abbrev pub project :
      String → List ChangeRow → ChangeRow → Result FeedError (ProjectedChange Payload)
  project user keys r = elim (projector_of r.entity_type projectors) [
    | none ↦ err projector_missing
    | some p ↦ projected r.entity_id (p.hydrate user (ids_of r.entity_type keys))
  ]

  abbrev pub prepend :
      Result FeedError (ProjectedChange Payload)
      → Result FeedError (List (ProjectedChange Payload))
      → Result FeedError (List (ProjectedChange Payload))
  prepend (ok c) (ok cs) = ok (c ∷ cs)
  prepend (ok c) (err e) = err e
  prepend (err e) rest = err e

  abbrev pub group_failed :
      Option FeedError → Option (List (String × Projection Payload)) → Option FeedError
  group_failed later none = some backend
  group_failed later (some _) = later

  -- The loop over `grouped`, for which one type is asked once for each of its keys: a projector is a
  -- function of the identifiers, so this changes no answer. Of two errors the first key's is kept,
  -- where the order of a Go map decides.
  unfoldable pub group_error : String → List ChangeRow → List ChangeRow → Option FeedError
  unfolding ids_of
  group_error user keys [] = none
  group_error user keys (r ∷ rs) =
      let later = group_error user keys rs in
      elim (projector_of r.entity_type projectors) [
        | none ↦ some projector_missing
        | some p ↦ group_failed later (p.hydrate user (ids_of r.entity_type keys))
      ]

  -- The second loop, over the keys.
  unfoldable pub hydrate_keys :
      String → List ChangeRow → List ChangeRow → Result FeedError (List (ProjectedChange Payload))
  unfolding ids_of
  hydrate_keys user keys [] = ok []
  hydrate_keys user keys (r ∷ rs) = prepend (project user keys r) (hydrate_keys user keys rs)

  unfoldable pub hydrate :
      String → List ChangeRow → Result FeedError (List (ProjectedChange Payload))
  unfolding group_error hydrate_keys
  hydrate user keys = elim (group_error user keys keys) [
    | some e ↦ err e
    | none ↦ hydrate_keys user keys keys
  ]

  abbrev pub page_of :
      ℕ
      → Bool
      → Result FeedError (List (ProjectedChange Payload))
      → Result FeedError String
      → Result FeedError (Page Payload)
  page_of now more (err e) cursor = err e
  page_of now more (ok cs) (err e) = err e
  page_of now more (ok cs) (ok next) =
      ok (record { changes = cs; next_cursor = next; has_more = more; server_time = now })

  module _ (codec : CursorCodec) where
    abbrev pub pull_page : ℕ → String → ℕ → List ChangeRow → ℕ → Result FeedError (Page Payload)
    pull_page now user limit rows position =
        let s = page_after user position limit rows in
        page_of now s.has_more (hydrate user (collapse s.keys))
          (encode_pull codec now user s.next_position)

    abbrev pub pull_from :
        ℕ
        → String
        → ℕ
        → Option (List ChangeRow)
        → Result FeedError ℕ
        → Result FeedError (Page Payload)
    pull_from now user limit rows (err e) = err e
    pull_from now user limit none (ok position) = err backend
    pull_from now user limit (some rows) (ok position) = pull_page now user limit rows position

    -- `Pull`; `none` for the rows is a failed query.
    unfoldable pub pull :
        ℕ → String → String → ℕ → Option (List ChangeRow) → Result FeedError (Page Payload)
    unfolding page_after hydrate collapse encode_pull decode_pull
    pull now user cursor limit rows =
        pull_from now user limit rows (decode_pull codec now user cursor)
