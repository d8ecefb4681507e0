-- ===== src/Sync/Bootstrap.antt =====
-- internal/modules/sync/bootstrap.go: all the entities of a user, type after type, in pages.
pub mod Progress
use Prim.Native.Nat.{Ordering}
use Prim.Native.String.{compare}
use cv_agent.Base.{
  ℕ, zero, suc, ◌+◌, ◌-◌, String, Bool, true, false, not, ◌&&◌, ◌||◌, Option, none, some, List, [],
  ◌∷◌, ◌++◌, map, is_empty, str_eq, ltb, length, if◌then◌else◌,
}
use cv_agent.Db.{Result, ok, err}
use cv_agent.Sync.Types.{EntityType}
use cv_agent.Sync.Changes.{ChangeRow, high_watermark}
use cv_agent.Sync.Feed.{
  FeedError, cursor_invalid, projection_missing, backend, Projection, ProjectedChange, Page,
  to_projected_change,
}
use cv_agent.Sync.Cursor.{CursorCodec, encode_pull, encode_bootstrap, decode_bootstrap}

-- `BootstrapPage`
pub record BootstrapPage (Payload : Type 0) : Type 0 where
  pub items : List (Projection Payload)
  pub has_more : Bool

-- `Bootstrap` of a projector: the projections of a user after an identifier, at most so many; `none`
-- is its error.
pub record BootstrapProjector (Payload : Type 0) : Type 0 where
  pub entity_type : EntityType
  pub bootstrap : String → String → ℕ → Option (BootstrapPage Payload)

-- Where a page stops: nothing is left, or a type's index and the last identifier of it.
pub data Stop : Type 0 where
  finished : Stop
  stopped : ℕ → String → Stop

abbrev pub precedes : String → String → Bool
precedes a b = elim (compare a b) [ Ordering.lt ↦ true | _ ↦ false ]

module _ {Payload : Type 0} where
  -- The loop of `validateBootstrapPage`, after an item or at the first.
  unfoldable pub invalid_items : EntityType → Option String → List (Projection Payload) → Bool
  invalid_items e before [] = false
  invalid_items e before (p ∷ ps) =
      let rest = invalid_items e (some p.entity_id) ps in
      if not (str_eq p.entity_type e) || is_empty p.entity_id
      then true
      else if elim before [ none ↦ false | some id ↦ not (precedes id p.entity_id) ]
      then true
      else rest

  abbrev pub has_none : List (Projection Payload) → Bool
  has_none [] = true
  has_none (p ∷ ps) = false

  -- `validateBootstrapPage`
  unfoldable pub invalid_page : EntityType → BootstrapPage Payload → Bool
  unfolding invalid_items
  invalid_page e page =
      if page.has_more && has_none page.items then true else invalid_items e none page.items

  abbrev pub last_id : String → List (Projection Payload) → String
  last_id before [] = before
  last_id before (p ∷ ps) = last_id p.entity_id ps

  abbrev pub put_before :
      List (Projection Payload)
      → Result FeedError (List (Projection Payload) × Stop)
      → Result FeedError (List (Projection Payload) × Stop)
  put_before items (err e) = err e
  put_before items (ok (rest, stop)) = ok (items ++ rest, stop)

  -- The body of the loop with the page of a projector; `later` is the rest of the loop when `room` is left.
  abbrev pub with_page :
      EntityType
      → ℕ
      → ℕ
      → Option (BootstrapPage Payload)
      → (ℕ → Result FeedError (List (Projection Payload) × Stop))
      → Result FeedError (List (Projection Payload) × Stop)
  with_page e room index none later = err backend
  with_page e room index (some page) later =
      if invalid_page e page
      then err projection_missing
      else if page.has_more
      then ok (page.items, stopped index (last_id "" page.items))
      else put_before page.items (later (room - length page.items))

  -- The loop of `Bootstrap` over the projectors from an index on, with room for so many items.
  unfoldable pub fill :
      String
      → String
      → ℕ
      → ℕ
      → List (BootstrapProjector Payload)
      → Result FeedError (List (Projection Payload) × Stop)
  unfolding invalid_page
  fill user last room index [] = ok ([], finished)
  fill user last zero index (p ∷ ps) = ok ([], stopped index last)
  fill user last (suc room) index (p ∷ ps) =
      with_page p.entity_type (suc room) index (p.bootstrap user last (suc room))
        λ left. fill user "" left (index + 1) ps

  unfoldable pub drop : ℕ → List (BootstrapProjector Payload) → List (BootstrapProjector Payload)
  drop zero ps = ps
  drop (suc n) [] = []
  drop (suc n) (p ∷ ps) = drop n ps

  abbrev pub count : List (BootstrapProjector Payload) → ℕ
  count [] = 0
  count (p ∷ ps) = suc (count ps)

  module _ (projectors : List (BootstrapProjector Payload)) (tombstone : ℕ → Payload)
      (codec : CursorCodec) where
    -- `projectChanges` and the page of a cursor.
    abbrev pub page_with :
        ℕ
        → Bool
        → List (Projection Payload)
        → Result FeedError String
        → Result FeedError (Page Payload)
    page_with now more items (err e) = err e
    page_with now more items (ok next) = ok (record {
      changes = map (to_projected_change tombstone) items;
      next_cursor = next;
      has_more = more;
      server_time = now;
    })

    -- The end of `Bootstrap`, with `intermediate`.
    abbrev pub finish_page :
        ℕ
        → String
        → ℕ
        → Result FeedError (List (Projection Payload) × Stop)
        → Result FeedError (Page Payload)
    finish_page now user watermark (err e) = err e
    finish_page now user watermark (ok (items, finished)) =
        page_with now false items (encode_pull codec now user watermark)
    finish_page now user watermark (ok (items, stopped index last)) =
        page_with now true items (encode_bootstrap codec now user watermark index last)

    -- `start`; `none` for the rows is a failed query.
    abbrev pub watermark_of : String → Option (List ChangeRow) → Result FeedError (ℕ × ℕ × String)
    watermark_of user none = err backend
    watermark_of user (some rows) = ok (high_watermark user rows, 0, "")

    abbrev pub start :
        ℕ → String → String → Option (List ChangeRow) → Result FeedError (ℕ × ℕ × String)
    start now user cursor rows =
        if not (is_empty cursor)
        then decode_bootstrap codec now user cursor
        else watermark_of user rows

    abbrev pub bootstrap_from :
        ℕ → String → ℕ → Result FeedError (ℕ × ℕ × String) → Result FeedError (Page Payload)
    bootstrap_from now user limit (err e) = err e
    bootstrap_from now user limit (ok (watermark, index, last)) =
        if ltb (count projectors) index
        then err cursor_invalid
        else finish_page now user watermark (fill user last limit index (drop index projectors))

    -- `Bootstrap`
    unfoldable pub bootstrap :
        ℕ → String → String → ℕ → Option (List ChangeRow) → Result FeedError (Page Payload)
    unfolding fill drop high_watermark encode_pull encode_bootstrap decode_bootstrap
    bootstrap now user cursor limit rows =
        bootstrap_from now user limit (start now user cursor rows)
