-- ===== src/Sync/Feed.antt =====
-- internal/modules/sync/feed.go and projectors.go: what a page of the feed is made of. A key of the
-- feed (`ChangeKey`) is a row of `sync_changes` without its user.
use cv_agent.Base.{ℕ, String, Option, none, some, List, [], ◌∷◌, ℤ, Bool, str_eq, if◌then◌else◌}
use cv_agent.Sync.Types.{EntityType}
use cv_agent.Sync.Changes.{Operation, upsert, delete}

pub data FeedError : Type 0 where
  cursor_invalid cursor_expired bootstrap_needed : FeedError
  projector_missing projection_missing : FeedError
  -- Any error of the database, of a projector or of an encoding.
  backend : FeedError

-- `Payload` is the module's JSON document, or the document of a deletion instant.
pub record Projection (Payload : Type 0) : Type 0 where
  pub entity_type : EntityType
  pub entity_id : String
  pub entity_version : ℤ
  pub updated_at : ℕ
  pub deleted_at : Option ℕ
  pub payload : Payload

pub record ProjectedChange (Payload : Type 0) : Type 0 where
  pub entity_type : EntityType
  pub entity_id : String
  pub entity_version : ℤ
  pub operation : Operation
  pub changed_at : ℕ
  pub payload : Payload

pub record Page (Payload : Type 0) : Type 0 where
  pub changes : List (ProjectedChange Payload)
  pub next_cursor : String
  pub has_more : Bool
  pub server_time : ℕ

-- `Hydrate` of a projector: the projections by their identifiers; `none` is its error.
pub record Projector (Payload : Type 0) : Type 0 where
  pub entity_type : EntityType
  pub hydrate : String → List String → Option (List (String × Projection Payload))

module _ {Payload : Type 0} where
  -- `toProjectedChange`; `tombstone` is the document {"deletedAt": ...}.
  unfoldable pub to_projected_change : (ℕ → Payload) → Projection Payload → ProjectedChange Payload
  to_projected_change tombstone p = record {
    entity_type = p.entity_type;
    entity_id = p.entity_id;
    entity_version = p.entity_version;
    operation = elim p.deleted_at [ none ↦ upsert | some t ↦ delete ];
    changed_at = elim p.deleted_at [ none ↦ p.updated_at | some t ↦ t ];
    payload = elim p.deleted_at [ none ↦ p.payload | some t ↦ tombstone t ];
  }

  -- `projectorRegistry.get`. The registry refuses two projectors of one type.
  unfoldable pub projector_of : EntityType → List (Projector Payload) → Option (Projector Payload)
  projector_of e [] = none
  projector_of e (p ∷ ps) = if str_eq p.entity_type e then some p else projector_of e ps

  -- The loop that fills `byType`; `none` is the error on a second projector of one type.
  unfoldable pub register_projectors :
      List (Projector Payload) → List (Projector Payload) → Option (List (Projector Payload))
  unfolding projector_of
  register_projectors registered [] = some registered
  register_projectors registered (p ∷ ps) = elim (projector_of p.entity_type registered) [
    | none ↦ register_projectors (p ∷ registered) ps
    | some _ ↦ none
  ]

  -- `newProjectorRegistry`: the projectors in the order given, if their types differ.
  unfoldable pub new_projector_registry :
      List (Projector Payload) → Option (List (Projector Payload))
  unfolding register_projectors
  new_projector_registry ps = elim (register_projectors [] ps) [ none ↦ none | some _ ↦ some ps ]
