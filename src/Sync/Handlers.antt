-- ===== src/Sync/Handlers.antt =====
-- `CommandHandler` and its registry, from internal/modules/sync/push_types.go and push.go.
use cv_agent.Base.{Option, none, some, List, [], ◌∷◌, str_eq, if◌then◌else◌}
use cv_agent.Db.{M}
use cv_agent.Sync.Types.{EntityType, Command, ApplyResult}

-- Every error of a push is answered alike, so which error it was is not kept.
pub data Fault : Type 0 where
  fault : Fault

pub record CommandHandler (Entity B : Type 0) : Type 0 where
  pub entity_type : EntityType
  pub apply : Command → M B Fault (ApplyResult Entity)

module _ {Entity B : Type 0} where
  -- The loop of `NewPushService` over the handlers still to register; `none` is the error on a
  -- second handler of one entity type.
  unfoldable pub handler_of :
      EntityType → List (CommandHandler Entity B) → Option (CommandHandler Entity B)
  handler_of e [] = none
  handler_of e (h ∷ hs) = if str_eq h.entity_type e then some h else handler_of e hs

  unfoldable pub register :
      List (CommandHandler Entity B)
      → List (CommandHandler Entity B)
      → Option (List (CommandHandler Entity B))
  unfolding handler_of
  register registered [] = some registered
  register registered (h ∷ hs) = elim (handler_of h.entity_type registered) [
    | none ↦ register (h ∷ registered) hs
    | some _ ↦ none
  ]

  unfoldable pub new_push_service :
      List (CommandHandler Entity B) → Option (List (CommandHandler Entity B))
  unfolding register
  new_push_service hs = register [] hs
