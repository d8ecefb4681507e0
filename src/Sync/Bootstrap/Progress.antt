-- ===== src/Sync/Bootstrap/Progress.antt =====
-- A device that follows the pages of a bootstrap moves on (internal/modules/sync/bootstrap.go).
use cv_agent.Base.{◌≡◌, false, List}
use cv_agent.Db.{Result, ok, err}
use cv_agent.Sync.Feed.{FeedError, Projection}
use cv_agent.Sync.Bootstrap.{Stop, finished, stopped, has_none}

module _ {Payload : Type 0} where
  -- What is read carries an item if it stops before the end.
  IsProgress : Result FeedError (List (Projection Payload) × Stop) → Type 0
  IsProgress (err e) = Unit {0}
  IsProgress (ok (items, finished)) = Unit {0}
  IsProgress (ok (items, stopped index last)) = has_none items ≡ false
