-- ===== src/Tracker/Calls/Kept.antt =====
-- The links of notes and reminders under the commands on children
-- (internal/modules/tracker/application/note_service.go, note_write.go, reminder_service.go and
-- reminder_write.go).
use cv_agent.Base.{ap, ◌∙◌, String, ◌≡◌, Option, some, List, All}
use cv_agent.Tracker.Domain.{ChildMeta, InterviewRound}
use cv_agent.Tracker.Store.{Store}
use cv_agent.Tracker.Application.{Env}
use cv_agent.Tracker.Children.{Kind, IsKind, find_child, updated_row, removed_row}
use cv_agent.Tracker.Children.Rows.{All-replace_row, find_child-key}
use cv_agent.Tracker.Children.Moves.{IsAdded, IsReplaced, IsRemoved}
use cv_agent.Tracker.Children.Replaced.{rows_at}
use cv_agent.Tracker.Calls.Links.{ChildLinked, LinkHolds-LinkOwned}

-- The link of a row is that of the write that made or replaced it.
pub record HasLink {A W : Type 0} (k : Kind A W) (link_of : A → Option String) : Type 0 where
  pub link-make : (m : ChildMeta) (w : W) → link_of (k.make m w) ≡ k.link w
  pub link-replace :
      (w : W) (x : A) (m : ChildMeta) → link_of (k.with_base (k.replace w x) m) ≡ k.link w
  pub link-columns : (a x : A) (m : ChildMeta) → link_of (k.with_base (k.columns a x) m) ≡ link_of a
  pub link-with_base : (x : A) (m : ChildMeta) → link_of (k.with_base x m) ≡ link_of x

module _ {A W : Type 0} (k : Kind A W) (laws : IsKind k) (link_of : A → Option String)
    (links : HasLink k link_of) (env : Env) (user device : String) where
  -- All links of the table, to the rounds before the command.
  abbrev pub AllLinked : List InterviewRound → List A → Type 0
  AllLinked rounds xs = All (ChildLinked k.base link_of rounds) xs

  pub IsAdded-AllLinked :
      (app : String) (w : W) (before s : Store) (id : String) (a : A)
      → IsAdded k laws env user device app w before id a s
      → AllLinked before.interviews (k.rows before)
      → AllLinked before.interviews (k.rows s)
  IsAdded-AllLinked app w before s id a r h =
      rw (rows_at k laws _ before s r.tables, r.made)
        (
          rw (laws.base-make _ w, links.link-make _ w)
              (LinkHolds-LinkOwned user app (k.link w) before r.linked),
          h,
        )

  pub IsReplaced-AllLinked :
      (id : String) (w : W) (before s : Store) (cur a : A)
      → find_child k user id (k.rows before) ≡ some cur
      → IsReplaced k laws env user device id before w cur a s
      → AllLinked before.interviews (k.rows before)
      → AllLinked before.interviews (k.rows s)
  IsReplaced-AllLinked id w before s cur a found r h = rw (rows_at k laws _ before s r.tables) (
      All-replace_row k (ChildLinked k.base link_of before.interviews) (updated_row k a) user id
        (k.rows before) found
        (λ old.
          let e : link_of a ≡ k.link w = ap link_of r.answer ∙ links.link-replace w cur _ in
          rw
            (
              laws.base-with_base (k.columns a cur) _,
              links.link-columns a cur _,
              e,
              (find_child-key k user id (k.rows before) found).0,
            )
            (LinkHolds-LinkOwned user (k.base cur).application_id (k.link w) before r.linked))
        h)

  pub IsRemoved-AllLinked :
      (id : String) (before s : Store) (cur a : A)
      → find_child k user id (k.rows before) ≡ some cur
      → IsRemoved k laws env user device id before cur a s
      → AllLinked before.interviews (k.rows before)
      → AllLinked before.interviews (k.rows s)
  IsRemoved-AllLinked id before s cur a found r h = rw (rows_at k laws _ before s r.tables) (
      All-replace_row k (ChildLinked k.base link_of before.interviews) (removed_row k a) user id
        (k.rows before) found
        (λ old. rw (laws.base-with_base cur _, links.link-with_base cur _) old) h)
