-- ===== src/Tracker/Calls/Links.antt =====
-- The interview rounds that notes and reminders name
-- (internal/modules/tracker/application/interview_link.go, used by note_service.go, note_write.go,
-- reminder_service.go and reminder_write.go).
use cv_agent.Base.{
  ℕ, String, ◌≡◌, Bool, true, false, ◌&&◌, ◌||◌, Option, none, some, List, [], ◌∷◌, All, arith,
  str_eq,
}
use cv_agent.Tracker.Domain.{ChildMeta, InterviewRound, Note, Reminder}
use cv_agent.Tracker.Store.{Store}
use cv_agent.Tracker.Cascade.{delete_children, with_interview}
use cv_agent.Tracker.Children.{belongs_to}
use cv_agent.Tracker.Children.Rows.{replace_row}
use cv_agent.Tracker.Children.Kinds.{interviews}
use cv_agent.Tracker.Children.Steps.{LinkHolds}

-- A row, deleted or not, for a round of the user and the application.
unfoldable pub has_round : String → String → String → List InterviewRound → Bool
has_round user app round [] = false
has_round user app round (i ∷ rest) =
    (str_eq i.user_id user && str_eq i.application_id app && str_eq i.id round)
    || has_round user app round rest

-- A link names no round, or one of the user and the application.
abbrev pub LinkOwned : List InterviewRound → String → String → Option String → Type 0
LinkOwned rounds user app none = Unit
LinkOwned rounds user app (some round) = has_round user app round rounds ≡ true

abbrev pub ChildLinked :
    {A : Type 0} → (A → ChildMeta) → (A → Option String) → List InterviewRound → A → Type 0
ChildLinked meta_of link_of rounds x =
    LinkOwned rounds (meta_of x).user_id (meta_of x).application_id (link_of x)

-- Every note and reminder is linked to rounds of its own application.
abbrev pub Links : List InterviewRound → List Note → List Reminder → Type 0
Links rounds notes reminders =
    All (ChildLinked (λ (n : Note). n.base) (λ n. n.interview_round_id) rounds) notes
    × All (ChildLinked (λ (m : Reminder). m.base) (λ m. m.interview_round_id) rounds) reminders

belongs_to-has_round :
    (user app round : String) (rounds : List InterviewRound)
    → belongs_to user app round rounds ≡ true
    → has_round user app round rounds ≡ true
unfolding belongs_to has_round
belongs_to-has_round user app round [] h = h
belongs_to-has_round user app round (i ∷ rest) h =
    ground (arith, belongs_to-has_round user app round rest)

pub LinkHolds-LinkOwned :
    (user app : String) (link : Option String) (s : Store)
    → LinkHolds user app link s
    → LinkOwned s.interviews user app link
LinkHolds-LinkOwned user app none s h = tt
LinkHolds-LinkOwned user app (some round) s h = belongs_to-has_round user app round s.interviews h

-- Rounds that keep their keys keep the links.
abbrev pub KeepsRounds : List InterviewRound → List InterviewRound → Type 0
KeepsRounds rounds later =
    (user app round : String)
    → has_round user app round rounds ≡ true
    → has_round user app round later ≡ true

LinkOwned-KeepsRounds :
    (rounds later : List InterviewRound) (user app : String) (link : Option String)
    → KeepsRounds rounds later
    → LinkOwned rounds user app link
    → LinkOwned later user app link
LinkOwned-KeepsRounds rounds later user app none k h = tt
LinkOwned-KeepsRounds rounds later user app (some round) k h = k user app round h

module _ {A : Type 0} (meta_of : A → ChildMeta) (link_of : A → Option String) where
  All-ChildLinked-KeepsRounds :
      (rounds later : List InterviewRound) (xs : List A)
      → KeepsRounds rounds later
      → All (ChildLinked meta_of link_of rounds) xs
      → All (ChildLinked meta_of link_of later) xs
  All-ChildLinked-KeepsRounds rounds later [] k h = tt
  All-ChildLinked-KeepsRounds rounds later (x ∷ xs) k h = (
    LinkOwned-KeepsRounds rounds later (meta_of x).user_id (meta_of x).application_id (link_of x) k
        h.0,
    All-ChildLinked-KeepsRounds rounds later xs k h.1,
  )

pub Links-KeepsRounds :
    (rounds later : List InterviewRound) (notes : List Note) (reminders : List Reminder)
    → KeepsRounds rounds later
    → Links rounds notes reminders
    → Links later notes reminders
Links-KeepsRounds rounds later notes reminders k h = (
  All-ChildLinked-KeepsRounds (λ (n : Note). n.base) (λ n. n.interview_round_id) rounds later notes
      k h.0,
  All-ChildLinked-KeepsRounds (λ (m : Reminder). m.base) (λ m. m.interview_round_id) rounds later
      reminders k h.1,
)

pub KeepsRounds-delete_children :
    (user app : String) (device : Option String) (now : ℕ) (rounds : List InterviewRound)
    → KeepsRounds rounds
        (delete_children
          (λ (i : InterviewRound). i.base)
          with_interview
          user
          app
          device
          now
          rounds).0
unfolding delete_children has_round
KeepsRounds-delete_children user app device now [] u a r h = h
KeepsRounds-delete_children user app device now (i ∷ rest) u a r h =
    ground (arith, KeepsRounds-delete_children user app device now rest u a r)

pub KeepsRounds-cons :
    (i : InterviewRound) (rounds : List InterviewRound) → KeepsRounds rounds (i ∷ rounds)
unfolding has_round
KeepsRounds-cons i rounds u a r h = ground arith

pub KeepsRounds-replace_row :
    (f : InterviewRound → InterviewRound)
    → ((i : InterviewRound)
        → ((f i).user_id ≡ i.user_id)
          × ((f i).application_id ≡ i.application_id)
          × ((f i).id ≡ i.id))
    → (user id : String) (rounds : List InterviewRound)
    → KeepsRounds rounds (replace_row interviews f user id rounds)
unfolding has_round replace_row
KeepsRounds-replace_row f k user id [] u a r h = h
KeepsRounds-replace_row f k user id (i ∷ rest) u a r h =
    ground (arith, KeepsRounds-replace_row f k user id rest u a r, k i)
