-- ===== src/Tracker/StateMachine/Paths.antt =====
-- Histories of an application over the moves of
-- internal/modules/tracker/domain/statemachine.go.
use cv_agent.Base.{ℕ, ◌<◌, ◌≡◌, ◌≢◌, refl, ◌⊎◌, inl, true, false, arith}
use cv_agent.Tracker.Domain.{Status, applied, screening, interviewing, offer, rejected}
use cv_agent.Tracker.StateMachine.{terminal, valid_status, can_transition}

-- The statuses that accepted moves lead to.
infix 40 ◌⟶*◌
pub data ◌⟶*◌ : Status → Status → Type 0 where
  here : {s : Status} → s ⟶* s
  move : {s u : Status} (t : Status) → can_transition s t ≡ true → t ⟶* u → s ⟶* u

-- The column of a status on the board; all ends are in the last one.
abbrev pub column : Status → ℕ
column applied = 0
column screening = 1
column interviewing = 2
column (Status.unknown _) = 4
column _ = 3

move-column :
    (s t : Status)
    → can_transition s t ≡ true
    → (column s < column t) ⊎ ((s ≡ interviewing) × (t ≡ interviewing))
unfolding can_transition
move-column s t h = grind arith

path-column : {s t : Status} → s ⟶* t → (s ≡ t) ⊎ (column s < column t)
path-column here = inl refl
path-column (move {s = s} {u = u} t h p) = grind (arith, move-column s t h, path-column p)

-- If accepted moves lead from a status to another one, none lead back.
pub no_return : (s t : Status) → s ⟶* t → s ≢ t → ¬ (t ⟶* s)
no_return s t there differ back = grind (arith, path-column there, path-column back)

-- From every valid status that is not terminal accepted moves lead to an offer, and a rejection is
-- accepted at once.
pub open-offer :
    (s : Status)
    → valid_status s ≡ true
    → terminal s ≡ false
    → (s ⟶* offer) × (can_transition s rejected ≡ true)
unfolding can_transition terminal
open-offer applied v h = (move screening refl (move interviewing refl (move offer refl here)), refl)
open-offer screening v h = (move interviewing refl (move offer refl here), refl)
open-offer interviewing v h = (move offer refl here, refl)
open-offer s v h = cc
