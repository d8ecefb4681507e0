-- ===== src/Tracker/StateMachine.antt =====
-- internal/modules/tracker/domain/statemachine.go: the board's columns and the moves between them.
pub mod Paths
use cv_agent.Base.{
  ℕ, zero, suc, ◌+◌, ◌≤◌, ◌<◌, ◌≡◌, refl, ◌↔◌, ◌⊎◌, inl, inr, Bool, true, false, not, ◌||◌, List,
  [], ◌∷◌, arith, if◌then◌else◌,
}
use cv_agent.Tracker.Domain.{
  Status, applied, screening, interviewing, offer, rejected, no_response, eqb_status,
  DeliveryMethod, Source,
}

unfoldable pub terminal : Status → Bool
terminal offer = true
terminal rejected = true
terminal no_response = true
terminal _ = false

abbrev pub allowed_transitions : Status → List Status
allowed_transitions applied = screening ∷ rejected ∷ no_response ∷ []
allowed_transitions screening = interviewing ∷ rejected ∷ no_response ∷ []
allowed_transitions interviewing = interviewing ∷ offer ∷ rejected ∷ no_response ∷ []
allowed_transitions _ = []

unfoldable pub valid_status : Status → Bool
valid_status (Status.unknown _) = false
valid_status _ = true

unfoldable pub valid_delivery_method : DeliveryMethod → Bool
valid_delivery_method (DeliveryMethod.unknown _) = false
valid_delivery_method _ = true

unfoldable pub valid_source : Source → Bool
valid_source (Source.unknown _) = false
valid_source _ = true

-- The loop over the candidates.
abbrev pub is_candidate : List Status → Status → Bool
is_candidate [] to = false
is_candidate (s ∷ rest) to = eqb_status s to || is_candidate rest to

unfoldable pub can_transition : Status → Status → Bool
unfolding valid_status
can_transition from to =
    if not (valid_status from) || not (valid_status to)
    then false
    else is_candidate (allowed_transitions from) to

-- The edges of the board, drawn from what the columns mean: an application moves one column to
-- the right, repeats an interview, or is closed.
infix 40 ◌⟶◌
pub data ◌⟶◌ : Status → Status → Type 0 where
  screen : applied ⟶ screening
  invite : screening ⟶ interviewing
  repeat : interviewing ⟶ interviewing
  accept : interviewing ⟶ offer
  reject : {s : Status} → valid_status s ≡ true → terminal s ≡ false → s ⟶ rejected
  expire : {s : Status} → valid_status s ≡ true → terminal s ≡ false → s ⟶ no_response

pub can_transition-⟶ : (s t : Status) → can_transition s t ≡ true → s ⟶ t
unfolding can_transition terminal
can_transition-⟶ s t h = grind (arith, screen, invite, repeat, accept, reject, expire)

pub ⟶-can_transition : {s t : Status} → s ⟶ t → can_transition s t ≡ true
unfolding can_transition terminal
⟶-can_transition screen = refl
⟶-can_transition invite = refl
⟶-can_transition repeat = refl
⟶-can_transition accept = refl
⟶-can_transition (reject {s = s} v h) = ground arith
⟶-can_transition (expire {s = s} v h) = ground arith

-- The table accepts a move exactly if it is an edge of the board.
pub can_transition_iff : (s t : Status) → (can_transition s t ≡ true) ↔ (s ⟶ t)
can_transition_iff s t = (can_transition-⟶ s t, ⟶-can_transition)

-- A valid status is terminal exactly if no move leaves it.
pub terminal_iff :
    (s : Status)
    → valid_status s ≡ true
    → (terminal s ≡ true) ↔ ((t : Status) → can_transition s t ≡ false)
unfolding can_transition terminal
terminal_iff s v = (λ h t. ground arith, λ h. ground (arith, h rejected))
