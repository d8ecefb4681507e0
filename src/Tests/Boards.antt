-- ===== src/Tests/Boards.antt =====
-- The board of an application.
use cv_agent.Base.{◌≡◌, refl, ◌↔◌, true}
use cv_agent.Tracker.Domain.{applied, screening, interviewing, offer}
use cv_agent.Tracker.StateMachine.{can_transition, ◌⟶◌, can_transition_iff}
use cv_agent.Tracker.StateMachine.Paths.{◌⟶*◌, here, move, no_return}

can_transition_iff_example : (can_transition interviewing offer ≡ true) ↔ (interviewing ⟶ offer)
can_transition_iff_example = can_transition_iff interviewing offer

no_return_example : ¬ (interviewing ⟶* applied)
unfolding can_transition
no_return_example =
    no_return applied interviewing (move screening refl (move interviewing refl here)) (λ p. cc)
