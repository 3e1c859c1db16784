-- ===== src/Application/Status/Pipeline.antt =====
-- The pipeline as a relation, and the transition table measured against it.
use recruitment_platform_be.Prelude.{◌≡◌, ◌↔◌, true, false, arith, refl}
use recruitment_platform_be.Application.Status.{
  ApplicationStatus, applied, screening, shortlisted, interview, offer, hired, rejected, withdrawn,
  is_terminal_application_status, can_transition_application_status,
}

-- The statuses that a recruiter still has work in.
pub data IsOpen : ApplicationStatus → Type 0 where
  open_applied : IsOpen applied
  open_screening : IsOpen screening
  open_shortlisted : IsOpen shortlisted
  open_interview : IsOpen interview
  open_offer : IsOpen offer

-- One move of the recruiter: the next stage, or a rejection at any stage.
infix 40 ◌⟶◌ ◌↝◌
pub data ◌⟶◌ : ApplicationStatus → ApplicationStatus → Type 0 where
  screen : applied ⟶ screening
  shortlist : screening ⟶ shortlisted
  invite : shortlisted ⟶ interview
  propose : interview ⟶ offer
  hire : offer ⟶ hired
  refuse : {s : ApplicationStatus} → IsOpen s → s ⟶ rejected

-- One change of an application, by the recruiter or by the candidate.
pub data ◌↝◌ : ApplicationStatus → ApplicationStatus → Type 0 where
  forward : {s t : ApplicationStatus} → s ⟶ t → s ↝ t
  leave : {s : ApplicationStatus} → IsOpen s → s ↝ withdrawn

pub ruleset stages = (open_applied, open_screening, open_shortlisted, open_interview, open_offer)

ruleset moves = (screen, shortlist, invite, propose, hire, refuse)

⟶_of_can_transition :
    (s t : ApplicationStatus) → can_transition_application_status s t ≡ true → s ⟶ t
unfolding can_transition_application_status
⟶_of_can_transition s t h = grind (arith, stages, moves)

refuse_allowed :
    {s : ApplicationStatus} → IsOpen s → can_transition_application_status s rejected ≡ true
unfolding can_transition_application_status
refuse_allowed open_applied = refl
refuse_allowed open_screening = refl
refuse_allowed open_shortlisted = refl
refuse_allowed open_interview = refl
refuse_allowed open_offer = refl

can_transition_of_⟶ :
    {s t : ApplicationStatus} → s ⟶ t → can_transition_application_status s t ≡ true
unfolding can_transition_application_status
can_transition_of_⟶ screen = refl
can_transition_of_⟶ shortlist = refl
can_transition_of_⟶ invite = refl
can_transition_of_⟶ propose = refl
can_transition_of_⟶ hire = refl
can_transition_of_⟶ (refuse o) = refuse_allowed o

-- The transition table allows a move exactly when the pipeline has it: the next stage in order, or
-- a rejection of an application that is still open.
pub can_transition_application_status_iff :
    (s t : ApplicationStatus) → (can_transition_application_status s t ≡ true) ↔ (s ⟶ t)
can_transition_application_status_iff s t = (⟶_of_can_transition s t, can_transition_of_⟶)

pub IsOpen-of_not_terminal :
    (s : ApplicationStatus) → is_terminal_application_status s ≡ false → IsOpen s
unfolding is_terminal_application_status
IsOpen-of_not_terminal s h = grind (arith, stages)

pub not_terminal_of_IsOpen :
    {s : ApplicationStatus} → IsOpen s → is_terminal_application_status s ≡ false
unfolding is_terminal_application_status
not_terminal_of_IsOpen open_applied = refl
not_terminal_of_IsOpen open_screening = refl
not_terminal_of_IsOpen open_shortlisted = refl
not_terminal_of_IsOpen open_interview = refl
not_terminal_of_IsOpen open_offer = refl
