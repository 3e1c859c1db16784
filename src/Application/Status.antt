-- ===== src/Application/Status.antt =====
-- src/modules/application/domain/value-objects/application-status.vo.ts
pub mod Pipeline
use Prim.Native.String.{String}
use recruitment_platform_be.Prelude.{ℕ, Bool, List, [], ◌∷◌, length, any, ◌==◌}

pub data ApplicationStatus : Type 0 where
  applied screening shortlisted interview offer hired rejected withdrawn : ApplicationStatus

-- The members of the enum are compared as strings; their position tells them apart as well.
abbrev pub position : ApplicationStatus → ℕ
position ApplicationStatus.applied = 0
position ApplicationStatus.screening = 1
position ApplicationStatus.shortlisted = 2
position ApplicationStatus.interview = 3
position ApplicationStatus.offer = 4
position ApplicationStatus.hired = 5
position ApplicationStatus.rejected = 6
position ApplicationStatus.withdrawn = 7

-- The string that a member of the enum stands for, which other modules compare with.
unfoldable pub value : ApplicationStatus → String
value ApplicationStatus.applied = "APPLIED"
value ApplicationStatus.screening = "SCREENING"
value ApplicationStatus.shortlisted = "SHORTLISTED"
value ApplicationStatus.interview = "INTERVIEW"
value ApplicationStatus.offer = "OFFER"
value ApplicationStatus.hired = "HIRED"
value ApplicationStatus.rejected = "REJECTED"
value ApplicationStatus.withdrawn = "WITHDRAWN"

abbrev pub is_status : ApplicationStatus → ApplicationStatus → Bool
is_status a b = position a == position b

-- FORWARD_TRANSITIONS
forward_transitions : ApplicationStatus → List ApplicationStatus
forward_transitions ApplicationStatus.applied =
    ApplicationStatus.screening ∷ ApplicationStatus.rejected ∷ []
forward_transitions ApplicationStatus.screening =
    ApplicationStatus.shortlisted ∷ ApplicationStatus.rejected ∷ []
forward_transitions ApplicationStatus.shortlisted =
    ApplicationStatus.interview ∷ ApplicationStatus.rejected ∷ []
forward_transitions ApplicationStatus.interview =
    ApplicationStatus.offer ∷ ApplicationStatus.rejected ∷ []
forward_transitions ApplicationStatus.offer =
    ApplicationStatus.hired ∷ ApplicationStatus.rejected ∷ []
forward_transitions ApplicationStatus.hired = []
forward_transitions ApplicationStatus.rejected = []
forward_transitions ApplicationStatus.withdrawn = []

unfoldable pub is_terminal_application_status : ApplicationStatus → Bool
unfolding forward_transitions
is_terminal_application_status status = length (forward_transitions status) == 0

unfoldable pub can_transition_application_status : ApplicationStatus → ApplicationStatus → Bool
unfolding forward_transitions
can_transition_application_status from to = any (λ s. is_status s to) (forward_transitions from)
