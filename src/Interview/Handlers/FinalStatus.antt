-- ===== src/Interview/Handlers/FinalStatus.antt =====
-- The interview module keeps its own list of the statuses that end an application, as strings.
use recruitment_platform_be.Prelude.{◌≡◌, refl}
use recruitment_platform_be.Application.Status.{
  ApplicationStatus, applied, value, is_terminal_application_status,
}
use recruitment_platform_be.Interview.Handlers.{is_final_status}

-- The list agrees with the transition table of the application module: a status is refused for
-- interviews exactly when no move leads out of it.
pub is_final_status-value :
    (s : ApplicationStatus) → is_final_status (value s) ≡ is_terminal_application_status s
unfolding is_final_status value is_terminal_application_status
is_final_status-value applied = refl
is_final_status-value _ = refl
