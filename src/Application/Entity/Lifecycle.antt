-- ===== src/Application/Entity/Lifecycle.antt =====
-- The life of one application under any sequence of requests.
use recruitment_platform_be.Prelude.{
  ◌≡◌, ◌+◌, ◌≤◌, ℕ, List, [], ◌∷◌, length, true, false, arith, refl, ◌≢◌, inl, inr, ◌⊎◌,
}
use recruitment_platform_be.Prelude.Action.{Result, ok, err, Result-cases}
use recruitment_platform_be.Application.Status.{
  ApplicationStatus, applied, screening, shortlisted, interview, offer, hired, withdrawn,
  is_terminal_application_status, can_transition_application_status,
}
use recruitment_platform_be.Application.Status.Pipeline.{
  ◌↝◌, forward, leave, can_transition_application_status_iff, IsOpen-of_not_terminal,
}
use recruitment_platform_be.Application.Exceptions.{
  ApplicationException, invalid_application_status_transition,
}
use recruitment_platform_be.Application.Entity.{JobApplication, transition_to, withdraw}

pub data Request : Type 0 where
  transition : ApplicationStatus → Request
  withdrawal : Request

abbrev pub serve : Request → JobApplication → Result ApplicationException JobApplication
serve (transition t) a = transition_to a t
serve withdrawal a = withdraw a

abbrev after : Result ApplicationException JobApplication → JobApplication → JobApplication
after (ok a) _ = a
after (err _) a = a

-- The statuses that an application enters, in order; a refused request enters none.
abbrev entered :
    Result ApplicationException JobApplication → List ApplicationStatus → List ApplicationStatus
entered (ok a) rest = a.status ∷ rest
entered (err _) rest = rest

unfoldable pub trace : JobApplication → List Request → List ApplicationStatus
trace a [] = []
trace a (r ∷ rs) = entered (serve r a) (trace (after (serve r a) a) rs)

unfoldable pub final : JobApplication → List Request → JobApplication
final a [] = a
final a (r ∷ rs) = final (after (serve r a) a) rs

-- The stages from a status up to `hired`, for a status from which `hired` can be reached.
abbrev pub way_to_hired : ApplicationStatus → List ApplicationStatus
way_to_hired applied = screening ∷ shortlisted ∷ interview ∷ offer ∷ hired ∷ []
way_to_hired screening = shortlisted ∷ interview ∷ offer ∷ hired ∷ []
way_to_hired shortlisted = interview ∷ offer ∷ hired ∷ []
way_to_hired interview = offer ∷ hired ∷ []
way_to_hired offer = hired ∷ []
way_to_hired _ = []

transition_to-eq-ok :
    (a b : JobApplication) (t : ApplicationStatus)
    → transition_to a t ≡ ok b
    → (can_transition_application_status a.status t ≡ true) × (b ≡ record a { status = t })
unfolding transition_to
transition_to-eq-ok a b t h = ground arith

withdraw-eq-ok :
    (a b : JobApplication)
    → withdraw a ≡ ok b
    → (is_terminal_application_status a.status ≡ false) × (b ≡ record a { status = withdrawn })
unfolding withdraw
withdraw-eq-ok a b h = ground arith

-- A request that is served changes nothing but the status, and that along the pipeline: a recruiter
-- moves to the next stage or rejects, and a candidate leaves an open application.
pub serve-↝ :
    (r : Request) (a b : JobApplication)
    → serve r a ≡ ok b
    → (a.status ↝ b.status) × (b ≡ record a { status = b.status })
serve-↝ (transition t) a b h =
    let (allowed, same) = transition_to-eq-ok a b t h in
    (rw same (forward ((can_transition_application_status_iff a.status t).0 allowed)), rw same)
serve-↝ withdrawal a b h =
    let (allowed, same) = withdraw-eq-ok a b h in
    (rw same (leave (IsOpen-of_not_terminal a.status allowed)), rw same)

-- How many more stages an application can pass.
abbrev pub height : ApplicationStatus → ℕ
height applied = 5
height screening = 4
height shortlisted = 3
height interview = 2
height offer = 1
height _ = 0

serve-height :
    (r : Request) (a : JobApplication)
    → length (entered (serve r a) []) + height (after (serve r a) a).status ≤ height a.status
unfolding transition_to withdraw can_transition_application_status is_terminal_application_status
serve-height r a = ground arith

length-entered :
    (x : Result ApplicationException JobApplication) (rest : List ApplicationStatus)
    → length (entered x rest) ≡ length (entered x []) + length rest
length-entered (ok a) rest = omega arith
length-entered (err e) rest = omega arith

-- Whatever is requested, an application changes its status at most five times.
pub length-trace : (a : JobApplication) (rs : List Request) → length (trace a rs) ≤ height a.status
unfolding trace
length-trace a [] = omega arith
length-trace a (r ∷ rs) = omega (
  arith,
  serve-height r a,
  length-entered (serve r a) (trace (after (serve r a) a) rs),
  length-trace (after (serve r a) a) rs,
)

serve_terminal :
    (r : Request) (a : JobApplication)
    → is_terminal_application_status a.status ≡ true
    → (e : ApplicationException) × (serve r a ≡ err e)
unfolding transition_to withdraw can_transition_application_status is_terminal_application_status
serve_terminal (transition t) a h = (invalid_application_status_transition a.status t, ground arith)
serve_terminal withdrawal a h =
    (invalid_application_status_transition a.status withdrawn, ground arith)

-- A hired, rejected or withdrawn application stays as it is under any requests.
pub terminal_absorbs :
    (a : JobApplication) (rs : List Request)
    → is_terminal_application_status a.status ≡ true
    → (final a rs ≡ a) × (trace a rs ≡ [])
unfolding final trace
terminal_absorbs a [] h = (refl, refl)
terminal_absorbs a (r ∷ rs) h =
    let (e, refused) = serve_terminal r a h in rw refused (terminal_absorbs a rs h)

serve_way :
    (r : Request) (a b : JobApplication)
    → serve r a ≡ ok b
    → (b.status ∷ way_to_hired b.status ≡ way_to_hired a.status)
      ⊎ ((is_terminal_application_status b.status ≡ true) × (b.status ≢ hired))
unfolding transition_to withdraw can_transition_application_status is_terminal_application_status
serve_way r a b h = ground arith

hired_from :
    (b : JobApplication) (rs : List Request) (way : List ApplicationStatus)
    → (final b rs).status ≡ hired
    → trace b rs ≡ way_to_hired b.status
    → (b.status ∷ way_to_hired b.status ≡ way)
      ⊎ ((is_terminal_application_status b.status ≡ true) × (b.status ≢ hired))
    → b.status ∷ trace b rs ≡ way
hired_from b rs way h ih (inl same) = rw ih same
hired_from b rs way h ih (inr (ended, other)) =
    absurd (other (rw (terminal_absorbs b rs ended).0 at h))

-- An application is hired only by passing every stage left on the pipeline, once each, in order.
pub hired_by_pipeline :
    (a : JobApplication) (rs : List Request)
    → (final a rs).status ≡ hired
    → trace a rs ≡ way_to_hired a.status
unfolding final trace
hired_by_pipeline a [] h = ground arith
hired_by_pipeline a (r ∷ rs) h = elim (Result-cases (serve r a)) [
  | inl (b, e) ↦ rw e (
      hired_from b rs _ (rw (e, final) at h) (hired_by_pipeline b rs (rw (e, final) at h))
        (serve_way r a b e))
  | inr (x, e) ↦ rw e (hired_by_pipeline a rs (rw (e, final) at h))
]
