-- ===== src/Interview/Entity/Lifecycle.antt =====
-- The life of one interview.
use Prim.Native.String.{String}
use recruitment_platform_be.Prelude.{
  ℕ, ◌<◌, ◌≡◌, true, false, Option, List, [], ◌∷◌, ◌&&◌, arith, refl, inl, inr,
}
use recruitment_platform_be.Prelude.Action.{Result, ok, err, is_ok, Result-cases}
use recruitment_platform_be.Interview.Exceptions.{InterviewException}
use recruitment_platform_be.Interview.Entity.{
  InterviewStatus, InterviewSchedule, Changes, rescheduled, is_falsy, new, reschedule, cancel,
  complete, mark_no_show, is_active,
}

pub data Call : Type 0 where
  reschedule_call : (now scheduled_at : ℕ) → Changes → Call
  cancel_call complete_call no_show_call : Call

abbrev pub serve : Call → InterviewSchedule → Result InterviewException InterviewSchedule
serve (reschedule_call now at changes) i = reschedule now i at changes
serve cancel_call i = cancel i
serve complete_call i = complete i
serve no_show_call i = mark_no_show i

-- The interview has a place: a location or a link that is not empty.
abbrev pub IsPlaced : InterviewSchedule → Type 0
IsPlaced i = (is_falsy i.location && is_falsy i.meeting_link) ≡ false

pub new-IsPlaced :
    (id application at : ℕ) (duration : Option ℕ) (location link note : Option String)
    (status : Option InterviewStatus) (by : Option ℕ) (i : InterviewSchedule)
    → new id application at duration location link note status by ≡ ok i
    → IsPlaced i
unfolding new
new-IsPlaced id application at duration location link _ status by i h = ground arith

pub serve_active :
    (c : Call) (i j : InterviewSchedule)
    → IsPlaced i
    → serve c i ≡ ok j
    → (is_active i ≡ true)
      × IsPlaced j
      × (j.id ≡ i.id)
      × (j.job_application_id ≡ i.job_application_id)
unfolding is_active reschedule cancel complete mark_no_show
serve_active (reschedule_call now at changes) i j p h =
    (ground arith, ground arith, ground arith, ground arith)
serve_active cancel_call i j p h = (ground arith, ground arith, ground arith, ground arith)
serve_active complete_call i j p h = (ground arith, ground arith, ground arith, ground arith)
serve_active no_show_call i j p h = (ground arith, ground arith, ground arith, ground arith)

-- The calls made on an interview, one after the other; one that throws is left out.
unfoldable pub serve_all : List Call → InterviewSchedule → InterviewSchedule
serve_all [] i = i
serve_all (c ∷ cs) i = serve_all cs (elim (serve c i) [ ok j ↦ j | err e ↦ i ])

serve_inactive :
    (c : Call) (i : InterviewSchedule) → is_active i ≡ false → is_ok (serve c i) ≡ false
unfolding is_active reschedule cancel complete mark_no_show
serve_inactive (reschedule_call now at changes) i h = ground arith
serve_inactive cancel_call i h = ground arith
serve_inactive complete_call i h = ground arith
serve_inactive no_show_call i h = ground arith

-- An interview that is cancelled, completed or missed stays as it is under any calls.
pub serve_all_inactive :
    (cs : List Call) (i : InterviewSchedule) → is_active i ≡ false → serve_all cs i ≡ i
unfolding serve_all
serve_all_inactive [] i h = refl
serve_all_inactive (c ∷ cs) i h = elim (Result-cases (serve c i)) [
  | inl (j, e) ↦ ground (arith, serve_inactive c i h)
  | inr (x, e) ↦ rw e (serve_all_inactive cs i h)
]

-- An interview that is moved was active, takes place at the time asked for, which is in the future,
-- has a location or a link, keeps its application and its creator, and is marked as moved.
pub reschedule_accepted :
    (now at : ℕ) (changes : Changes) (i j : InterviewSchedule)
    → reschedule now i at changes ≡ ok j
    → (is_active i ≡ true)
      × (now < at)
      × (j.scheduled_at ≡ at)
      × IsPlaced j
      × (j.job_application_id ≡ i.job_application_id)
      × (j.created_by_id ≡ i.created_by_id)
      × (j.status ≡ rescheduled)
unfolding reschedule is_active
reschedule_accepted now at changes i j h = (
  ground arith,
  ground arith,
  ground arith,
  ground arith,
  ground arith,
  ground arith,
  ground arith,
)
