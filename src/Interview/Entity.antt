-- ===== src/Interview/Entity.antt =====
-- src/modules/interview/domain/entities/interview-schedule.entity.ts. A time is its number of
-- milliseconds. A method that throws part-way returns no entity: its caller drops the object.
pub mod Lifecycle
use Prim.Native.String.{String}
use text.Mathlib.Text.{◌==◌ as str_eq}
use recruitment_platform_be.Prelude.{
  ℕ, Bool, true, false, Option, none, some, List, [], ◌∷◌, any, not, leb, ◌==◌, ◌&&◌, or_else,
  if◌then◌else◌,
}
use recruitment_platform_be.Prelude.Action.{Result, ok, err}
use recruitment_platform_be.Interview.Exceptions.{
  InterviewException, interview_already_cancelled, cannot_reschedule_cancelled_interview,
  interview_time_in_past, interview_not_actionable, interview_location_or_meeting_link_required,
}

pub data InterviewStatus : Type 0 where
  scheduled rescheduled completed cancelled no_show : InterviewStatus

abbrev pub position : InterviewStatus → ℕ
position InterviewStatus.scheduled = 0
position InterviewStatus.rescheduled = 1
position InterviewStatus.completed = 2
position InterviewStatus.cancelled = 3
position InterviewStatus.no_show = 4

abbrev pub is_status : InterviewStatus → InterviewStatus → Bool
is_status a b = position a == position b

abbrev actionable_statuses : List InterviewStatus
actionable_statuses = InterviewStatus.scheduled ∷ InterviewStatus.rescheduled ∷ []

abbrev is_actionable : InterviewStatus → Bool
is_actionable status = any (λ s. is_status s status) actionable_statuses

pub record InterviewSchedule : Type 0 where
  pub id : ℕ
  pub job_application_id : ℕ
  pub scheduled_at : ℕ
  pub duration_minutes : Option ℕ
  pub location : Option String
  pub meeting_link : Option String
  pub note : Option String
  pub status : InterviewStatus
  pub created_by_id : Option ℕ

-- `!text`: null and the empty text are falsy.
abbrev pub is_falsy : Option String → Bool
is_falsy none = true
is_falsy (some s) = str_eq s ""

pub ensure_location_or_meeting_link :
    InterviewSchedule → Result InterviewException InterviewSchedule
ensure_location_or_meeting_link i =
    if is_falsy i.location && is_falsy i.meeting_link
    then err interview_location_or_meeting_link_required
    else ok i

-- The constructor, over the fields that the caller gives.
unfoldable pub new :
    (id job_application_id scheduled_at : ℕ) (duration_minutes : Option ℕ)
    (location meeting_link note : Option String) (status : Option InterviewStatus)
    (created_by_id : Option ℕ)
    → Result InterviewException InterviewSchedule
unfolding ensure_location_or_meeting_link
new id job_application_id scheduled_at duration_minutes location meeting_link note status
      created_by_id =
    ensure_location_or_meeting_link (record {
      id = id;
      job_application_id = job_application_id;
      scheduled_at = scheduled_at;
      duration_minutes = duration_minutes;
      location = location;
      meeting_link = meeting_link;
      note = note;
      status = or_else status InterviewStatus.scheduled;
      created_by_id = created_by_id;
    })

-- The optional arguments of `reschedule`: `none` is `undefined`, `some none` is `null`.
pub record Changes : Type 0 where
  pub location : Option (Option String)
  pub meeting_link : Option (Option String)
  pub note : Option (Option String)
  pub duration_minutes : Option (Option ℕ)

unfoldable pub reschedule :
    (now : ℕ)
    → InterviewSchedule
    → (scheduled_at : ℕ) → Changes
    → Result InterviewException InterviewSchedule
unfolding ensure_location_or_meeting_link
reschedule now i scheduled_at changes =
    if is_status i.status InterviewStatus.cancelled
    then err cannot_reschedule_cancelled_interview
    else if not (is_actionable i.status)
    then err (interview_not_actionable "rescheduled")
    else if leb scheduled_at now
    then err interview_time_in_past
    else elim (ensure_location_or_meeting_link (record i {
      scheduled_at = scheduled_at;
      location = or_else changes.location i.location;
      meeting_link = or_else changes.meeting_link i.meeting_link;
      note = or_else changes.note i.note;
      duration_minutes = or_else changes.duration_minutes i.duration_minutes;
    })) [ ok j ↦ ok (record j { status = InterviewStatus.rescheduled }) | err e ↦ err e ]

unfoldable pub cancel : InterviewSchedule → Result InterviewException InterviewSchedule
cancel i =
    if is_status i.status InterviewStatus.cancelled
    then err interview_already_cancelled
    else if not (is_actionable i.status)
    then err (interview_not_actionable "cancelled")
    else ok (record i { status = InterviewStatus.cancelled })

unfoldable pub complete : InterviewSchedule → Result InterviewException InterviewSchedule
complete i =
    if not (is_actionable i.status)
    then err (interview_not_actionable "completed")
    else ok (record i { status = InterviewStatus.completed })

unfoldable pub mark_no_show : InterviewSchedule → Result InterviewException InterviewSchedule
mark_no_show i =
    if not (is_actionable i.status)
    then err (interview_not_actionable "marked as no-show")
    else ok (record i { status = InterviewStatus.no_show })

unfoldable pub is_active : InterviewSchedule → Bool
is_active i = is_actionable i.status
