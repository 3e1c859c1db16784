-- ===== src/Job/Entity.antt =====
-- src/modules/job/domain/entities/job.entity.ts and the salary range of
-- src/modules/job/domain/value-objects/salary-range.vo.ts. A time is its number of milliseconds. The
-- snapshots of company, category and skills are no part of a job; the employment type, the work mode
-- and the level are the strings that the requests give.
use Prim.Native.String.{String}
use recruitment_platform_be.Prelude.{
  ℕ, Bool, true, false, Option, none, some, List, ◌==◌, ◌&&◌, ◌||◌, not, ltb, is_some, or_else,
  if◌then◌else◌,
}
use recruitment_platform_be.Prelude.Action.{Result, ok, err, check}
use recruitment_platform_be.Common.Text.{Text, is_empty}
use recruitment_platform_be.Job.Exceptions.{
  JobException, job_already_open, job_already_closed, job_not_closed, job_already_deleted,
  job_ownership, invalid_salary_range,
}

pub data JobStatus : Type 0 where
  draft open_status closed : JobStatus

abbrev pub is_open_status : JobStatus → Bool
is_open_status JobStatus.open_status = true
is_open_status _ = false

abbrev pub is_closed : JobStatus → Bool
is_closed JobStatus.closed = true
is_closed _ = false

pub record SalaryRange : Type 0 where
  pub min : Option ℕ
  pub max : Option ℕ
  pub currency : String

abbrev pub exceeds : Option ℕ → Option ℕ → Bool
exceeds (some low) (some high) = ltb high low
exceeds _ _ = false

-- The constructor.
unfoldable pub salary_range :
    (min max : Option ℕ) (currency : String) → Result JobException SalaryRange
salary_range min max currency =
    if exceeds min max
    then err invalid_salary_range
    else ok (record { min = min; max = max; currency = currency })

pub record Job : Type 0 where
  pub id : ℕ
  pub title : Text
  pub description : Text
  pub company_id : ℕ
  pub category_id : Option ℕ
  pub location : Text
  pub address : Option Text
  pub employment_type : String
  pub work_mode : String
  pub level : Option String
  pub status : JobStatus
  pub view_count : ℕ
  pub salary : SalaryRange
  pub requirements : List Text
  pub benefits : List Text
  pub working_hours : List Text
  pub expires_at : Option ℕ
  pub deleted_at : Option ℕ
  pub posted_by_id : ℕ

-- `open()`
unfoldable pub open_it : Job → Result JobException Job
open_it j =
    if is_open_status j.status
    then err job_already_open
    else ok (record j { status = JobStatus.open_status })

unfoldable pub close : Job → Result JobException Job
close j =
    if is_closed j.status
    then err job_already_closed
    else ok (record j { status = JobStatus.closed })

unfoldable pub reopen : Job → Result JobException Job
reopen j =
    if not (is_closed j.status)
    then err job_not_closed
    else ok (record j { status = JobStatus.open_status })

abbrev pub is_deleted : Job → Bool
is_deleted j = is_some j.deleted_at

unfoldable pub soft_delete : (now : ℕ) → Job → Result JobException Job
soft_delete now j =
    if is_deleted j
    then err job_already_deleted
    else ok (record j { deleted_at = some now; status = JobStatus.closed })

unfoldable pub ensure_owner : Job → (user_id : ℕ) → Result JobException (Unit {0})
ensure_owner j user_id = check (j.posted_by_id == user_id) job_ownership

unfoldable pub is_expired : (now : ℕ) → Job → Bool
is_expired now j = elim j.expires_at [ some at ↦ ltb at now | none ↦ false ]

unfoldable pub is_open : (now : ℕ) → Job → Bool
unfolding is_expired
is_open now j = is_open_status j.status && not (is_expired now j) && not (is_deleted j)

-- The argument of `updateDetails`: the outer `none` is `undefined`.
pub record Details : Type 0 where
  pub title : Option Text
  pub description : Option Text
  pub location : Option Text
  pub address : Option (Option Text)
  pub employment_type : Option String
  pub work_mode : Option String
  pub level : Option (Option String)
  pub category_id : Option (Option ℕ)
  pub requirements : Option (List Text)
  pub benefits : Option (List Text)
  pub working_hours : Option (List Text)
  pub salary_min : Option ℕ
  pub salary_max : Option ℕ
  pub currency : Option String
  pub expires_at : Option ℕ

-- `if (text) this.x = text`
abbrev if_given : Option Text → Text → Text
if_given none old = old
if_given (some s) old = if is_empty s then old else s

-- `min ?? this.salary.min ?? null`
abbrev or_old : {A : Type 0} → Option A → Option A → Option A
or_old none old = old
or_old (some a) old = some a

unfoldable pub update_details : Details → Job → Result JobException Job
unfolding salary_range
update_details data' j =
    let changed = record j {
      title = if_given data'.title j.title;
      description = if_given data'.description j.description;
      location = if_given data'.location j.location;
      address = or_else data'.address j.address;
      employment_type = or_else data'.employment_type j.employment_type;
      work_mode = or_else data'.work_mode j.work_mode;
      level = or_else data'.level j.level;
      category_id = or_else data'.category_id j.category_id;
      requirements = or_else data'.requirements j.requirements;
      benefits = or_else data'.benefits j.benefits;
      working_hours = or_else data'.working_hours j.working_hours;
      expires_at = or_old data'.expires_at j.expires_at;
    } in
    if is_some data'.salary_min || is_some data'.salary_max || is_some data'.currency
    then elim (salary_range (or_old data'.salary_min j.salary.min)
        (or_old data'.salary_max j.salary.max) (or_else data'.currency j.salary.currency)) [
          | ok s ↦ ok (record changed { salary = s })
          | err e ↦ err e
        ]
    else ok changed
