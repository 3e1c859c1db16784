-- ===== src/Cv/Tables/Memory.antt =====
-- A storage in memory that keeps the promises.
use text.Mathlib.Text.{◌==◌ as str_eq}
use text.Mathlib.TextEquality.{eq_iff}
use recruitment_platform_be.Prelude.{
  ◌≡◌, ◌≢◌, inl, inr, Bool, true, false, ◌==◌, ◌&&◌, ==_iff, refl, arith, Bool-cases, if◌then◌else◌,
}
use recruitment_platform_be.Cv.Entity.{FileKey}
use recruitment_platform_be.Cv.Tables.{Storage, IsStorage}

abbrev pub Objects : Type 0
Objects = FileKey → Bool

abbrev same_key : FileKey → FileKey → Bool
same_key g k =
    g.user_id == k.user_id
    && g.year == k.year
    && g.month == k.month
    && g.cv_id == k.cv_id
    && str_eq g.extension k.extension

abbrev put : FileKey → Bool → Objects → Objects
put k b o g = if same_key g k then b else o g

abbrev pub storage : Storage Objects
storage = record {
  holds = λ k o. o k;
  upload = λ k buffer o. (true, put k true o);
  delete = λ k o. (true, put k false o);
}

same_key_self : (k : FileKey) → same_key k k ≡ true
same_key_self k = ground (
  arith,
  ==_iff k.user_id k.user_id,
  ==_iff k.year k.year,
  ==_iff k.month k.month,
  ==_iff k.cv_id k.cv_id,
  eq_iff k.extension k.extension,
)

eq_of_same_key : (g k : FileKey) → same_key g k ≡ true → g ≡ k
eq_of_same_key g k h = ground (
  arith,
  ==_iff g.user_id k.user_id,
  ==_iff g.year k.year,
  ==_iff g.month k.month,
  ==_iff g.cv_id k.cv_id,
  eq_iff g.extension k.extension,
)

put_elsewhere : (k g : FileKey) (b : Bool) (o : Objects) → g ≢ k → put k b o g ≡ o g
put_elsewhere k g b o differ = elim (Bool-cases (same_key g k)) [
  | inl same ↦ absurd (differ (eq_of_same_key g k same))
  | inr other ↦ rw (other, if◌then◌else◌) refl
]

put_self : (k : FileKey) (b : Bool) (o : Objects) → put k b o k ≡ b
put_self k b o = rw (same_key_self k) refl

pub storage-IsStorage : IsStorage storage
storage-IsStorage = record {
  upload_holds = λ k b o done. put_self k true o;
  upload-IsElsewhere = λ k g b o differ. put_elsewhere k g true o differ;
  delete-IsElsewhere = λ k g o differ. put_elsewhere k g false o differ;
}
