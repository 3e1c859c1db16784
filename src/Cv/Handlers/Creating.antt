-- ===== src/Cv/Handlers/Creating.antt =====
-- A CV that comes in has its file, or has no row.
use mathlib.Core.Path.{subst}
use recruitment_platform_be.Prelude.{
  sym, ℕ, ◌≡◌, inl, inr, true, Option, none, some, List, ◌∷◌, ◌==◌, ==_iff, refl, arith, Bool-cases,
}
use recruitment_platform_be.Prelude.Action.{Result-cases}
use recruitment_platform_be.Prelude.Rows.{IsDistinct, any_of_row}
use recruitment_platform_be.Common.Tables.{Database, IsDatabase}
use recruitment_platform_be.Common.Text.{Text}
use recruitment_platform_be.Cv.Files.{UploadedCvFile, validate_uploaded_file}
use recruitment_platform_be.Cv.Entity.{Cv}
use recruitment_platform_be.Cv.Tables.{Tables, Storage, IsStorage, create}
use recruitment_platform_be.Cv.Handlers.{
  World, Date, new_cv, save_uploaded, create_cv, build_cv_file_key,
}
use recruitment_platform_be.Cv.Handlers.Filing.{
  cv_row, filed_elsewhere, upload-IsElsewhere, delete-IsElsewhere,
}
use recruitment_platform_be.Cv.Handlers.Purging.{IsCvSound, rows}

module _ {S O : Type 0} {db : Database S Tables} {storage : Storage O} (laws : IsDatabase db)
    (files : IsStorage storage) where
  saved-IsCvSound :
      (cv : Cv) (w : World S O)
      → cv_row cv.id (rows db w) ≡ none
      → (cv.file_key.cv_id == cv.id) ≡ true
      → storage.holds cv.file_key w.objects ≡ true
      → IsCvSound db storage w
      → IsCvSound db storage (save_uploaded db storage cv w).1
  unfolding save_uploaded create
  saved-IsCvSound cv w new own held (distinct, filed) =
      elim (laws.commit_outcome (create cv) w.store) [
        | inl (went, changed) ↦
            let e : rows db (save_uploaded db storage cv w).1 ≡ cv ∷ rows db w = ground arith in
            let o : (save_uploaded db storage cv w).1.objects ≡ w.objects = ground arith in
            (
              subst (IsDistinct (λ (c : Cv). c.id)) (sym e)
                  (ground (arith, any_of_row (λ (c : Cv). c.id) cv.id (rows db w)), distinct),
              λ k.
                  rw e (
                    rw o (ground (arith, filed k, ==_iff cv.id k, ==_iff cv.file_key.cv_id cv.id))),
            )
        | inr (x, failed, same) ↦
            let w' = (save_uploaded db storage cv w).1 in
            let e : rows db w' ≡ rows db w = ground arith in
            let o : w'.objects ≡ (storage.delete cv.file_key w.objects).1 = ground arith in
            (
              subst (IsDistinct (λ (c : Cv). c.id)) (sym e) distinct,
              λ k. elim (Bool-cases (k == cv.id)) [
                | inl here ↦ rw e (rw o (ground (arith, ==_iff k cv.id)))
                | inr elsewhere ↦ rw e (
                    rw o (
                      filed_elsewhere storage k cv.file_key.cv_id (rows db w) (rows db w) w.objects
                        (storage.delete cv.file_key w.objects).1
                        (delete-IsElsewhere storage files cv.file_key w.objects)
                        (ground (
                          arith,
                          ==_iff k cv.id,
                          ==_iff k cv.file_key.cv_id,
                          ==_iff cv.file_key.cv_id cv.id,
                        ))
                        refl (filed k)))
              ],
            )
      ]

  uploaded-IsCvSound :
      (cv : Cv) (b : List ℕ) (w : World S O)
      → cv_row cv.id (rows db w) ≡ none
      → (cv.file_key.cv_id == cv.id) ≡ true
      → IsCvSound db storage w
      → IsCvSound db storage (record w { objects = (storage.upload cv.file_key b w.objects).1 })
  uploaded-IsCvSound cv b w new own (distinct, filed) = (
    distinct,
    λ k. elim (Bool-cases (k == cv.id)) [
      | inl here ↦ ground (arith, ==_iff k cv.id)
      | inr elsewhere ↦
          filed_elsewhere storage k cv.file_key.cv_id (rows db w) (rows db w) w.objects
            (storage.upload cv.file_key b w.objects).1
            (upload-IsElsewhere storage files cv.file_key b w.objects)
            (ground
              (arith, ==_iff k cv.id, ==_iff k cv.file_key.cv_id, ==_iff cv.file_key.cv_id cv.id))
            refl (filed k)
    ],
  )

  pub create-IsCvSound :
      (max : ℕ) (date : Date) (user_id fresh : ℕ) (title : Text) (file : Option UploadedCvFile)
      (w : World S O)
      → cv_row fresh (rows db w) ≡ none
      → IsCvSound db storage w
      → IsCvSound db storage (create_cv db storage max date user_id fresh title file w).1
  unfolding create_cv validate_uploaded_file new_cv build_cv_file_key
  create-IsCvSound max date user_id fresh title none w new sound = sound
  create-IsCvSound max date user_id fresh title (some file) w new sound =
      elim (Result-cases (validate_uploaded_file (some file) max)) [
        | inr (e, refused) ↦
            let same : (create_cv db storage max date user_id fresh title (some file) w).1 ≡ w =
              ground arith in
            subst (IsCvSound db storage) (sym same) sound
        | inl (t, accepted) ↦
            let cv = new_cv date user_id fresh title file t in
            let own : (cv.file_key.cv_id == cv.id) ≡ true = ground (arith, ==_iff fresh fresh) in
            let (done, o) = storage.upload cv.file_key file.buffer w.objects in
            let w₁ : World S O = record w { objects = o } in
            let sound₁ = uploaded-IsCvSound cv file.buffer w new own sound in
            elim (Bool-cases done) [
              | inr threw ↦
                  let after : (create_cv db storage max date user_id fresh title (some file) w).1
                      ≡ w₁ =
                    ground arith in
                  subst (IsCvSound db storage) (sym after) sound₁
              | inl there ↦
                  let after : (create_cv db storage max date user_id fresh title (some file) w).1
                      ≡ (save_uploaded db storage cv w₁).1 =
                    ground arith in
                  subst (IsCvSound db storage) (sym after) (
                    saved-IsCvSound cv w₁ new own
                      (files.upload_holds cv.file_key file.buffer w.objects there) sound₁)
            ]
      ]
