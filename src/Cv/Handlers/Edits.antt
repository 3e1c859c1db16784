-- ===== src/Cv/Handlers/Edits.antt =====
-- What a command on one CV does: nothing, or one update by the owner.
use recruitment_platform_be.Prelude.{
  ℕ, ◌≡◌, ◌⊎◌, inl, inr, true, false, Option, none, some, ◌==◌, refl, arith, Option-cases,
  Bool-cases,
}
use recruitment_platform_be.Prelude.Action.{Result-cases}
use recruitment_platform_be.Common.Tables.{Database}
use recruitment_platform_be.Common.Text.{Text}
use recruitment_platform_be.Cv.Entity.{Cv, publish, soft_delete, ensure_owner, update_title}
use recruitment_platform_be.Cv.Tables.{
  Tables, Storage, find_by_id, has_active_application_reference, update,
}
use recruitment_platform_be.Cv.Handlers.{World, find_owned, publish_cv, update_cv, delete_cv}

module _ {S O : Type 0} (db : Database S Tables) (storage : Storage O) where
  -- A command on one CV leaves the world as it is, or its owner updates the row that is found: the
  -- file stays, and the CV is deleted only if no ongoing application refers to it.
  abbrev pub Edits : (user_id cv_id : ℕ) → World S O → World S O → Type 0
  Edits user_id cv_id w w' =
      (w' ≡ w)
      ⊎ ((c : Cv) × (x : Cv) × (find_by_id cv_id (db.tables w.store) ≡ some c)
          × ((c.user_id == user_id) ≡ true)
          × (x.id ≡ c.id)
          × (x.file_key ≡ c.file_key)
          × ((x.deleted_at ≡ c.deleted_at)
              ⊎ (has_active_application_reference cv_id (db.tables w.store) ≡ false))
          × (w' ≡ record w { store = (db.commit (update x) w.store).1 }))

  pub publish-Edits :
      (user_id cv_id : ℕ) (w : World S O)
      → Edits user_id cv_id w (publish_cv db storage user_id cv_id w).1
  unfolding publish_cv find_owned ensure_owner publish
  publish-Edits user_id cv_id w = elim (Option-cases (find_by_id cv_id (db.tables w.store))) [
    | inl missing ↦ inl (ground arith)
    | inr (c, there) ↦ elim (Bool-cases (c.user_id == user_id)) [
      | inr other ↦ inl (ground arith)
      | inl owner ↦ elim (Result-cases (publish c)) [
        | inr (e, refused) ↦ inl (ground arith)
        | inl (x, done) ↦
            inr (c, x, there, owner, ground arith, ground arith, inl (ground arith), ground arith)
      ]
    ]
  ]

  pub update-Edits :
      (user_id cv_id : ℕ) (title : Option Text) (w : World S O)
      → Edits user_id cv_id w (update_cv db storage user_id cv_id title w).1
  unfolding update_cv find_owned ensure_owner update_title
  update-Edits user_id cv_id none w = elim (Option-cases (find_by_id cv_id (db.tables w.store))) [
    | inl missing ↦ inl (ground arith)
    | inr (c, there) ↦ elim (Bool-cases (c.user_id == user_id)) [
      | inr other ↦ inl (ground arith)
      | inl owner ↦ inr (c, c, there, owner, refl, refl, inl refl, ground arith)
    ]
  ]
  update-Edits user_id cv_id (some title) w =
      elim (Option-cases (find_by_id cv_id (db.tables w.store))) [
        | inl missing ↦ inl (ground arith)
        | inr (c, there) ↦ elim (Bool-cases (c.user_id == user_id)) [
          | inr other ↦ inl (ground arith)
          | inl owner ↦ elim (Result-cases (update_title title c)) [
            | inr (e, refused) ↦ inl (ground arith)
            | inl (x, done) ↦
                inr
                  (c, x, there, owner, ground arith, ground arith, inl (ground arith), ground arith)
          ]
        ]
      ]

  pub delete-Edits :
      (now user_id cv_id : ℕ) (w : World S O)
      → Edits user_id cv_id w (delete_cv db storage now user_id cv_id w).1
  unfolding delete_cv find_owned ensure_owner soft_delete
  delete-Edits now user_id cv_id w = elim (Option-cases (find_by_id cv_id (db.tables w.store))) [
    | inl missing ↦ inl (ground arith)
    | inr (c, there) ↦ elim (Bool-cases (c.user_id == user_id)) [
      | inr other ↦ inl (ground arith)
      | inl owner ↦ elim (Bool-cases (has_active_application_reference cv_id (db.tables w.store))) [
        | inl referenced ↦ inl (ground arith)
        | inr free ↦ elim (Result-cases (soft_delete now c)) [
          | inr (e, refused) ↦ inl (ground arith)
          | inl (x, done) ↦
              inr (c, x, there, owner, ground arith, ground arith, inr free, ground arith)
        ]
      ]
    ]
  ]
