-- ===== src/Cv/Handlers/Referenced.antt =====
-- A CV that an ongoing application refers to.
use recruitment_platform_be.Prelude.{
  ℕ, ◌-◌, map, ◌≡◌, inl, inr, Bool, true, false, not, Option, none, some, List, [], ◌∷◌, ◌==◌, ◌&&◌,
  sym, ap, ◌∙◌, filter, ==_iff, any, is_some, refl, arith, Option-cases, Bool-cases,
}
use recruitment_platform_be.Prelude.Action.{Result-cases}
use recruitment_platform_be.Prelude.Rows.{row-replace_row, row-key}
use recruitment_platform_be.Common.Tables.{Database, IsDatabase}
use recruitment_platform_be.Cv.Entity.{Cv}
use recruitment_platform_be.Common.Text.{Text}
use recruitment_platform_be.Cv.Files.{UploadedCvFile, validate_uploaded_file}
use recruitment_platform_be.Cv.Tables.{
  Tables, Storage, IsStorage, CvApplication, refers_to, is_ongoing, unlinked,
  find_soft_deleted_before, has_active_application_reference, create, update, hard_delete,
}
use recruitment_platform_be.Cv.Handlers.{
  World, Date, retention_ms, new_cv, save_uploaded, create_cv, purge_one, purge_all,
  purge_deleted_cvs,
}
use recruitment_platform_be.Cv.Handlers.Filing.{cv_row, found_row}
use recruitment_platform_be.Cv.Handlers.Edits.{Edits, publish-Edits, update-Edits, delete-Edits}
use recruitment_platform_be.Cv.Handlers.Purging.{
  IsCvSound, rows, candidates, candidate_expired, purge_all_rows,
}
use recruitment_platform_be.Cv.Handlers.Kept.{
  Command, create_it, publish_it, update_it, delete_it, purge, execute, run, IsFresh, AreFresh,
  execute-IsCvSound,
}

-- The CV is there and not deleted, and an ongoing application refers to it.
abbrev pub is_in_use : (k : ℕ) → Tables → Bool
is_in_use k t =
    elim (cv_row k t.cvs) [ none ↦ false | some c ↦ not (is_some c.deleted_at) ]
    && has_active_application_reference k t

-- The ongoing applications that refer to the CV.
abbrev pub references : (k : ℕ) → Tables → List CvApplication
references k t = filter (λ a. refers_to k a && is_ongoing a.status) t.applications

any-filter : (p : CvApplication → Bool) (xs : List CvApplication) → any p (filter p xs) ≡ any p xs
any-filter p [] = refl
any-filter p (x ∷ xs) = ground (arith, any-filter p xs)

-- The CV stays in use, by the same applications.
abbrev IsKept : (k : ℕ) → (t t' : Tables) → Type 0
IsKept k t t' = (is_in_use k t' ≡ true) × (references k t' ≡ references k t)

module _ {S O : Type 0} {db : Database S Tables} {storage : Storage O} (laws : IsDatabase db)
    (files : IsStorage storage) where
  Edits-in_use :
      (k user_id cv_id : ℕ) (w w' : World S O)
      → Edits db storage user_id cv_id w w'
      → IsCvSound db storage w
      → is_in_use k (db.tables w.store) ≡ true
      → IsKept k (db.tables w.store) (db.tables w'.store)
  unfolding update has_active_application_reference
  Edits-in_use k user_id cv_id w w' (inl same) sound h = rw same (h, refl)
  Edits-in_use k user_id cv_id w w' (inr (c, x, there, owner, id, key, deleted, after)) sound h =
      let t = db.tables w.store in
      let (at, alive) = found_row cv_id c t sound.0 there in
      elim (laws.commit_outcome (update x) w.store) [
        | inr (e, failed, same) ↦ rw after (rw same (h, refl))
        | inl (went, changed) ↦
            let t' = db.tables (db.commit (update x) w.store).1 in
            let kept : is_in_use k t' ≡ true = ground (
              arith,
              row-replace_row (λ (c : Cv). c.id) k x t.cvs,
              row-key (λ (c : Cv). c.id) cv_id c t.cvs at,
              ==_iff x.id k,
            ) in
            rw after (kept, ground arith)
      ]

  create_in_use :
      (max k user_id fresh : ℕ) (date : Date) (title : Text) (file : Option UploadedCvFile)
      (w : World S O)
      → cv_row fresh (rows db w) ≡ none
      → is_in_use k (db.tables w.store) ≡ true
      → IsKept k
          (db.tables w.store)
          (db.tables (create_cv db storage max date user_id fresh title file w).1.store)
  unfolding create_cv save_uploaded create has_active_application_reference new_cv
  create_in_use max k user_id fresh date title none w new h = (h, refl)
  create_in_use max k user_id fresh date title (some file) w new h =
      elim (Result-cases (validate_uploaded_file (some file) max)) [
        | inr (e, refused) ↦ (ground arith, ground arith)
        | inl (t, accepted) ↦
            let cv = new_cv date user_id fresh title file t in
            elim (laws.commit_outcome (create cv) w.store) [
              | inl (went, changed) ↦ (ground (arith, ==_iff fresh k), ground arith)
              | inr (e, failed, same) ↦ (ground arith, ground arith)
            ]
      ]

  references-unlinked :
      (j k : ℕ) (rest : List CvApplication)
      → (j == k) ≡ false
      → filter (λ a. refers_to k a && is_ongoing a.status) (map (unlinked j) rest)
        ≡ filter (λ a. refers_to k a && is_ongoing a.status) rest
  references-unlinked j k [] other = refl
  references-unlinked j k (a ∷ rest) other = elim (Option-cases a.cv_id) [
    | inl missing ↦ ground (arith, references-unlinked j k rest other)
    | inr (i, there) ↦
        ground (arith, references-unlinked j k rest other, ==_iff i j, ==_iff i k, ==_iff j k)
  ]

  references-purge_all :
      (k : ℕ) (xs : List Cv) (w : World S O)
      → any (λ x. x.id == k) xs ≡ false
      → references k (db.tables (purge_all db storage xs w).store)
        ≡ references k (db.tables w.store)
  unfolding purge_all purge_one hard_delete
  references-purge_all k [] w h = refl
  references-purge_all k (x ∷ xs) w h =
      let w₁ = purge_one db storage x w in
      elim (laws.commit_outcome (hard_delete x.id) w.store) [
        | inr (e, failed, same) ↦ ground (arith, references-purge_all k xs w₁)
        | inl (went, changed) ↦ ground (
          arith,
          references-purge_all k xs w₁,
          references-unlinked x.id k (db.tables w.store).applications,
        )
      ]

  purge_in_use :
      (k now : ℕ) (w : World S O)
      → IsCvSound db storage w
      → is_in_use k (db.tables w.store) ≡ true
      → IsKept k (db.tables w.store) (db.tables (purge_deleted_cvs db storage now w).store)
  unfolding purge_deleted_cvs has_active_application_reference
  purge_in_use k now w sound h =
      let cutoff = now - retention_ms in
      let t = db.tables w.store in
      let xs = find_soft_deleted_before cutoff t in
      elim (Bool-cases (any (λ x. x.id == k) xs)) [
        | inl chosen ↦
            let expired =
              candidate_expired laws files cutoff k w xs (candidates laws files cutoff w sound)
                chosen in
            absurd (ground arith)
        | inr spared ↦
            let t' = db.tables (purge_all db storage xs w).store in
            let p : CvApplication → Bool = λ a. refers_to k a && is_ongoing a.status in
            let same = references-purge_all k xs w spared in
            let still : any p t'.applications ≡ any p t.applications =
              sym (any-filter p t'.applications) ∙ ap (any p) same ∙ any-filter p t.applications in
            (ground (arith, purge_all_rows laws files xs k w, still), same)
      ]

  execute_in_use :
      (k : ℕ) (c : Command) (w : World S O)
      → IsFresh db storage c w
      → IsCvSound db storage w
      → is_in_use k (db.tables w.store) ≡ true
      → IsKept k (db.tables w.store) (db.tables (execute db storage c w).store)
  execute_in_use k (create_it max date u j title file) w fresh sound h =
      create_in_use max k u j date title file w fresh h
  execute_in_use k (publish_it u j) w fresh sound h =
      Edits-in_use k u j w _ (publish-Edits db storage u j w) sound h
  execute_in_use k (update_it u j title) w fresh sound h =
      Edits-in_use k u j w _ (update-Edits db storage u j title w) sound h
  execute_in_use k (delete_it n u j) w fresh sound h =
      Edits-in_use k u j w _ (delete-Edits db storage n u j w) sound h
  execute_in_use k (purge n) w fresh sound h = purge_in_use k n w sound h

  -- With unique identifiers and every file in the storage, a CV that is not deleted and that an
  -- ongoing application refers to stays there and is not deleted, under any commands, each with a new
  -- identifier for a new CV; the ongoing applications that refer to it are the same before and after.
  pub run_in_use :
      (k : ℕ) (cs : List Command) (w : World S O)
      → AreFresh db storage cs w
      → IsCvSound db storage w
      → is_in_use k (db.tables w.store) ≡ true
      → let t' = db.tables (run db storage cs w).store in
        (is_in_use k t' ≡ true) × (references k t' ≡ references k (db.tables w.store))
  unfolding run
  run_in_use k [] w fresh sound h = (h, refl)
  run_in_use k (c ∷ cs) w (now_fresh, fresh) sound h =
      let (kept, same) = execute_in_use k c w now_fresh sound h in
      let (end, same') =
        run_in_use k cs (execute db storage c w) fresh
          (execute-IsCvSound laws files c w now_fresh sound) kept in
      (end, same' ∙ same)
