-- ===== src/Cv/Handlers/Purging.antt =====
-- What the purge of deleted CVs removes.
use mathlib.Core.Path.{subst}
use recruitment_platform_be.Prelude.{
  sym, ℕ, ◌-◌, ◌≡◌, ◌⊎◌, inl, inr, Bool, true, false, not, none, some, List, [], ◌∷◌, ◌==◌, ==_iff,
  any, is_some, All, refl, arith, Bool-cases,
}
use recruitment_platform_be.Prelude.Rows.{
  without_row, IsDistinct, row-without_row, filter-IsDistinct, rows_of_filter,
}
use recruitment_platform_be.Common.Tables.{Database, IsDatabase}
use recruitment_platform_be.Cv.Entity.{Cv}
use recruitment_platform_be.Cv.Tables.{
  Tables, Storage, IsStorage, is_deleted_before, find_soft_deleted_before, hard_delete,
}
use recruitment_platform_be.Cv.Handlers.{
  World, retention_ms, purge_one, purge_all, purge_deleted_cvs,
}
use recruitment_platform_be.Cv.Handlers.Filing.{
  cv_row, is_filed, filed_elsewhere, delete-IsElsewhere,
}

abbrev is_deleted_row : (k : ℕ) → List Cv → Bool
is_deleted_row k cvs = elim (cv_row k cvs) [ none ↦ true | some c ↦ is_some c.deleted_at ]

-- The row of this key was deleted before the time.
abbrev pub is_expired : (cutoff k : ℕ) → List Cv → Bool
is_expired cutoff k cvs = elim (cv_row k cvs) [ none ↦ false | some c ↦ is_deleted_before cutoff c ]

abbrev IsCandidate : List Cv → Cv → Type 0
IsCandidate cvs c = ((c.file_key.cv_id == c.id) ≡ true) × (is_deleted_row c.id cvs ≡ true)

module _ {S O : Type 0} (db : Database S Tables) where
  abbrev pub rows : World S O → List Cv
  rows w = (db.tables w.store).cvs

module _ {S O : Type 0} (db : Database S Tables) (storage : Storage O) where
  -- Identifiers are unique, and every CV that is not deleted has its file.
  abbrev pub IsCvSound : World S O → Type 0
  IsCvSound w =
      IsDistinct (λ (c : Cv). c.id) (db.tables w.store).cvs
      × ((k : ℕ) → is_filed storage k (db.tables w.store).cvs w.objects ≡ true)

module _ {S O : Type 0} {db : Database S Tables} {storage : Storage O} (laws : IsDatabase db)
    (files : IsStorage storage) where
  purge_one_rows :
      (c : Cv) (k : ℕ) (w : World S O)
      → (cv_row k (rows db (purge_one db storage c w)) ≡ cv_row k (rows db w))
        ⊎ ((cv_row k (rows db (purge_one db storage c w)) ≡ none) × ((c.id == k) ≡ true))
  unfolding purge_one hard_delete
  purge_one_rows c k w = elim (laws.commit_outcome (hard_delete c.id) w.store) [
    | inr (e, failed, same) ↦ inl (ground arith)
    | inl (went, changed) ↦ elim (Bool-cases (c.id == k)) [
      | inl here ↦ inr (
        ground (
          arith,
          row-without_row (λ (c : Cv). c.id) k c.id (rows db w),
          ==_iff c.id k,
          ==_iff k c.id,
        ),
        here,
      )
      | inr elsewhere ↦ inl (
          ground (
            arith,
            row-without_row (λ (c : Cv). c.id) k c.id (rows db w),
            ==_iff c.id k,
            ==_iff k c.id,
          ))
    ]
  ]

  purge_one-IsDistinct :
      (c : Cv) (w : World S O)
      → IsDistinct (λ (c : Cv). c.id) (rows db w)
      → IsDistinct (λ (c : Cv). c.id) (rows db (purge_one db storage c w))
  unfolding purge_one hard_delete
  purge_one-IsDistinct c w h = elim (laws.commit_outcome (hard_delete c.id) w.store) [
    | inr (e, failed, same) ↦
        let kept : rows db (purge_one db storage c w) ≡ rows db w = ground arith in
        subst (IsDistinct (λ (c : Cv). c.id)) (sym kept) h
    | inl (went, changed) ↦
        let e : rows db (purge_one db storage c w)
            ≡ without_row (λ (c : Cv). c.id) c.id (rows db w) =
          ground arith in
        subst (IsDistinct (λ (c : Cv). c.id)) (sym e)
          (filter-IsDistinct (λ (c : Cv). c.id) (λ x. not (x.id == c.id)) (rows db w) h)
  ]

  purge_one_filed :
      (c : Cv) (k : ℕ) (w : World S O)
      → IsCandidate (rows db w) c
      → is_filed storage k (rows db w) w.objects ≡ true
      → is_filed storage k (rows db (purge_one db storage c w)) (purge_one db storage c w).objects
        ≡ true
  unfolding purge_one
  purge_one_filed c k w (own, gone) filed = elim (Bool-cases (c.id == k)) [
    | inr elsewhere ↦ elim (purge_one_rows c k w) [
      | inl same ↦
          filed_elsewhere storage k c.file_key.cv_id (rows db w)
            (rows db (purge_one db storage c w)) w.objects (purge_one db storage c w).objects
            (delete-IsElsewhere storage files c.file_key w.objects)
            (ground (arith, ==_iff c.id k, ==_iff k c.file_key.cv_id, ==_iff c.file_key.cv_id c.id))
            same filed
      | inr (missing, here) ↦ ground arith
    ]
    | inl here ↦ ground (arith, purge_one_rows c k w, ==_iff c.id k)
  ]

  IsCandidate-stays :
      (c x : Cv) (w : World S O)
      → IsCandidate (rows db w) x
      → IsCandidate (rows db (purge_one db storage c w)) x
  IsCandidate-stays c x w (own, gone) = (own, ground (arith, purge_one_rows c x.id w))

  candidates_stay :
      (c : Cv) (xs : List Cv) (w : World S O)
      → All (IsCandidate (rows db w)) xs
      → All (IsCandidate (rows db (purge_one db storage c w))) xs
  candidates_stay c [] w h = tt
  candidates_stay c (x ∷ xs) w (h, hs) = (IsCandidate-stays c x w h, candidates_stay c xs w hs)

  purge_all-IsCvSound :
      (xs : List Cv) (w : World S O)
      → All (IsCandidate (rows db w)) xs
      → IsCvSound db storage w
      → IsCvSound db storage (purge_all db storage xs w)
  unfolding purge_all
  purge_all-IsCvSound [] w h sound = sound
  purge_all-IsCvSound (x ∷ xs) w (h, hs) (distinct, filed) =
      purge_all-IsCvSound xs (purge_one db storage x w) (candidates_stay x xs w hs)
        (purge_one-IsDistinct x w distinct, λ k. purge_one_filed x k w h (filed k))

  pub purge_all_rows :
      (xs : List Cv) (k : ℕ) (w : World S O)
      → (cv_row k (rows db (purge_all db storage xs w)) ≡ cv_row k (rows db w))
        ⊎ ((cv_row k (rows db (purge_all db storage xs w)) ≡ none)
            × (any (λ x. x.id == k) xs ≡ true))
  unfolding purge_all
  purge_all_rows [] k w = inl refl
  purge_all_rows (x ∷ xs) k w =
      ground (arith, purge_one_rows x k w, purge_all_rows xs k (purge_one db storage x w))

  candidates_of :
      (cutoff : ℕ) (w : World S O) (xs : List Cv)
      → ((k : ℕ) → is_filed storage k (rows db w) w.objects ≡ true)
      → All (λ x. (cv_row x.id (rows db w) ≡ some x) × (is_deleted_before cutoff x ≡ true)) xs
      → All (IsCandidate (rows db w)) xs
  candidates_of cutoff w [] filed h = tt
  candidates_of cutoff w (x ∷ xs) filed ((picked, before), h) =
      ((ground (arith, filed x.id), ground arith), candidates_of cutoff w xs filed h)

  pub candidate_expired :
      (cutoff k : ℕ) (w : World S O) (xs : List Cv)
      → All (λ x. (cv_row x.id (rows db w) ≡ some x) × (is_deleted_before cutoff x ≡ true)) xs
      → any (λ x. x.id == k) xs ≡ true
      → is_expired cutoff k (rows db w) ≡ true
  candidate_expired cutoff k w [] h there = absurd (ground arith)
  candidate_expired cutoff k w (x ∷ xs) ((picked, before), h) there =
      elim (Bool-cases (x.id == k)) [
        | inl here ↦ ground (arith, ==_iff x.id k)
        | inr elsewhere ↦ candidate_expired cutoff k w xs h (ground arith)
      ]

  pub candidates :
      (cutoff : ℕ) (w : World S O)
      → IsCvSound db storage w
      → All
          (λ x. (cv_row x.id (rows db w) ≡ some x) × (is_deleted_before cutoff x ≡ true))
          (find_soft_deleted_before cutoff (db.tables w.store))
  unfolding find_soft_deleted_before
  candidates cutoff w (distinct, filed) =
      rows_of_filter (λ (c : Cv). c.id) (is_deleted_before cutoff) (rows db w) distinct

  pub purge-IsCvSound :
      (now : ℕ) (w : World S O)
      → IsCvSound db storage w
      → IsCvSound db storage (purge_deleted_cvs db storage now w)
  unfolding purge_deleted_cvs
  purge-IsCvSound now w sound =
      let cutoff = now - retention_ms in
      let xs = find_soft_deleted_before cutoff (db.tables w.store) in
      purge_all-IsCvSound xs w (candidates_of cutoff w xs sound.1 (candidates cutoff w sound)) sound

  -- Whatever fails during a purge, a row is as it was, or it is gone and had been deleted more than
  -- thirty days ago; every CV that is not deleted keeps its file.
  pub purge_deleted_cvs_effects :
      (now : ℕ) (w : World S O) (k : ℕ)
      → IsCvSound db storage w
      → ((cv_row k (rows db (purge_deleted_cvs db storage now w)) ≡ cv_row k (rows db w))
          ⊎ ((cv_row k (rows db (purge_deleted_cvs db storage now w)) ≡ none)
              × (is_expired (now - retention_ms) k (rows db w) ≡ true)))
        × (is_filed storage k
              (rows db (purge_deleted_cvs db storage now w))
              (purge_deleted_cvs db storage now w).objects
            ≡ true)
  unfolding purge_deleted_cvs
  purge_deleted_cvs_effects now w k sound =
      let cutoff = now - retention_ms in
      let xs = find_soft_deleted_before cutoff (db.tables w.store) in
      (
        ground (
          arith,
          purge_all_rows xs k w,
          candidate_expired cutoff k w xs (candidates cutoff w sound),
        ),
        (purge-IsCvSound now w sound).1 k,
      )
