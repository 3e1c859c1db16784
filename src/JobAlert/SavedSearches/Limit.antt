-- ===== src/JobAlert/SavedSearches/Limit.antt =====
-- How many searches a user can have.
use recruitment_platform_be.Prelude.{
  ℕ, ◌≡◌, ◌≤◌, inl, inr, Bool, List, [], ◌∷◌, ◌==◌, count, filter, refl, not, ==_iff, arith,
}
use recruitment_platform_be.Common.Tables.{Database, IsDatabase}
use recruitment_platform_be.JobAlert.SavedSearches.{
  SavedSearch, CreateSavedSearchInput, count_by_user_id, insert_row, create, delete,
  create_saved_search, delete_saved_search,
}

pub data Command : Type 0 where
  create_it : (category_exists : ℕ → Bool) (user_id fresh_id : ℕ) → CreateSavedSearchInput → Command
  delete_it : (user_id saved_search_id : ℕ) → Command

module _ {S : Type 0} (db : Database S (List SavedSearch)) where
  abbrev pub execute : Command → S → S
  execute (create_it exists u k input) s = (create_saved_search db exists u k input s).1
  execute (delete_it u k) s = (delete_saved_search db u k s).1

  unfoldable pub run : List Command → S → S
  run [] s = s
  run (c ∷ cs) s = run cs (execute c s)

count-insert_row :
    (p : SavedSearch → Bool) (x : SavedSearch) (rows : List SavedSearch)
    → count p (insert_row x rows) ≡ count p (x ∷ rows)
count-insert_row p x [] = refl
count-insert_row p x (y ∷ ys) = ground (arith, count-insert_row p x ys)

count-filter :
    (p q : SavedSearch → Bool) (rows : List SavedSearch) → count p (filter q rows) ≤ count p rows
count-filter p q [] = omega arith
count-filter p q (y ∷ ys) = ground (arith, count-filter p q ys)

module _ {S : Type 0} {db : Database S (List SavedSearch)} (laws : IsDatabase db) where
  execute_bounded :
      (c : Command) (u : ℕ) (s : S)
      → count_by_user_id u (db.tables s) ≤ 20
      → count_by_user_id u (db.tables (execute db c s)) ≤ 20
  unfolding create_saved_search delete_saved_search count_by_user_id create delete
  execute_bounded (create_it exists v k input) u s h =
      let x : SavedSearch = record { id = k; user_id = v; input = input } in
      elim (laws.commit_outcome (create x) s) [
        | inl (went, changed) ↦
            ground (arith, count-insert_row (λ y. y.user_id == u) x (db.tables s), ==_iff v u)
        | inr (e, failed, same) ↦ ground arith
      ]
  execute_bounded (delete_it v k) u s h = elim (laws.commit_outcome (delete k) s) [
    | inl (went, changed) ↦
        ground (arith, count-filter (λ y. y.user_id == u) (λ y. not (y.id == k)) (db.tables s))
    | inr (e, failed, same) ↦ ground arith
  ]

  -- After any commands, one after the other and failed ones included, a user has at most twenty
  -- saved searches, if that was so before.
  pub run_bounded :
      (cs : List Command) (u : ℕ) (s : S)
      → count_by_user_id u (db.tables s) ≤ 20
      → count_by_user_id u (db.tables (run db cs s)) ≤ 20
  unfolding run
  run_bounded [] u s h = h
  run_bounded (c ∷ cs) u s h = run_bounded cs u (execute db c s) (execute_bounded c u s h)
