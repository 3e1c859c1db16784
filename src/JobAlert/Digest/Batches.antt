-- ===== src/JobAlert/Digest/Batches.antt =====
-- The loop over the batches ends, and works through every saved search once.
use mathlib.Core.Path.{subst}
use mathlib.Core.List.{append_assoc}
use recruitment_platform_be.Prelude.{
  ℕ, zero, suc, ◌≡◌, ◌≤◌, ◌<◌, false, Option, none, some, List, [], ◌∷◌, ◌++◌, ◌==◌, ==_iff, any,
  take, drop, length, All, take-append-drop, length-take, length-drop, refl, ap, sym, ◌∙◌, arith,
}
use recruitment_platform_be.Prelude.Rows.{IsDistinct}
use recruitment_platform_be.JobAlert.SavedSearches.{SavedSearch}
use recruitment_platform_be.JobAlert.Digest.{after, find_batch, batch_size, last_id, batches}

-- In a table with a primary key, what follows the row of the cursor is the rest of the table.
after_row :
    (before : List SavedSearch) (x : SavedSearch) (rest : List SavedSearch)
    → IsDistinct (λ y. y.id) (before ++ x ∷ rest)
    → after (some x.id) (before ++ x ∷ rest) ≡ rest
after_row [] x rest d = ground (arith, ==_iff x.id x.id)
after_row (y ∷ ys) x rest (other, d) =
    ground (arith, after_row ys x rest d, other_row ys x rest y.id other)
  where
    other_row :
        (ys : List SavedSearch) (x : SavedSearch) (rest : List SavedSearch) (k : ℕ)
        → any (λ z. z.id == k) (ys ++ x ∷ rest) ≡ false
        → (k == x.id) ≡ false
    other_row [] x rest k h = ground (arith, ==_iff x.id k, ==_iff k x.id)
    other_row (y ∷ ys) x rest k h = ground (arith, other_row ys x rest k)

-- The rows up to the end of the batch are those before its last one, and that one.
after_batch :
    (before : List SavedSearch) (x : SavedSearch) (xs rest : List SavedSearch)
    → IsDistinct (λ y. y.id) (before ++ (x ∷ (xs ++ rest)))
    → after (some (last_id x xs)) (before ++ (x ∷ (xs ++ rest))) ≡ rest
after_batch before x [] rest d = after_row before x rest d
after_batch before x (y ∷ ys) rest d =
    let e : (before ++ x ∷ []) ++ (y ∷ (ys ++ rest)) ≡ before ++ (x ∷ (y ∷ (ys ++ rest))) =
      append_assoc before (x ∷ []) (y ∷ (ys ++ rest)) in
    subst (λ rows. after (some (last_id y ys)) rows ≡ rest) e
      (after_batch (before ++ x ∷ []) y ys rest
        (subst (IsDistinct (λ (s : SavedSearch). s.id)) (sym e) d))

abbrev pub flatten : List (List SavedSearch) → List SavedSearch
flatten [] = []
flatten (batch ∷ rest) = batch ++ flatten rest

-- What is left of the table is worked through in batches of at most two hundred.
abbrev pub WorksThrough : (fuel : ℕ) (cursor : Option ℕ) (rows rest : List SavedSearch) → Type 0
WorksThrough fuel cursor rows rest =
    (bs : List (List SavedSearch)) × (batches fuel cursor rows ≡ some bs)
    × (flatten bs ≡ rest)
    × All (λ b. (0 < length b) × (length b ≤ batch_size)) bs

one_batch :
    (fuel : ℕ) (cursor : Option ℕ) (rows : List SavedSearch) (x : SavedSearch)
    (xs : List SavedSearch)
    → after cursor rows ≡ x ∷ xs
    → WorksThrough fuel (some (last_id x (take 199 xs))) rows (drop 199 xs)
    → WorksThrough (suc fuel) cursor rows (x ∷ xs)
unfolding batches find_batch
one_batch fuel cursor rows x xs here (bs, run, all, sizes) = (
  (x ∷ take 199 xs) ∷ bs,
  ground arith,
  ground (arith, take-append-drop 199 xs),
  ((omega arith, omega (arith, length-take 199 xs)), sizes),
)

no_batch :
    (fuel : ℕ) (cursor : Option ℕ) (rows : List SavedSearch)
    → after cursor rows ≡ []
    → WorksThrough (suc fuel) cursor rows []
unfolding batches find_batch
no_batch fuel cursor rows here = ([], ground arith, refl, tt)

works_through :
    (fuel : ℕ) (cursor : Option ℕ) (before rest rows : List SavedSearch)
    → before ++ rest ≡ rows
    → IsDistinct (λ s. s.id) rows
    → after cursor rows ≡ rest
    → length rest < fuel
    → WorksThrough fuel cursor rows rest
works_through zero cursor before rest rows e d here few = absurd (omega arith)
works_through (suc fuel) cursor before [] rows e d here few = no_batch fuel cursor rows here
works_through (suc fuel) cursor before (x ∷ xs) rows e d here few =
    let rest = drop 199 xs in
    let whole : before ++ (x ∷ (take 199 xs ++ rest)) ≡ rows =
      ap (λ ys. before ++ (x ∷ ys)) (take-append-drop 199 xs) ∙ e in
    let next =
      subst (λ all. after (some (last_id x (take 199 xs))) all ≡ rest) whole
        (after_batch before x (take 199 xs) rest
          (subst (IsDistinct (λ (s : SavedSearch). s.id)) (sym whole) d)) in
    one_batch fuel cursor rows x xs here (
      works_through fuel (some (last_id x (take 199 xs))) (before ++ (x ∷ take 199 xs)) rest rows
        (append_assoc before (x ∷ take 199 xs) rest ∙ whole) d next
        (omega (arith, length-drop 199 xs)))

-- In a table with a primary key that does not change meanwhile, the loop ends, with one unit of fuel
-- more than there are rows, and its batches, of at most two hundred searches and none empty, are the
-- whole table in its order.
pub batches_total :
    (fuel : ℕ) (rows : List SavedSearch)
    → IsDistinct (λ s. s.id) rows
    → length rows < fuel
    → (bs : List (List SavedSearch)) × (batches fuel none rows ≡ some bs)
      × (flatten bs ≡ rows)
      × All (λ b. (0 < length b) × (length b ≤ batch_size)) bs
batches_total fuel rows d few = works_through fuel none [] rows rows refl d refl few
